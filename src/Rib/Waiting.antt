-- ===== src/Rib/Waiting.antt =====
-- Who waits for a name in fogrs-core/src/rib.rs, and when it is announced.
use rt_fogros.Prelude.{
  ◌≡◌, refl, sym, ap, ◌∙◌, Bool, true, false, Bool-cases, inl, inr, ◌&&◌, ◌||◌, Option, none, some,
  List, [], ◌∷◌, ◌++◌, contains, contains-append, beq_refl, arith,
}
use mathlib.Core.Path.{subst}
use rt_fogros.Prelude.Assoc.{get, or_empty}
use rt_fogros.Packet.Name.{GdpName, name_eq, name_beq, name_beq_iff}
use rt_fogros.Packet.Types.{GdpNameRecord, GdpNameRecordType, info}
use rt_fogros.Rib.Handler.{Handler, already_pending}

-- Those that wait for the name.
abbrev pub waiting : GdpName → Handler → List GdpName
waiting name h = or_empty (get name h.pending_routing_records)

-- No name stands twice.
abbrev pub Once : List GdpName → Type 0
Once [] = Unit
Once (x ∷ xs) = (contains x xs ≡ false) × Once xs

abbrev pub is_info : GdpNameRecordType → Bool
is_info info = true
is_info _ = false

-- Some record announces the name.
abbrev pub announced : GdpName → List GdpNameRecord → Bool
announced name [] = false
announced name (q ∷ qs) = (is_info q.record_type && name_beq q.gdpname name) || announced name qs

pub already_pending-or_empty :
    (s : GdpName) (o : Option (List GdpName)) → already_pending s o ≡ contains s (or_empty o)
unfolding contains
already_pending-or_empty s none = refl
already_pending-or_empty s (some vs) = refl

pub contains_last : (s : GdpName) (xs : List GdpName) → contains s (xs ++ s ∷ []) ≡ true
unfolding contains
contains_last s [] = rw (beq_refl s)
contains_last s (x ∷ xs) = ground (arith, contains_last s xs)

pub Once-push :
    (s : GdpName) (xs : List GdpName) → contains s xs ≡ false → Once xs → Once (xs ++ s ∷ [])
unfolding contains
Once-push s [] new o = (refl, tt)
Once-push s (x ∷ xs) new o = (
  contains-append x xs (s ∷ []) ∙ rw o.0 (flipped (ground (arith, new))),
  Once-push s xs (ground (arith, new)) o.1,
)
  where
    flipped : name_beq x s ≡ false → (name_beq s x || false) ≡ false
    flipped h = elim (Bool-cases (name_beq s x)) [
      | inr other ↦ rw other
      | inl same ↦
          absurd (ground (arith, h, (name_beq_iff x s).1 (sym ((name_beq_iff s x).0 same))))
    ]

-- A name that stands once cuts the list in two parts without it.
pub Once-split :
    (s : GdpName) (xs : List GdpName)
    → contains s xs ≡ true
    → Once xs
    → (before : List GdpName) × (after : List GdpName) × (xs ≡ before ++ s ∷ after)
      × (contains s before ≡ false)
      × (contains s after ≡ false)
unfolding contains
Once-split s [] h o = ground arith
Once-split s (x ∷ xs) h o = elim (Bool-cases (name_beq x s)) [
  | inl same ↦
      let e = (name_beq_iff x s).0 same in
      ([], xs, ap (λ n. n ∷ xs) e, refl, subst (λ n. contains n xs ≡ false) e o.0)
  | inr other ↦
      let (before, after, e, b, a) = Once-split s xs (rw other at h) o.1 in
      (x ∷ before, after, ap (◌∷◌ x) e, rw other b, a)
]
