-- ===== src/Tests/Toy.antt =====
-- A concrete instance of the printer that the framing is stated over, on which the theorems are run:
-- a header is printed as its fourteen numbers, each one more than it is.
use rt_fogros.Prelude.{
  ℕ, zero, suc, ◌≡◌, refl, ap, Text, codes, Option, none, some, List, [], ◌∷◌, ◌++◌, length,
  length-append, true, ◌==◌, if◌then◌else◌, arith,
}
use rt_fogros.Packet.Name.{GdpName}
use rt_fogros.Packet.Action.{
  GdpAction, noop, forward, advertise, advertise_response, rib_get, rib_reply, nack, control,
  request, response, ping, pong, to_u8,
}
use rt_fogros.Packet.Types.{GdpHeaderInTransit}
use rt_fogros.Packet.Header.{Json, JsonLaws}

-- The element at an index, `d` where there is none.
abbrev pub at : {A : Type 0} → A → ℕ → List A → A
at d n [] = d
at d zero (x ∷ xs) = x
at d (suc n) (x ∷ xs) = at d n xs

abbrev pub actions : List GdpAction
actions =
    noop ∷ forward ∷ advertise ∷ advertise_response ∷ rib_get ∷ rib_reply ∷ nack ∷ control ∷ request
    ∷ response ∷ ping ∷ pong ∷ []

abbrev pub pred : ℕ → ℕ
pred zero = zero
pred (suc n) = n

abbrev pub name_text : GdpName → Text
name_text n = suc n.b0 ∷ suc n.b1 ∷ suc n.b2 ∷ suc n.b3 ∷ []

abbrev pub name_at : ℕ → Text → GdpName
name_at i s = record {
  b0 = pred (at 1 i s);
  b1 = pred (at 1 (suc i) s);
  b2 = pred (at 1 (suc (suc i)) s);
  b3 = pred (at 1 (suc (suc (suc i))) s);
}

abbrev pub print : GdpHeaderInTransit → Text
print h =
    suc (to_u8 h.action)
    ∷ (name_text h.destination ++ name_text h.source ++ name_text h.guid ++ suc h.length ∷ [])

abbrev pub read : Text → Option GdpHeaderInTransit
read s =
    if length s == 14
    then some (record {
      action = at noop (pred (at 1 0 s)) actions;
      destination = name_at 1 s;
      source = name_at 5 s;
      guid = name_at 9 s;
      length = pred (at 1 13 s);
    })
    else none

abbrev pub toy : Json
toy = record {
  header_to_string = print;
  header_from_str = read;
  record_to_string = λ r. codes "record";
  record_from_str = λ s. none;
  is_utf8 = λ s. true;
}

at-to_u8 : (a : GdpAction) → at noop (to_u8 a) actions ≡ a
unfolding to_u8
at-to_u8 noop = refl
at-to_u8 forward = refl
at-to_u8 advertise = refl
at-to_u8 advertise_response = refl
at-to_u8 rib_get = refl
at-to_u8 rib_reply = refl
at-to_u8 nack = refl
at-to_u8 control = refl
at-to_u8 request = refl
at-to_u8 response = refl
at-to_u8 ping = refl
at-to_u8 pong = refl

pub read-print : (h : GdpHeaderInTransit) → read (print h) ≡ some h
read-print h =
    ap
      (λ a. some (record {
        action = a;
        destination = h.destination;
        source = h.source;
        guid = h.guid;
        length = h.length;
      }))
      (at-to_u8 h.action)

-- A text that is not fourteen numbers long is refused.
pub read_cut :
    (h : GdpHeaderInTransit) (xs : Text) (y : ℕ) (ys : Text)
    → print h ≡ xs ++ y ∷ ys
    → read xs ≡ none
read_cut h xs y ys e =
    let n : 14 ≡ length (xs ++ y ∷ ys) = ap length e in ground (arith, length-append xs (y ∷ ys), n)

pub toy_laws : JsonLaws toy
toy_laws = record {
  header_reads_back = read-print;
  header_is_not_empty = λ h e. cc;
  header_is_utf8 = λ h. refl;
  header_has_no_nul = λ h. ground arith;
  cut_is_utf8 = λ h xs y ys e. refl;
  cut_is_refused = read_cut;
}
