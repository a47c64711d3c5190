-- ===== src/Ros/Names.antt =====
-- The names of requests and updates of fogrs-ros/src/lib.rs, and lists of names.
use rt_fogros.Prelude.{
  ◌≡◌, refl, ap, true, false, Bool-cases, inl, inr, List, [], ◌∷◌, ◌++◌, if◌then◌else◌, contains,
  contains-append, arith,
}
use rt_fogros.Packet.Name.{GdpName, name_eq, name_beq, name_beq_iff}
use rt_fogros.Packet.Construct.{Sha256, get_gdp_name_from_topic}
use rt_fogros.Fib.Types.{FibStateChange}
use rt_fogros.Ros.Types.{TopicManagerRequest, is_add}
use rt_fogros.Ros.Manager.{Worker, Arrival}

-- The name of a request.
abbrev pub name_of : Sha256 → TopicManagerRequest → GdpName
name_of sha256 request =
    get_gdp_name_from_topic sha256 request.topic_name request.topic_type request.certificate

-- The names of the requests that add.
abbrev pub added : Sha256 → List Arrival → List GdpName
added sha256 [] = []
added sha256 (a ∷ later) =
    let names = added sha256 later in
    if is_add a.request.action then name_of sha256 a.request ∷ names else names

abbrev pub without : GdpName → List GdpName → List GdpName
without x [] = []
without x (y ∷ ys) = let rest = without x ys in if name_beq y x then rest else y ∷ rest

-- The names of a list, each where it first occurs.
abbrev pub distinct : List GdpName → List GdpName
distinct [] = []
distinct (x ∷ xs) = x ∷ without x (distinct xs)

-- The names of a list that are in none of the others.
abbrev pub minus : List GdpName → List GdpName → List GdpName
minus seen [] = []
minus seen (y ∷ ys) = let rest = minus seen ys in if contains y seen then rest else y ∷ rest

abbrev pub IsCreated : Arrival → Type 0
IsCreated a = a.created ≡ true

abbrev pub names : List Worker → List GdpName
names [] = []
names (w ∷ ws) = w.topic_gdp_name ∷ names ws

abbrev pub topics : List FibStateChange → List GdpName
topics [] = []
topics (u ∷ us) = u.topic_gdp_name ∷ topics us

pub minus-nil : (ys : List GdpName) → minus [] ys ≡ ys
unfolding contains
minus-nil [] = refl
minus-nil (y ∷ ys) = ap (◌∷◌ y) (minus-nil ys)

-- A name that has been seen is taken off either way.
pub minus-without_seen :
    (seen : List GdpName) (x : GdpName) (ys : List GdpName)
    → contains x seen ≡ true
    → minus seen (without x ys) ≡ minus seen ys
minus-without_seen seen x [] h = refl
minus-without_seen seen x (y ∷ ys) h = elim (Bool-cases (name_beq y x)) [
  | inl same ↦ rw (same, (name_beq_iff y x).0 same, h, minus-without_seen seen x ys h) refl
  | inr other ↦ rw (other, minus-without_seen seen x ys h) refl
]

-- A name that is kept is seen from then on.
pub minus-append :
    (seen : List GdpName) (x : GdpName) (ys : List GdpName)
    → minus (seen ++ x ∷ []) ys ≡ minus seen (without x ys)
unfolding contains
minus-append seen x [] = refl
minus-append seen x (y ∷ ys) = ground (
  arith,
  contains-append y seen (x ∷ []),
  minus-append seen x ys,
  name_beq_iff y x,
  name_beq_iff x y,
)

contains-without :
    (x y : GdpName) (xs : List GdpName)
    → name_beq y x ≡ false
    → contains x xs ≡ true
    → contains x (without y xs) ≡ true
unfolding contains
contains-without x y [] ne h = h
contains-without x y (z ∷ zs) ne h =
    ground (arith, contains-without x y zs ne, name_beq_iff z y, name_beq_iff z x, ne, h)

pub contains-distinct :
    (x : GdpName) (xs : List GdpName) → contains x xs ≡ true → contains x (distinct xs) ≡ true
unfolding contains
contains-distinct x [] h = h
contains-distinct x (y ∷ ys) h = elim (Bool-cases (name_beq y x)) [
  | inl same ↦ rw same refl
  | inr other ↦
      rw other (contains-without x y (distinct ys) other (contains-distinct x ys (rw other at h)))
]
