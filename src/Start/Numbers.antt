-- ===== src/Start/Numbers.antt =====
-- `parse::<u16>()`, `parse::<u8>()` and `split` as fogrs-core/src/db.rs, fogrs-core/src/api_server.rs
-- and fogrs-utils/src/conversion.rs call them.
use rt_fogros.Prelude.{
  ℕ, ◌+◌, ◌-◌, ◌*◌, ◌<◌, ◌≡◌, refl, arith, ltb, ◌==◌, ◌&&◌, Text, false, Bool-cases, inl, inr,
  Option, none, some, List, [], ◌∷◌, ◌++◌, All, if◌then◌else◌,
}

-- Decimal digits, below the limit at every digit, a plus sign in front allowed.
abbrev with_digit : ℕ → ℕ → ℕ → Option ℕ
with_digit limit acc c =
    let value = acc * 10 + (c - 48) in
    if ltb 47 c && (ltb c 58 && ltb value limit) then some value else none

abbrev then_digits : Option ℕ → (ℕ → Option ℕ) → Option ℕ
then_digits none rest = none
then_digits (some acc) rest = rest acc

abbrev read_digits : ℕ → ℕ → Text → Option ℕ
read_digits limit acc [] = some acc
read_digits limit acc (c ∷ cs) =
    then_digits (with_digit limit acc c) (λ value. read_digits limit value cs)

abbrev read_number : ℕ → Text → Option ℕ
read_number limit [] = none
read_number limit (c ∷ cs) = read_digits limit 0 (c ∷ cs)

unfoldable pub parse_unsigned : ℕ → Text → Option ℕ
parse_unsigned limit [] = none
parse_unsigned limit (c ∷ cs) =
    if c == 43 then read_number limit cs else read_digits limit 0 (c ∷ cs)

abbrev first_more : ℕ → List Text → List Text
first_more c [] = (c ∷ []) ∷ []
first_more c (piece ∷ pieces) = (c ∷ piece) ∷ pieces

-- The pieces of `split(separator)`: there is always one.
unfoldable pub split_on : ℕ → Text → List Text
split_on sep [] = [] ∷ []
split_on sep (c ∷ cs) =
    let pieces = split_on sep cs in if c == sep then [] ∷ pieces else first_more c pieces

-- The separator is not among the bytes.
abbrev pub Lacks : ℕ → Text → Type 0
Lacks sep = All (λ c. (c == sep) ≡ false)

-- What a text is that reads as a number: neither a colon nor a dot is in it.
abbrev IsNumber : ℕ → Text → ℕ → Type 0
IsNumber limit s n = Lacks b':' s × Lacks b'.' s × (n < limit)

read_digits-IsNumber :
    (limit acc : ℕ) (s : Text) (n : ℕ)
    → acc < limit
    → read_digits limit acc s ≡ some n
    → IsNumber limit s n
read_digits-IsNumber limit acc [] n lt e = (tt, tt, ground (arith, lt, e))
read_digits-IsNumber limit acc (c ∷ cs) n lt e =
    over (with_digit limit acc c) refl
      (λ value small later. read_digits-IsNumber limit value cs n small later) e
  where
    over :
        (o : Option ℕ)
        → with_digit limit acc c ≡ o
        → ((value : ℕ) → value < limit → read_digits limit value cs ≡ some n → IsNumber limit cs n)
        → then_digits o (λ value. read_digits limit value cs) ≡ some n
        → IsNumber limit (c ∷ cs) n
    over none d next e = cc
    over (some value) d next e =
        let (colon, dot, small) = next value (ground (arith, d)) e in
        ((ground (arith, d), colon), (ground (arith, d), dot), small)

pub parse_unsigned-IsNumber :
    (limit : ℕ) (s : Text) (n : ℕ)
    → 0 < limit
    → parse_unsigned limit s ≡ some n
    → IsNumber limit s n
unfolding parse_unsigned
parse_unsigned-IsNumber limit [] n lt e = cc
parse_unsigned-IsNumber limit (c ∷ cs) n lt e = elim (Bool-cases (c == 43)) [
  | inr digits ↦ read_digits-IsNumber limit 0 (c ∷ cs) n lt (rw digits at e)
  | inl plus ↦
      let (colon, dot, small) = signed cs (rw plus at e) in
      ((ground (arith, plus), colon), (ground (arith, plus), dot), small)
]
  where
    signed : (s : Text) → read_number limit s ≡ some n → IsNumber limit s n
    signed [] e = cc
    signed (d ∷ ds) e = read_digits-IsNumber limit 0 (d ∷ ds) n lt e

pub split_on-one : (sep : ℕ) (s : Text) → Lacks sep s → split_on sep s ≡ s ∷ []
unfolding split_on
split_on-one sep [] h = refl
split_on-one sep (c ∷ cs) h = rw (h.0, split_on-one sep cs h.1) refl

pub split_on-more :
    (sep : ℕ) (s t : Text) → Lacks sep s → split_on sep (s ++ sep ∷ t) ≡ s ∷ split_on sep t
unfolding split_on
split_on-more sep [] t h = ground arith
split_on-more sep (c ∷ cs) t h = rw (h.0, split_on-more sep cs t h.1) refl
