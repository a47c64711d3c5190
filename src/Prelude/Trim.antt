-- ===== src/Prelude/Trim.antt =====
-- `trim_matches(char::from(0))` of Rust, as fogrs-common/src/packet_structs.rs and
-- fogrs-signaling/src/lib.rs call it.
use rt_fogros.Prelude.{
  ℕ, zero, suc, ◌≡◌, refl, ap, ◌∙◌, Text, false, Bool-cases, inl, inr, [], ◌∷◌, ◌++◌, ◌==◌,
  if◌then◌else◌, All,
}

-- `trim_matches(char::from(0))`
abbrev pub trim_start : Text → Text
trim_start [] = []
trim_start (c ∷ cs) = let rest = trim_start cs in if c == 0 then rest else c ∷ cs

abbrev pub put_before : ℕ → Text → Text
put_before c [] = if c == 0 then [] else c ∷ []
put_before c (d ∷ ds) = c ∷ d ∷ ds

abbrev pub trim_end : Text → Text
trim_end [] = []
trim_end (c ∷ cs) = put_before c (trim_end cs)

abbrev pub trim_nul : Text → Text
trim_nul s = trim_end (trim_start s)

abbrev pub nuls : ℕ → Text
nuls zero = []
nuls (suc n) = 0 ∷ nuls n

trim_end-nuls : (n : ℕ) → trim_end (nuls n) ≡ []
trim_end-nuls zero = refl
trim_end-nuls (suc n) = rw (trim_end-nuls n) refl

trim_end-padded : (s : Text) (n : ℕ) → trim_end (s ++ nuls n) ≡ trim_end s
trim_end-padded [] n = trim_end-nuls n
trim_end-padded (c ∷ cs) n = ap (put_before c) (trim_end-padded cs n)

pub trim_start-nuls : (m : ℕ) (s : Text) → trim_start (nuls m ++ s) ≡ trim_start s
trim_start-nuls zero s = refl
trim_start-nuls (suc m) s = trim_start-nuls m s

pub trim_nul-padded : (s : Text) (n : ℕ) → trim_nul (s ++ nuls n) ≡ trim_nul s
trim_nul-padded [] zero = refl
trim_nul-padded [] (suc n) = trim_nul-padded [] n
trim_nul-padded (c ∷ cs) n = elim (Bool-cases (c == 0)) [
  | inl nul ↦ rw (nul, trim_nul-padded cs n) refl
  | inr other ↦ rw (other, trim_end-padded cs n) refl
]

trim_end-clean : (s : Text) → All (λ c. (c == 0) ≡ false) s → trim_end s ≡ s
trim_end-clean [] h = refl
trim_end-clean (c ∷ []) h = rw (h.0) refl
trim_end-clean (c ∷ d ∷ ds) h = rw (trim_end-clean (d ∷ ds) h.1) refl

trim_start-clean : (s : Text) → All (λ c. (c == 0) ≡ false) s → trim_start s ≡ s
trim_start-clean [] h = refl
trim_start-clean (c ∷ cs) h = rw (h.0) refl

-- What has no NUL comes out of a buffer that is filled up with them.
pub trim_nul-clean : (s : Text) (n : ℕ) → All (λ c. (c == 0) ≡ false) s → trim_nul (s ++ nuls n) ≡ s
trim_nul-clean s n h =
    trim_nul-padded s n ∙ (ap trim_end (trim_start-clean s h) ∙ trim_end-clean s h)
