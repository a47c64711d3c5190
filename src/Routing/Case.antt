-- ===== src/Routing/Case.antt =====
-- `to_uppercase` and `to_lowercase` as fogrs-core/src/routing_manager.rs compares by them.
use rt_fogros.Prelude.{
  ℕ, ◌≡◌, refl, sym, ap, ◌∙◌, Text, ◌++◌, ◌==◌, ltb, true, false, append_assoc, [], ◌∷◌, arith, All,
}
use rt_fogros.Routing.Direction.{up, upper, lower, to_uppercase, to_lowercase}

abbrev pub IsAscii : Text → Type 0
IsAscii = All (λ c. ltb c 128 ≡ true)

pub to_uppercase-append : (s t : Text) → to_uppercase (s ++ t) ≡ to_uppercase s ++ to_uppercase t
to_uppercase-append [] t = refl
to_uppercase-append (c ∷ cs) t =
    ap (λ x. upper c ++ x) (to_uppercase-append cs t)
    ∙ sym (append_assoc (upper c) (to_uppercase cs) (to_uppercase t))

lower-up : (c : ℕ) → ltb c 128 ≡ true → lower (up c) ≡ lower c
lower-up c h = ground (arith, h)

pub to_lowercase-to_uppercase :
    (s : Text) → IsAscii s → to_lowercase (to_uppercase s) ≡ to_lowercase s
to_lowercase-to_uppercase [] h = refl
to_lowercase-to_uppercase (c ∷ cs) h =
    rw (h.0, lower-up c h.0, to_lowercase-to_uppercase cs h.1) refl

-- What is `k` in lower case may be the Kelvin sign, which is its own upper case.
abbrev pub HasNoK : Text → Type 0
HasNoK = All (λ c. (c == b'k') ≡ false)

upper-lower : (c : ℕ) → (lower c == b'k') ≡ false → upper (lower c) ≡ upper c
upper-lower c h = ground (arith, h)

pub to_uppercase-to_lowercase :
    (s : Text) → HasNoK (to_lowercase s) → to_uppercase (to_lowercase s) ≡ to_uppercase s
to_uppercase-to_lowercase [] h = refl
to_uppercase-to_lowercase (c ∷ cs) h =
    ap (λ x. x ++ to_uppercase (to_lowercase cs)) (upper-lower c h.0)
    ∙ ap (λ x. upper c ++ x) (to_uppercase-to_lowercase cs h.1)
