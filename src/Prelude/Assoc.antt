-- ===== src/Prelude/Assoc.antt =====
-- Rust's `HashMap` as an association list that `insert` keeps free of repeated keys, and the
-- `MultiMap` crate's type as such a map to vectors. The program never depends on the order of a map.
use rt_fogros.Prelude.Keys.{Eq}
use rt_fogros.Prelude.Tests.{if◌then◌else◌}
use mathlib.Core.Path.{◌≡◌, refl}
use mathlib.Core.Option.{Option, none, some}
use mathlib.Core.List.{List, [], ◌∷◌, ◌++◌}
use native.Mathlib.Omega.{arith}

abbrev pub Assoc {ℓ κ} : Type ℓ → Type κ → Type (ℓ ⊔ κ)
Assoc K V = List (K × V)

module _ {ℓ κ} {K : Type ℓ} {V : Type κ} ⦃e : Eq K⦄ where
  unfoldable pub get : K → Assoc K V → Option V
  get k [] = none
  get k ((j, v) ∷ m) = if e.beq j k then some v else get k m

  unfoldable pub insert : K → V → Assoc K V → Assoc K V
  insert k v [] = (k, v) ∷ []
  insert k v ((j, w) ∷ m) = if e.beq j k then (k, v) ∷ m else (j, w) ∷ insert k v m

  unfoldable pub remove : K → Assoc K V → Assoc K V
  remove k [] = []
  remove k ((j, w) ∷ m) = let rest = remove k m in if e.beq j k then rest else (j, w) ∷ rest

  pub get-insert :
      (k j : K) (v : V) (m : Assoc K V)
      → get j (insert k v m) ≡ (if e.beq k j then some v else get j m)
  unfolding get insert
  get-insert k j v [] = refl
  get-insert k j v ((i, w) ∷ m) =
      ground (arith, e.beq_iff k j, e.beq_iff i k, e.beq_iff i j, get-insert k j v m)

  pub get-remove :
      (k j : K) (m : Assoc K V) → get j (remove k m) ≡ (if e.beq k j then none else get j m)
  unfolding get remove
  get-remove k j [] = ground arith
  get-remove k j ((i, w) ∷ m) =
      ground (arith, e.beq_iff k j, e.beq_iff i k, e.beq_iff i j, get-remove k j m)

abbrev pub or_empty {κ} : {V : Type κ} → Option (List V) → List V
or_empty none = []
or_empty (some vs) = vs

module _ {ℓ κ} {K : Type ℓ} {V : Type κ} ⦃e : Eq K⦄ where
  -- `MultiMap::insert` appends to the key's vector.
  unfoldable pub push : K → V → Assoc K (List V) → Assoc K (List V)
  push k v m = insert k (or_empty (get k m) ++ v ∷ []) m

  pub get-push :
      (k j : K) (v : V) (m : Assoc K (List V))
      → get j (push k v m) ≡ (if e.beq k j then some (or_empty (get k m) ++ v ∷ []) else get j m)
  unfolding push
  get-push k j v m = get-insert k j _ m
