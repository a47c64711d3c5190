-- ===== src/Prelude/Tasks.antt =====
-- A task that the program spawns: what it has put out, and whether it is still there. A panic ends a
-- task, but does not take back what it has already sent.
use rt_fogros.Prelude.Tests.{if◌then◌else◌, Bool-cases}
use rt_fogros.Prelude.Lists.{All, All-append}
use mathlib.Core.Logic.{inl, inr}
use mathlib.Core.Bool.{Bool, true, false}
use mathlib.Core.List.{List, [], ◌∷◌, ◌++◌}

pub record Task {ℓ} (A : Type ℓ) : Type ℓ where
  pub outputs : List A
  pub alive : Bool

module _ {ℓ} {A : Type ℓ} where
  abbrev pub goes_on : List A → Task A
  goes_on outputs = record { outputs = outputs; alive = true }

  abbrev pub panics : List A → Task A
  panics outputs = record { outputs = outputs; alive = false }

module _ {ℓ κ} {E : Type ℓ} {A : Type κ} where
  -- A task that does the same with everything that it receives.
  unfoldable pub work : (E → Task A) → List E → Task A
  work f [] = goes_on []
  work f (e ∷ es) =
      let rest = work f es in
      if (f e).alive
      then record { outputs = (f e).outputs ++ rest.outputs; alive = rest.alive }
      else f e

module _ {ℓ} {A : Type ℓ} where
  -- What a task does next, if it is still there.
  infixr 20 ◌then◌
  abbrev pub ◌then◌ : Task A → Task A → Task A
  t then u = if t.alive then record { outputs = t.outputs ++ u.outputs; alive = u.alive } else t

  -- A test that panics the task.
  abbrev pub require : Bool → Task A
  require b = record { outputs = []; alive = b }

module _ {ℓ κ} {A : Type ℓ} (P : A → Type κ) where
  pub then-All : (t u : Task A) → All P t.outputs → All P u.outputs → All P (t then u).outputs
  then-All t u h k = elim (Bool-cases t.alive) [
    | inl on ↦ rw on (All-append P t.outputs u.outputs h k)
    | inr off ↦ rw off h
  ]
