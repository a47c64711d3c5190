-- ===== src/Start/Config.antt =====
-- fogrs-utils/src/app_config.rs and `cli_match` of main.rs. The crate `config` is a parameter: its
-- settings, whether a source or a value is taken, and what is there afterwards. The global settings are
-- state; their lock is poisoned once a panic has come under it.
use rt_fogros.Prelude.{
  ◌≡◌, refl, sym, ap, ◌∙◌, Text, text_beq, codes, Bool, true, false, Bool-cases, inl, inr, Option,
  none, some, [], ◌∷◌, not, ◌&&◌, ◌==◌, ltb, if◌then◌else◌, Outcome, done, panic,
}

record Crate : Type 1 where
  Config : Type 0
  Source : Type 0
  new : Config
  from_str : Text → Source
  with_prefix : Text → Source
  with_name : Text → Source
  merge : Source → Config → Bool × Config
  set : Text → Text → Config → Bool × Config
  get : Text → Config → Option Text

-- A key without a dot, which would be a path, and without capital letters.
abbrev is_plain : Text → Bool
is_plain [] = true
is_plain (c ∷ cs) = not (c == b'.') && (not (ltb 64 c && ltb c 91) && is_plain cs)

-- A value that is set is there, and of the plain keys no other is touched.
record CrateLaws (C : Crate) : Type 0 where
  get-set :
      (k v j : Text) (c c' : C.Config)
      → is_plain k ≡ true
      → is_plain j ≡ true
      → C.set k v c ≡ (true, c')
      → C.get j c' ≡ (if text_beq k j then some v else C.get j c)

data Result : Type 0 where
  ok config_error poison_error other_error : Result

abbrev result : Bool → Result
result taken = if taken then ok else config_error

-- An argument that is present with its value, if it has one.
abbrev Arg : Type 0
Arg = Option (Option Text)

data Commands : Type 0 where
  router error completion config : Commands

module _ (C : Crate) where
  record Global : Type 0 where
    config : C.Config
    poisoned : Bool

  abbrev Ends : Type 0
  Ends = Outcome (Result × Global)

  abbrev ends : Result → Global → Ends
  ends r g = done (r, g)

  -- The operator `?`.
  abbrev and_then : Ends → (Global → Ends) → Ends
  and_then panic next = panic
  and_then (done (ok, g)) next = next g
  and_then (done (config_error, g)) next = done (config_error, g)
  and_then (done (poison_error, g)) next = done (poison_error, g)
  and_then (done (other_error, g)) next = done (other_error, g)

  abbrev merge_default : Option Text → Bool × C.Config
  merge_default none = (true, C.new)
  merge_default (some contents) = C.merge (C.from_str contents) C.new

  abbrev saved : Bool × C.Config → Global → Result × Global
  saved (false, settings) g = (config_error, g)
  saved (true, settings) g =
      if g.poisoned then (poison_error, g) else (ok, record g { config = settings })

  abbrev merge_environment : Bool × C.Config → Bool × C.Config
  merge_environment (false, settings) = (false, settings)
  merge_environment (true, settings) = C.merge (C.with_prefix (codes "APP")) settings

  unfoldable init : Option Text → Global → Result × Global
  init default_config g = saved (merge_environment (merge_default default_config)) g

  -- Under the lock: what the crate has done to the settings stays, also where it fails.
  abbrev under_lock : Global → (C.Config → Bool × C.Config) → Ends
  under_lock g change =
      if g.poisoned
      then done (poison_error, g)
      else (let changed = change g.config in
          done (result changed.0, record g { config = changed.1 }))

  abbrev set : Text → Text → Global → Ends
  set key value g = under_lock g (C.set key value)

  abbrev set_arg : Text → Arg → Global → Ends
  set_arg key none g = done (ok, g)
  set_arg key (some none) g = panic
  set_arg key (some (some value)) g = set key value g

  unfoldable merge_args : Arg → Arg → Global → Ends
  merge_args debug log_level g =
      and_then (set_arg (codes "debug") debug g) (set_arg (codes "log_level") log_level)

  -- The lock is taken before the path is unwrapped, which is `some none` where it is no UTF-8.
  unfoldable merge_config : Option (Option Text) → Global → Ends
  merge_config none g = done (ok, g)
  merge_config (some none) g = if g.poisoned then done (poison_error, g) else panic
  merge_config (some (some path)) g = under_lock g (C.merge (C.with_name path))

  abbrev finish : Global → Outcome Result → Ends
  finish g (done r) = done (r, g)
  finish g panic = panic

  -- What a subcommand comes to is `execute`; the scripts of the shells are only printed.
  abbrev run_command : (Commands → Outcome Result) → Commands → Global → Ends
  run_command execute completion g = done (ok, g)
  run_command execute router g = finish g (execute router)
  run_command execute error g = finish g (execute error)
  run_command execute config g = finish g (execute config)

  unfoldable cli_match :
      (Commands → Outcome Result) → Option (Option Text) → Arg → Arg → Commands → Global → Ends
  cli_match execute file debug log_level command g =
      and_then (and_then (merge_config file g) (merge_args debug log_level))
        (run_command execute command)

  -- The initial settings do not depend on what was there, and where they are refused it stays.
  init_lem :
      (default_config : Option Text) (g h : Global)
      → g.poisoned ≡ h.poisoned
      → let r = init default_config g in
        let s = init default_config h in
        (r.0 ≡ s.0) × ((r.0 ≡ ok → r.1 ≡ s.1) × (¬ (r.0 ≡ ok) → r.1 ≡ g))
  unfolding init
  init_lem default_config g h e = on (merge_environment (merge_default default_config))
    where
      on :
          (m : Bool × C.Config)
          → ((saved m g).0 ≡ (saved m h).0)
            × (((saved m g).0 ≡ ok → (saved m g).1 ≡ (saved m h).1)
                × (¬ ((saved m g).0 ≡ ok) → (saved m g).1 ≡ g))
      on (false, settings) = (refl, ((λ r. cc), λ r. refl))
      on (true, settings) = elim (Bool-cases h.poisoned) [
        | inl bad ↦ rw (e, bad) (refl, ((λ r. cc), λ r. refl))
        | inr good ↦ rw (e, good) (refl, ((λ r. refl), λ r. absurd (r refl)))
      ]

  -- What went well did so at every step.
  and_then-ok :
      (m : Ends) (next : Global → Ends) (g : Global)
      → and_then m next ≡ done (ok, g)
      → (h : Global) × ((m ≡ done (ok, h)) × (next h ≡ done (ok, g)))
  and_then-ok panic next g e = cc
  and_then-ok (done (ok, h)) next g e = (h, (refl, e))
  and_then-ok (done (config_error, h)) next g e = cc
  and_then-ok (done (poison_error, h)) next g e = cc
  and_then-ok (done (other_error, h)) next g e = cc

  finish-ok : (o : Outcome Result) (g h : Global) → finish g o ≡ done (ok, h) → g ≡ h
  finish-ok (done r) g h e = cc
  finish-ok panic g h e = cc

  run_command-ok :
      (execute : Commands → Outcome Result) (command : Commands) (g h : Global)
      → run_command execute command g ≡ done (ok, h)
      → g ≡ h
  run_command-ok execute completion g h e = cc
  run_command-ok execute router g h e = finish-ok (execute router) g h e
  run_command-ok execute error g h e = finish-ok (execute error) g h e
  run_command-ok execute config g h e = finish-ok (execute config) g h e

  module _ (laws : CrateLaws C) where
    set-get :
        (k v j : Text) (g h : Global)
        → is_plain k ≡ true
        → is_plain j ≡ true
        → set k v g ≡ done (ok, h)
        → C.get j h.config ≡ (if text_beq k j then some v else C.get j g.config)
    set-get k v j g h pk pj e = elim (Bool-cases g.poisoned) [
      | inl bad ↦ absurd (refused _ (rw bad at e))
      | inr good ↦ taken (C.set k v g.config) refl (rw good at e)
    ]
      where
        refused : (g' : Global) → ¬ (ends poison_error g' ≡ done (ok, h))
        refused g' e = cc

        taken :
            (p : Bool × C.Config)
            → C.set k v g.config ≡ p
            → ends (result p.0) (record { config = p.1; poisoned = false }) ≡ done (ok, h)
            → C.get j h.config ≡ (if text_beq k j then some v else C.get j g.config)
        taken (true, c) p e =
            ap (λ x. C.get j x) (sym (same e)) ∙ laws.get-set k v j g.config c pk pj p
          where
            same : ends ok (record { config = c; poisoned = false }) ≡ done (ok, h) → c ≡ h.config
            same e = cc
        taken (false, c) p e = cc

    -- Where all goes well, the settings that are there in the end have the values of the arguments,
    -- whatever the configuration file says.
    cli_match-args :
        (execute : Commands → Outcome Result) (file : Option (Option Text)) (debug log_level : Text)
        (command : Commands) (g h : Global)
        → cli_match execute file (some (some debug)) (some (some log_level)) command g
          ≡ done (ok, h)
        → (C.get (codes "debug") h.config ≡ some debug)
          × (C.get (codes "log_level") h.config ≡ some log_level)
    unfolding cli_match merge_args text_beq
    cli_match-args execute file debug log_level command g h e =
        let (after, (merged, ran)) = and_then-ok _ (run_command execute command) h e in
        let (read, (_, args)) = and_then-ok (merge_config file g) _ after merged in
        let (first, (one, two)) = and_then-ok (set (codes "debug") debug read) _ after args in
        let last = run_command-ok execute command after h ran in
        (
          ap (λ x. C.get (codes "debug") x.config) (sym last)
              ∙ (set-get (codes "log_level") log_level (codes "debug") first after refl refl two
                  ∙ set-get (codes "debug") debug (codes "debug") read first refl refl one),
          ap (λ x. C.get (codes "log_level") x.config) (sym last)
              ∙ set-get (codes "log_level") log_level (codes "log_level") first after refl refl two,
        )
