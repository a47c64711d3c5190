-- ===== src/Fib/Safety.antt =====
-- The connections that packets go to in `service_connection_fib_handler`.
use rt_fogros.Prelude.{
  Text, ◌≡◌, refl, sym, ◌∙◌, Option, List, [], ◌∷◌, ◌++◌, All, All-append, done, >>=-eq-done,
  Ensures-done,
}
use mathlib.Core.Path.{subst}
use mathlib.Core.List.Memᴰ
use mathlib.Core.List.{Memᴰ}
use rt_fogros.Prelude.Assoc.{Assoc, get}
use rt_fogros.Packet.Name.{GdpName, name_eq}
use rt_fogros.Fib.Types.{FibState, FibConnection}
use rt_fogros.Fib.Binding.{ConfigFile, read_binding_table}
use rt_fogros.Fib.Table.{Table, Delivery, receivers_of}
use rt_fogros.Fib.Step.{Event, step, run, new_table}
use rt_fogros.Fib.Registrations.{subscribers}
use rt_fogros.Fib.Growth.{Grows, run-Grows}
use rt_fogros.Fib.Connections.{IsSound}
use rt_fogros.Fib.Rounds.{IsSafe, IsSafeRound, step-IsSafe}

module _ (binding : Option (Assoc Text Text)) where
  -- A table that has more connections for each name keeps a delivery safe.
  lift :
      (m n : Assoc GdpName FibState)
      → ((name : GdpName)
          → (cs : List FibConnection) × (receivers_of (get name n)
              ≡ receivers_of (get name m) ++ cs))
      → (ds : List Delivery) → All (IsSafe binding m) ds
      → All (IsSafe binding n) ds
  lift m n grows [] a = tt
  lift m n grows (d ∷ ds) a =
      let (c, kind, w, o, tx, (here, admitted)) = a.0 in
      let (cs, e) = grows d.packet.gdpname in
      (
        (c, kind, w, o, tx, (subst (Memᴰ c) (sym e) (Memᴰ.append_left cs here), admitted)),
        lift m n grows ds a.1,
      )

  run-IsSafe :
      (es : List Event) (t t' : Table) (ds : List Delivery)
      → IsSound binding t
      → run t es ≡ done (t', ds)
      → IsSound binding t' × All (IsSafe binding t'.rib_state_table) ds
  unfolding run
  run-IsSafe [] t t' ds s e =
      subst (λ r. IsSound binding r.0 × All (IsSafe binding r.0.rib_state_table) r.1) (same e)
        (s, tt)
    where
      same : {r q : Table × List Delivery} → done r ≡ done q → r ≡ q
      same e = cc
  run-IsSafe (e ∷ es) t t' ds s ran =
      let (round, stepped, later) = >>=-eq-done (step t e) _ ran in
      let (rest, rested, built) = >>=-eq-done (run round.table es) _ later in
      let q =
        Ensures-done (IsSafeRound binding t) (step t e) round stepped (step-IsSafe binding t e s) in
      let r = run-IsSafe es round.table rest.0 rest.1 q.0 rested in
      subst (λ r. IsSound binding r.0 × All (IsSafe binding r.0.rib_state_table) r.1) (same built)
        (
          r.0,
          All-append (IsSafe binding rest.0.rib_state_table) round.deliveries rest.1
              (lift t.rib_state_table rest.0.rib_state_table
                (grows rest.0 (round.deliveries ++ rest.1) (ran ∙ sym built)) round.deliveries q.1)
              r.1,
        )
    where
      same : {r q : Table × List Delivery} → done r ≡ done q → r ≡ q
      same e = cc

      grows :
          (u : Table) (out : List Delivery)
          → run t (e ∷ es) ≡ done (u, out)
          → (name : GdpName)
          → (cs : List FibConnection) × (receivers_of (get name u.rib_state_table)
              ≡ receivers_of (get name t.rib_state_table) ++ cs)
      grows u out ran name = (
        subscribers t.binding_table name (e ∷ es),
        (Ensures-done (λ r. Grows name t (subscribers t.binding_table name (e ∷ es)) r.0)
            (run t (e ∷ es)) (u, out) ran (run-Grows name t (e ∷ es))).1,
      )

-- After any history of packets and table changes that does not panic, every connection in the
-- forwarding table runs, receives, and is admitted by the binding table that was read at the start (or
-- there is none, or it is of ROS); and every packet that was delivered is a Forward, a Request or a
-- Response, and was put into the channel of a connection that the table has for the packet's name, that
-- is admitted so, and that receives packets of its action.
pub run-new_table :
    (file : ConfigFile) (es : List Event) (t : Table) (ds : List Delivery)
    → run (new_table file) es ≡ done (t, ds)
    → IsSound (read_binding_table file) t
      × All (IsSafe (read_binding_table file) t.rib_state_table) ds
unfolding new_table
run-new_table file es t ds e =
    run-IsSafe (read_binding_table file) es (new_table file) t ds
      (record { same_binding = refl; admitted = tt }) e
