-- ===== src/Fib/Histories.antt =====
-- One history after another, for the loop of `service_connection_fib_handler`.
use rt_fogros.Prelude.{
  Text, ◌≡◌, refl, sym, ap, ◌∙◌, Option, List, [], ◌∷◌, ◌++◌, append_assoc, Outcome, done, ◌>>=◌,
  >>=-eq-done,
}
use rt_fogros.Prelude.Assoc.{Assoc}
use rt_fogros.Packet.Name.{GdpName}
use rt_fogros.Fib.Table.{Table, Delivery}
use rt_fogros.Fib.Step.{Event, step, run}
use rt_fogros.Fib.Registrations.{registered, subscribers}

abbrev Ran : Type 0
Ran = Table × List Delivery

fields :
    {a b : Table} {xs ys : List Delivery}
    → ◌≡◌ {A = Outcome Ran} (done (a, xs)) (done (b, ys))
    → (a ≡ b) × (xs ≡ ys)
fields e = (cc, cc)

-- What a history does, and then another one to the table that it leaves.
pub run-append :
    (es fs : List Event) (t u v : Table) (xs ys : List Delivery)
    → run t es ≡ done (u, xs)
    → run u fs ≡ done (v, ys)
    → run t (es ++ fs) ≡ done (v, xs ++ ys)
unfolding run
run-append [] fs t u v xs ys h k =
    let (same, nothing) = fields h in
    ap (λ w. run w fs) same ∙ k ∙ ap (λ l. done (v, l ++ ys)) nothing
run-append (e ∷ es) fs t u v xs ys h k =
    let (round, stepped, later) =
      >>=-eq-done (step t e) (λ r. run r.table es >>= λ rest. done (rest.0, r.deliveries ++ rest.1))
        h in
    let (rest, ran, equal) =
      >>=-eq-done (run round.table es) (λ rest. done (rest.0, round.deliveries ++ rest.1)) later in
    let (same, all) = fields equal in
    ap (λ o. o >>= λ r. run r.table (es ++ fs) >>= λ q. done (q.0, r.deliveries ++ q.1)) stepped
    ∙ ap (λ o. o >>= λ q. done (q.0, round.deliveries ++ q.1))
        (run-append es fs round.table rest.0 v rest.1 ys ran (ap (λ w. run w fs) same ∙ k))
    ∙ ap (λ l. done (v, l)) (sym (append_assoc round.deliveries rest.1 ys) ∙ ap (λ l. l ++ ys) all)

pub subscribers-append :
    (binding : Option (Assoc Text Text)) (name : GdpName) (es fs : List Event)
    → subscribers binding name (es ++ fs)
      ≡ subscribers binding name es ++ subscribers binding name fs
subscribers-append binding name [] fs = refl
subscribers-append binding name (e ∷ es) fs =
    ap (λ l. registered binding name e ++ l) (subscribers-append binding name es fs)
    ∙ sym (append_assoc (registered binding name e) (subscribers binding name es) _)
