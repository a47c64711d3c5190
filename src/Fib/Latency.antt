-- ===== src/Fib/Latency.antt =====
-- The latency table of `service_connection_fib_handler` along a history.
use rt_fogros.Prelude.{
  ℕ, Text, ◌≡◌, refl, ◌∙◌, Bool, true, false, Bool-cases, inl, inr, ◌&&◌, ◌||◌, Option, none, some,
  List, [], ◌∷◌, ◌++◌, contains, option_eq, Outcome, done, panic, ◌>>=◌, Ensures, Ensures-bind,
  Ensures-unwrap, trivially, arith,
}
use rt_fogros.Prelude.Assoc.{get, get-insert}
use rt_fogros.Packet.Name.{GdpName, name_eq, name_beq}
use rt_fogros.Packet.Action.{GdpAction, forward, request, response}
use rt_fogros.Packet.Types.{GdpPacket}
use rt_fogros.Fib.Types.{FibStateChange, FibChangeAction, add}
use rt_fogros.Fib.Binding.{ConfigFile}
use rt_fogros.Fib.Table.{Table, Round, receivers_of}
use rt_fogros.Fib.Forward.{on_forward}
use rt_fogros.Fib.Request.{send_requests, send_on_interface, on_request}
use rt_fogros.Fib.Response.{duration_since, on_response}
use rt_fogros.Fib.Update.{add_receiver, on_add, on_update}
use rt_fogros.Fib.Step.{Event, packet, change, on_packet, step, run, new_table}

abbrev is_request : GdpAction → Bool
is_request request = true
is_request _ = false

-- Some packet of the history is a request for the name.
abbrev pub requested : GdpName → List Event → Bool
requested name [] = false
requested name (packet now i pkt ∷ es) =
    (is_request pkt.action && name_beq pkt.gdpname name) || requested name es
requested name (change update ∷ es) = requested name es

-- The table has no entry for the name.
abbrev Unknown : GdpName → Table → Type 0
Unknown name t = get name t.request_latency_table ≡ none

module _ (name : GdpName) where
  on_forward-Unknown :
      (t : Table) (pkt : GdpPacket) → Unknown name t → Unknown name (on_forward t pkt).table
  unfolding on_forward
  on_forward-Unknown t pkt u = elim (Bool-cases (contains pkt.guid t.processed_requests)) [
    | inl seen ↦ rw seen u
    | inr new ↦ rw new u
  ]

  send_on_interface-Unknown :
      (i : Option Text) (t : Table) (pkt : GdpPacket)
      → Unknown name t
      → Ensures (λ r. Unknown name r.table) (send_on_interface i t pkt)
  unfolding send_on_interface
  send_on_interface-Unknown none t pkt u = u
  send_on_interface-Unknown (some i) t pkt u =
      let sends = send_requests i pkt (receivers_of (get pkt.gdpname t.rib_state_table)) in
      Ensures-bind (λ _. Unit {0}) (λ r. Unknown name r.table) sends _ (trivially sends) (λ ds _. u)

  on_request-Unknown :
      (now : ℕ) (i : Option Text) (t : Table) (pkt : GdpPacket)
      → name_beq pkt.gdpname name ≡ false
      → Unknown name t
      → Ensures (λ r. Unknown name r.table) (on_request now i t pkt)
  unfolding on_request
  on_request-Unknown now i t pkt ne u = elim (Bool-cases (contains pkt.guid t.processed_requests)) [
    | inl seen ↦ rw seen (Ensures-unwrap (λ r. Unknown name r.table) pkt.guid _ (λ g e. u))
    | inr new ↦ rw new (
        send_on_interface-Unknown i _ pkt
          (get-insert pkt.gdpname name now t.request_latency_table ∙ ground (arith, ne, u)))
  ]

  on_response-Unknown :
      (now : ℕ) (t : Table) (pkt : GdpPacket)
      → Unknown name t
      → Ensures (λ r. Unknown name r.table) (on_response now t pkt)
  unfolding on_response
  on_response-Unknown now t pkt u =
      let Q = λ (r : Round). Unknown name r.table in
      Ensures-unwrap Q (get pkt.gdpname t.request_latency_table) _ λ start e.
        Ensures-bind (λ _. Unit {0}) Q (duration_since now start) _
          (trivially (duration_since now start))
          λ duration _. Ensures-unwrap Q pkt.guid _ λ g _.
            elim (Bool-cases (contains pkt.guid t.processed_requests)) [
              | inl seen ↦ rw seen u
              | inr new ↦ rw new u
            ]

  on_packet-Unknown :
      (now : ℕ) (i : Option Text) (t : Table) (pkt : GdpPacket) (a : GdpAction)
      → (is_request a && name_beq pkt.gdpname name) ≡ false
      → Unknown name t
      → Ensures (λ r. Unknown name r.table) (on_packet now i t pkt a)
  on_packet-Unknown now i t pkt forward ne u = on_forward-Unknown t pkt u
  on_packet-Unknown now i t pkt request ne u = on_request-Unknown now i t pkt ne u
  on_packet-Unknown now i t pkt response ne u = on_response-Unknown now t pkt u
  on_packet-Unknown now i t pkt _ ne u = u

  on_add-Unknown :
      (t : Table) (update : FibStateChange) (a : FibChangeAction)
      → Unknown name t
      → Ensures (Unknown name) (on_add t update a)
  unfolding add_receiver
  on_add-Unknown t update add u = ground arith
  on_add-Unknown t update _ u = u

  -- One round keeps the name unknown.
  step-Unknown :
      (t : Table) (e : Event)
      → requested name (e ∷ []) ≡ false
      → Unknown name t
      → Ensures (λ r. Unknown name r.table) (step t e)
  unfolding step on_update
  step-Unknown t (packet now i pkt) ne u = on_packet-Unknown now i t pkt pkt.action (ground arith) u
  step-Unknown t (change update) ne u =
      Ensures-bind (Unknown name) (λ r. Unknown name r.table) (on_add t update update.action) _
        (on_add-Unknown t update update.action u) (λ t' u'. u')

requested_head :
    (name : GdpName) (e : Event) (es : List Event)
    → requested name (e ∷ es) ≡ false
    → (requested name (e ∷ []) ≡ false) × (requested name es ≡ false)
requested_head name (packet now i pkt) es h = (ground arith, ground arith)
requested_head name (change update) es h = (refl, h)

response-Unknown :
    (t : Table) (now : ℕ) (i : Option Text) (pkt : GdpPacket)
    → pkt.action ≡ response
    → Unknown pkt.gdpname t
    → step t (packet now i pkt) ≡ panic
unfolding step on_response
response-Unknown t now i pkt a u = rw a (rw u)

bind_panic {ℓ κ} :
    {A : Type ℓ} {B : Type κ} (P : A → Type 0) (m : Outcome A) (f : A → Outcome B)
    → Ensures P m
    → ((a : A) → P a → f a ≡ panic)
    → (m >>= f) ≡ panic
bind_panic P (done a) f h k = k a h
bind_panic P panic f h k = refl

run_response :
    (t : Table) (es : List Event) (now : ℕ) (i : Option Text) (pkt : GdpPacket)
    → pkt.action ≡ response
    → requested pkt.gdpname es ≡ false
    → Unknown pkt.gdpname t
    → run t (es ++ packet now i pkt ∷ []) ≡ panic
unfolding run
run_response t [] now i pkt a ne u = rw (response-Unknown t now i pkt a u)
run_response t (e ∷ es) now i pkt a ne u =
    let (first, later) = requested_head pkt.gdpname e es ne in
    bind_panic (λ r. Unknown pkt.gdpname r.table) (step t e) _
      (step-Unknown pkt.gdpname t e first u)
      (λ round u'. rw (run_response round.table es now i pkt a later u'))

-- A response for a name that no request asked for since the start panics the handler, whatever else
-- went through it.
pub response_without_request :
    (file : ConfigFile) (es : List Event) (now : ℕ) (i : Option Text) (pkt : GdpPacket)
    → pkt.action ≡ response
    → requested pkt.gdpname es ≡ false
    → run (new_table file) (es ++ packet now i pkt ∷ []) ≡ panic
unfolding new_table get
response_without_request file es now i pkt a ne =
    run_response (new_table file) es now i pkt a ne refl
