-- ===== src/Network/Steps.antt =====
-- What the forwarding table of fogrs-core/src/service_request_manager.rs does, after a history, with a request for a service and with the response to it.
use rt_fogros.Prelude.{
  ℕ, ◌≤◌, ◌≡◌, refl, ◌∙◌, Text, false, Option, some, List, [], ◌∷◌, contains, option_eq, beq_refl,
  done,
}
use rt_fogros.Prelude.Assoc.{get-insert}
use rt_fogros.Packet.Name.{GdpName, name_eq}
use rt_fogros.Packet.Action.{request, response}
use rt_fogros.Packet.Construct.{construct_gdp_packet_with_guid}
use rt_fogros.Fib.Types.{Channel, response_receiver}
use rt_fogros.Fib.Binding.{ConfigFile, read_binding_table}
use rt_fogros.Fib.Table.{Table, Delivery, Round}
use rt_fogros.Fib.Step.{Event, packet, new_table, step, run}
use rt_fogros.Fib.Registrations.{subscribers}
use rt_fogros.Fib.Subscribers.{run-subscribers}
use rt_fogros.Fib.Requests.{timed, request_to_receivers}
use rt_fogros.Fib.Responses.{response_sent}
use rt_fogros.Ros.Channels.{inbox}
use rt_fogros.Network.Outgoing.{times, request_times, inbox-copies_once, inbox-request_copies_once}
use rt_fogros.Network.Hop.{packet_with}

-- The forwarding table of one machine, after a history.
module _ (file : ConfigFile) (es : List Event) (t : Table) (ds : List Delivery) (name : GdpName)
    (node : GdpName) (guid : GdpName) (ran : run (new_table file) es ≡ done (t, ds))
    (new : contains (some guid) t.processed_requests ≡ false) where
  -- A request is put into the channel of a request receiver.
  pub request_step :
      (now : ℕ) (i : Text) (c : Channel) (bytes : List ℕ) (d : Option Text)
      → request_times i c (subscribers (read_binding_table file) name es) ≡ 1
      → let q = packet_with request name node bytes guid d in
        (round : Round) × (step t (packet now (some i) q) ≡ done round)
        × (round.table ≡ timed now t q)
        × (inbox c round.deliveries ≡ q ∷ [])
  unfolding step construct_gdp_packet_with_guid
  request_step now i c bytes d once =
      let q = packet_with request name node bytes guid d in
      let rs = subscribers (read_binding_table file) name es in
      (
        _,
        request_to_receivers file es t ds now i guid q ran refl new,
        refl,
        inbox-request_copies_once c q i rs once,
      )

  -- The response to the request is put into the channel of a response receiver.
  pub response_step :
      (asked answered_at : ℕ) (later : Option Text) (c : Channel) (bytes resp : List ℕ)
      (source : GdpName) (d d' : Option Text)
      → asked ≤ answered_at
      → times response_receiver c (subscribers (read_binding_table file) name es) ≡ 1
      → let p = packet_with response name source resp guid d' in
        (round : Round) × (step
            (timed asked t (packet_with request name node bytes guid d))
            (packet answered_at later p)
          ≡ done round)
        × (inbox c round.deliveries ≡ p ∷ [])
  unfolding step construct_gdp_packet_with_guid
  response_step asked answered_at later c bytes resp source d d' clock once =
      let q = packet_with request name node bytes guid d in
      let p = packet_with response name source resp guid d' in
      let rs = subscribers (read_binding_table file) name es in
      (
        _,
        response_sent file es (timed asked t q) asked answered_at guid p
            (run-subscribers file name es t ds ran)
            (get-insert name name asked t.request_latency_table ∙ rw (beq_refl name) refl) clock
            refl new,
        inbox-copies_once c p response_receiver rs once,
      )
