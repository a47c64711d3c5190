-- ===== src/Tests/Exchange.antt =====
-- The signaling server's theorems on concrete histories.
use rt_fogros.Prelude.{
  ℕ, ◌≡◌, refl, Text, codes, text_beq, text_eq, false, List, [], ◌∷◌, inl, inr, done, arith,
}
use rt_fogros.Prelude.Assoc.{get, insert}
use rt_fogros.Packet.Name.{zero_name}
use rt_fogros.Signaling.Server.{
  CandidateStruct, publish, retain, clean, Server, streams, handle_client, Event, client, cleanup,
  leave, step, run,
}
use rt_fogros.Signaling.Fresh.{HasEntry, publish_message, subscribe_message, fresh_streamed}
use rt_fogros.Signaling.Stale.{HasStale, run-HasStale}

abbrev candidate : CandidateStruct
candidate = record { thread_gdp_name = zero_name; candidates = codes "10.0.0.1:80" ∷ [] }

abbrev topic : Text
topic = codes "chatter"

abbrev events : List Event
events =
    cleanup 50 topic
    ∷ client 55 (subscribe_message topic)
    ∷ cleanup 200 (codes "other")
    ∷ leave topic
    ∷ []

fresh_streamed_example :
    (log : List (CandidateStruct × ℕ)) × (later : Server) × (handle_client 60
        (run [] (client 0 (publish_message topic candidate) ∷ events))
        (subscribe_message topic)
      ≡ done (later, streams log))
    × HasEntry (candidate, 0) log
unfolding text_beq
fresh_streamed_example =
    fresh_streamed [] topic candidate 0 60 events (inl (omega arith), (inr refl, tt))

-- The server after a topic was left empty and then published to.
abbrev server : Server
server =
    (topic, record { name = topic; log = (candidate, 100) ∷ []; receivers = 0; cleaning = false })
    ∷ []

run-HasStale_example :
    HasStale topic (candidate, 100) (run server (cleanup 1000 topic ∷ cleanup 9000 topic ∷ []))
unfolding get text_beq
run-HasStale_example =
    run-HasStale topic (candidate, 100) (cleanup 1000 topic ∷ cleanup 9000 topic ∷ []) server
      (refl, ([], [], refl))

-- The cleanup of a topic that nobody has joined ends in its first round, a subscriber or a publisher
-- finds the topic again, and its log grows.
ends_then_grows :
    run [] (
      client 0 (publish_message topic candidate)
      ∷ cleanup 60 topic
      ∷ client 100 (publish_message topic candidate)
      ∷ cleanup 1000 topic
      ∷ [])
    ≡ server
unfolding run step handle_client publish clean retain get insert text_beq
ends_then_grows = refl
