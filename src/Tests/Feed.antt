-- ===== src/Tests/Feed.antt =====
-- A subscriber of the signaling server on a concrete history.
use rt_fogros.Prelude.{ℕ, ◌≡◌, refl, Bool, true, List, [], ◌∷◌, ◌++◌, arith}
use rt_fogros.Packet.Name.{zero_name}
use rt_fogros.Signaling.Server.{CandidateStruct}
use rt_fogros.Signaling.Broadcast.{
  streaming, Event, publish, subscribe, stream_log, receive, cleanup, run,
}
use rt_fogros.Signaling.Streamed.{before, publications, subscriber_streamed}

abbrev at_port : ℕ → CandidateStruct
at_port port = record { thread_gdp_name = zero_name; candidates = (port ∷ []) ∷ [] }

-- One candidate is logged before the subscription, one is published while the subscriber comes.
abbrev log : List (CandidateStruct × ℕ)
log = (at_port 1, 10) ∷ []

abbrev meanwhile : List (CandidateStruct × ℕ)
meanwhile = (at_port 2, 20) ∷ []

abbrev later : List Event
later = receive true ∷ publish 30 (at_port 3) ∷ cleanup 75 ∷ receive true ∷ []

abbrev takes_all : ℕ → Bool
takes_all i = true

subscriber_streamed_example :
    ((run 100
        (before log)
        (subscribe ∷ (publications meanwhile ++ stream_log takes_all ∷ later))).phase
      ≡ streaming)
    × ((run 100
            (before log)
            (subscribe ∷ (publications meanwhile ++ stream_log takes_all ∷ later))).written
          ++ (run 100
              (before log)
              (subscribe ∷ (publications meanwhile ++ stream_log takes_all ∷ later))).rx
        ≡ at_port 1 ∷ at_port 2 ∷ at_port 2 ∷ at_port 3 ∷ [])
subscriber_streamed_example =
    subscriber_streamed 100 log meanwhile later (refl, (tt, (tt, (refl, tt)))) (omega arith)
