-- ===== src/Tests/Resolving.antt =====
-- The information base's theorems on a concrete history.
use rt_fogros.Prelude.{◌≡◌, ◌≢◌, refl, none, some, List, [], ◌∷◌}
use rt_fogros.Packet.Name.{GdpName, name_beq}
use rt_fogros.Packet.Types.{GdpNameRecord, GdpNameRecordType, info, query, update}
use rt_fogros.Rib.Handler.{new_handler, answer, on_query, step, run}
use rt_fogros.Rib.Published.{published, query-published}
use rt_fogros.Rib.Waiting.{Once, waiting}
use rt_fogros.Rib.Pending.{run-new_handler-Once}
use rt_fogros.Rib.Answered.{IsAnsweredOnce, query_answered}

abbrev topic : GdpName
topic = record { b0 = 1; b1 = 2; b2 = 3; b3 = 4 }

abbrev other_topic : GdpName
other_topic = record { b0 = 9; b1 = 2; b2 = 3; b3 = 4 }

abbrev asker : GdpName
asker = record { b0 = 5; b1 = 5; b2 = 5; b3 = 5 }

abbrev about : GdpName → GdpNameRecordType → GdpNameRecord
about name kind = record {
  record_type = kind;
  gdpname = name;
  source_gdpname = asker;
  webrtc_offer = none;
  ip_address = some (49 ∷ []);
  ros = none;
  indirect = none;
}

topic_published :
    ◌≢◌ {A = List GdpNameRecord}
      (published topic (about topic update ∷ about other_topic info ∷ about topic info ∷ []))
      []
unfolding name_beq
topic_published e = cc

query-published_example :
    (on_query
      (run new_handler (about topic update ∷ about other_topic info ∷ about topic info ∷ []))
      (about topic query)).responses
    ≡ answer (about topic update) asker ∷ answer (about topic info) asker ∷ []
unfolding name_beq
query-published_example =
    query-published (about topic update ∷ about other_topic info ∷ about topic info ∷ [])
      (about topic query) topic_published

query_answered_example :
    IsAnsweredOnce
      (about topic info)
      asker
      (step
        (run new_handler (
          about other_topic update
          ∷ about topic query
          ∷ about topic query
          ∷ about other_topic info
          ∷ []))
        (about topic info)).responses
unfolding name_beq
query_answered_example =
    query_answered (about other_topic update ∷ []) (about topic query ∷ about other_topic info ∷ [])
      (about topic query) (about topic info) refl refl refl refl refl

run-new_handler-Once_example :
    Once (waiting topic (run new_handler (about topic query ∷ about topic query ∷ [])))
run-new_handler-Once_example =
    run-new_handler-Once topic (about topic query ∷ about topic query ∷ [])
