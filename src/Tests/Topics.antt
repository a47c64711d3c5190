-- ===== src/Tests/Topics.antt =====
-- The theorems on the ROS handlers and tasks on concrete requests.
use rt_fogros.Prelude.{
  ℕ, ◌≡◌, refl, codes, true, none, some, List, [], ◌∷◌, ◌++◌, map, length, All, if◌then◌else◌, done,
}
use rt_fogros.Packet.Name.{zero_name, name_beq, name_eq}
use rt_fogros.Packet.Action.{forward}
use rt_fogros.Packet.Types.{GdpPacket}
use rt_fogros.Fib.Binding.{no_bindings}
use rt_fogros.Fib.Table.{Table}
use rt_fogros.Fib.Forward.{on_forward}
use rt_fogros.Fib.Step.{change, new_table, run}
use rt_fogros.Prelude.Tasks.{goes_on}
use rt_fogros.Ros.Types.{TopicManagerAction, TopicManagerRequest}
use rt_fogros.Ros.Manager.{
  new_manager, subscriber, Arrival, handler_of, handle_ros_topic_remote_subscriber, serve,
}
use rt_fogros.Ros.Names.{added, distinct, names, topics}
use rt_fogros.Ros.Existing.{serve-registers}
use rt_fogros.Ros.Channels.{inbox, occurrences}
use rt_fogros.Ros.Subscriptions.{unread_copies}
use rt_fogros.Ros.Services.{ask, answer, serve_requests}
use rt_fogros.Ros.Calls.{
  Call, prompt, answers, request_of, response, asked, shifted, calls_answered, late_response,
}
use rt_fogros.Tests.Routes.{digest, chatter}

-- The topic `/chatter`, and one more.
abbrev add_chatter : Arrival
add_chatter = record {
  request = record {
    action = TopicManagerAction.add;
    topic_name = codes "/chatter";
    topic_type = codes "String";
    certificate = [];
  };
  created = true;
}

abbrev add_scan : Arrival
add_scan = record {
  request = record {
    action = TopicManagerAction.add;
    topic_name = codes "scan";
    topic_type = codes "LaserScan";
    certificate = [];
  };
  created = true;
}

abbrev arrivals : List Arrival
arrivals = add_chatter ∷ add_scan ∷ add_chatter ∷ []

serve-registers_example :
    let t = serve (handler_of subscriber digest) (new_manager 0) arrivals in
    (t.alive ≡ true)
    × (names t.workers ≡ distinct (added digest arrivals))
    × (t.manager.existing_topics ≡ distinct (added digest arrivals))
    × (topics t.changes ≡ added digest arrivals)
serve-registers_example = serve-registers subscriber digest 0 arrivals (refl, (refl, (refl, tt)))

abbrev message : GdpPacket
message = record {
  action = forward;
  gdpname = chatter;
  payload = some (7 ∷ []);
  name_record = none;
  guid = some zero_name;
  source = zero_name;
  description = none;
}

unread_copies_example :
    let turn = serve (handle_ros_topic_remote_subscriber digest) (new_manager 0) arrivals in
    (t : Table) × (run (new_table no_bindings) (map change turn.changes) ≡ done (t, []))
    × (length (on_forward t message).deliveries ≡ occurrences chatter (added digest arrivals))
    × All
        (λ w.
          inbox w.ros_rx (on_forward t message).deliveries
          ≡ (if name_beq w.topic_gdp_name chatter then message ∷ [] else []))
        turn.workers
unread_copies_example =
    unread_copies no_bindings digest 0 arrivals message (refl, (refl, (refl, tt)))

-- Three calls of a service that answers with the request behind a 0.
abbrev first_call : Call
first_call = record { request_id = codes "a"; message = 1 ∷ [] }

abbrev second_call : Call
second_call = record { request_id = codes "b"; message = 2 ∷ [] }

abbrev third_call : Call
third_call = record { request_id = codes "c"; message = 3 ∷ [] }

abbrev echo : List ℕ → List ℕ
echo message = 0 ∷ message

abbrev calls : List Call
calls = first_call ∷ second_call ∷ []

calls_answered_example :
    serve_requests digest zero_name chatter []
      (map (prompt digest zero_name zero_name chatter echo) calls)
    ≡ record { task = goes_on (answers digest zero_name zero_name chatter echo calls); ros_rx = [] }
calls_answered_example = calls_answered digest zero_name zero_name chatter echo calls

late_response_example :
    (serve_requests digest zero_name chatter [] (
      request_of digest zero_name zero_name chatter echo first_call []
      ∷ request_of digest zero_name zero_name chatter echo second_call (
          response digest zero_name zero_name chatter echo first_call
          ++ response digest zero_name zero_name chatter echo second_call)
      ∷ map (prompt digest zero_name zero_name chatter echo) (third_call ∷ []))).task
    ≡ goes_on (
        ask (asked digest zero_name zero_name chatter echo first_call)
        ∷ answer (codes "a") none
        ∷ shifted digest zero_name zero_name chatter echo first_call
            (second_call ∷ third_call ∷ []))
late_response_example =
    late_response digest zero_name zero_name chatter echo first_call second_call (third_call ∷ [])

-- The service of `/chatter`, called from one machine at the other.
abbrev chatter_request : TopicManagerRequest
chatter_request = add_chatter.request
