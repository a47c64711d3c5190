-- ===== src/Ros/RemoteCall.antt =====
-- A call of a ROS service from machine to machine: the handlers and tasks of fogrs-ros/src/lib.rs and
-- the two forwarding tables between them.
use rt_fogros.Prelude.{
  ℕ, ◌≤◌, ◌≡◌, refl, ap, ◌∙◌, arith, Text, true, Option, some, List, [], ◌∷◌, ◌++◌, map, contains,
  option_eq, beq_refl, done,
}
use rt_fogros.Prelude.Tasks.{goes_on}
use rt_fogros.Packet.Name.{GdpName, name_eq}
use rt_fogros.Packet.Action.{to_u8}
use rt_fogros.Packet.Types.{GdpPacket}
use rt_fogros.Packet.Construct.{
  Sha256, construct_gdp_request_with_guid, construct_gdp_response_with_guid,
  generate_gdp_name_from_string,
}
use rt_fogros.Fib.Types.{Channel}
use rt_fogros.Fib.Binding.{ConfigFile}
use rt_fogros.Fib.Table.{Table, Delivery}
use rt_fogros.Fib.Step.{packet, change, new_table, run}
use rt_fogros.Ros.Types.{TopicManagerRequest, is_add}
use rt_fogros.Ros.Names.{name_of}
use rt_fogros.Ros.Manager.{
  Worker, new_manager, worker_of, handle_remote_ros_service, handle_local_ros_service_caller,
}
use rt_fogros.Ros.Services.{answered, call, reply, call_service, ask, answer, on_service_request}
use rt_fogros.Ros.Channels.{inbox}
use rt_fogros.Ros.Passing.{
  client_update, service_update, request_reaches_service, response_reaches_client,
}

module _ (sha256 : Sha256) (c : Channel) (r : TopicManagerRequest) where
  -- The task of a request that a new handler serves.
  abbrev pub worker : Worker
  worker = worker_of sha256 (new_manager c) r

  client_changes :
      is_add r.action ≡ true
      → (handle_remote_ros_service sha256 true (new_manager c) r).changes
        ≡ client_update worker ∷ []
  unfolding handle_remote_ros_service contains
  client_changes h = rw h refl

  service_changes :
      is_add r.action ≡ true
      → (handle_local_ros_service_caller sha256 true (new_manager c) r).changes
        ≡ service_update worker ∷ []
  unfolding handle_local_ros_service_caller contains
  service_changes h = rw h refl

-- What waits for the client's task, of one packet.
inbox_one :
    (w : Worker) (pkt : GdpPacket)
    → inbox w.ros_rx (record { tx = w.ros_rx; packet = pkt } ∷ []) ≡ pkt ∷ []
inbox_one w pkt = ground arith

-- The packet of a request, and that of the response to it.
abbrev pub question : Sha256 → GdpName → TopicManagerRequest → Text → List ℕ → GdpPacket
question sha256 here r id message =
    construct_gdp_request_with_guid (name_of sha256 r) here message
      (generate_gdp_name_from_string sha256 id)

abbrev pub reply_to :
    Sha256 → (List ℕ → List ℕ) → GdpName → TopicManagerRequest → Text → List ℕ → GdpPacket
reply_to sha256 service there r id message =
    construct_gdp_response_with_guid (name_of sha256 r) there (service message)
      (generate_gdp_name_from_string sha256 id)

module _ (sha256 : Sha256) (service : List ℕ → List ℕ) (here : GdpName) (there : GdpName)
    (r : TopicManagerRequest) where
  called :
      (id : Text) (message : List ℕ)
      → call_service there (name_of sha256 r) (record {
        packet = question sha256 here r id message;
        answer = answered (service message);
        taken = true;
      })
        ≡ goes_on (call message ∷ reply (reply_to sha256 service there r id message) ∷ [])
  unfolding call_service construct_gdp_request_with_guid to_u8
  called id message = rw (beq_refl (name_of sha256 r)) refl

  -- A service that is added by `client` at one machine and by `service` at another: the request of a
  -- ROS client passes both forwarding tables to the task that calls the service, its response is put
  -- into the channel of the client's task, and the client is answered with what the service makes of its
  -- message. Conditions: both machines have a default interface, and the clock of the first does not go
  -- back.
  pub remote_call :
      (file file' : ConfigFile) (c d : Channel) (id : Text) (message : List ℕ)
      (asked answered_at now : ℕ) (interface interface' : Text) (later : Option Text)
      → is_add r.action ≡ true
      → asked ≤ answered_at
      → let client = handle_remote_ros_service sha256 true (new_manager c) r in
        let server = handle_local_ros_service_caller sha256 true (new_manager d) r in
        (t : Table) × (t' : Table) × (ds : List Delivery) × (run (new_table file') (
            map change server.changes
            ++ packet now (some interface') (question sha256 here r id message) ∷ [])
          ≡ done (t', record { tx = d; packet = question sha256 here r id message } ∷ []))
        × (call_service there (name_of sha256 r) (record {
          packet = question sha256 here r id message;
          answer = answered (service message);
          taken = true;
        })
            ≡ goes_on (call message ∷ reply (reply_to sha256 service there r id message) ∷ []))
        × (run (new_table file) (
              map change client.changes
              ++ packet asked (some interface) (question sha256 here r id message)
                ∷ packet answered_at later (reply_to sha256 service there r id message)
                ∷ [])
            ≡ done (t, ds))
        × (on_service_request sha256 here (name_of sha256 r) [] (record {
          request_id = id;
          message = message;
          arrivals = inbox c ds;
          taken = true;
          responds = true;
        })
            ≡ record {
              task = goes_on (
                  ask (question sha256 here r id message)
                  ∷ answer id (some (service message))
                  ∷ []);
              ros_rx = [];
            })
  unfolding on_service_request construct_gdp_response_with_guid
  remote_call file file' c d id message asked answered_at now interface interface' later adds
        clock =
      let guid = generate_gdp_name_from_string sha256 id in
      (
        _,
        _,
        record { tx = c; packet = reply_to sha256 service there r id message } ∷ [],
        ap
              (λ us. run (new_table file') (
                map change us
                ++ packet now (some interface') (question sha256 here r id message) ∷ []))
              (service_changes sha256 d r adds)
            ∙ request_reaches_service file' (worker sha256 d r) now interface' here guid message,
        called id message,
        ap
              (λ us. run (new_table file) (
                map change us
                ++ packet asked (some interface) (question sha256 here r id message)
                  ∷ packet answered_at later (reply_to sha256 service there r id message)
                  ∷ []))
              (client_changes sha256 c r adds)
            ∙ response_reaches_client file (worker sha256 c r) asked answered_at interface later
                here there guid message (service message) clock,
        rw (inbox_one (worker sha256 c r) (reply_to sha256 service there r id message)) refl,
      )
