-- ===== src/Ros/Passing.antt =====
-- What the forwarding tables of two machines do with a request of a ROS service and its response.
use rt_fogros.Prelude.{
  ℕ, ◌≤◌, ◌≡◌, refl, Text, codes, text_beq, Option, some, List, [], ◌∷◌, contains, option_eq,
  beq_refl, done,
}
use rt_fogros.Prelude.Assoc.{get, insert}
use rt_fogros.Packet.Name.{GdpName, name_eq}
use rt_fogros.Packet.Construct.{construct_gdp_request_with_guid, construct_gdp_response_with_guid}
use rt_fogros.Fib.Types.{FibStateChange, request_receiver, response_receiver}
use rt_fogros.Fib.Binding.{ConfigFile, read_binding_table}
use rt_fogros.Fib.Table.{Table, deliver}
use rt_fogros.Fib.Request.{send_request, send_requests, send_on_interface, on_request}
use rt_fogros.Fib.Update.{connection_of, add_receiver, on_update}
use rt_fogros.Fib.Step.{packet, change, new_table, step, run}
use rt_fogros.Fib.Responses.{on_response-new}
use rt_fogros.Ros.Manager.{Worker, channel_update}
use rt_fogros.Ros.Channels.{ros_bound}

-- The updates of the client's and of the service's handler for a worker.
abbrev pub client_update : Worker → FibStateChange
client_update = channel_update response_receiver (codes "ros service response")

abbrev pub service_update : Worker → FibStateChange
service_update = channel_update request_receiver (codes "ros service request")

-- The table with the connection of a worker, after a request for its name at a time.
abbrev pub table_with : ConfigFile → FibStateChange → Worker → ℕ → List (Option GdpName) → Table
table_with file update w now processed = record {
  binding_table = read_binding_table file;
  rib_state_table =
      (w.topic_gdp_name, record { receivers = connection_of update w.ros_rx ∷ [] }) ∷ [];
  processed_requests = processed;
  request_latency_table = (w.topic_gdp_name, now) ∷ [];
}

-- At the machine of the service, a request is put into the channel of the service's task.
pub request_reaches_service :
    (file : ConfigFile) (v : Worker) (now : ℕ) (interface : Text) (source guid : GdpName)
    (message : List ℕ)
    → let pkt = construct_gdp_request_with_guid v.topic_gdp_name source message guid in
      run (new_table file) (change (service_update v) ∷ packet now (some interface) pkt ∷ [])
      ≡ done
          (table_with file (service_update v) v now [], record { tx = v.ros_rx; packet = pkt } ∷ [])
unfolding run new_table step on_update add_receiver insert get construct_gdp_request_with_guid
    on_request send_on_interface send_requests send_request contains text_beq
request_reaches_service file v now interface source guid message =
    rw (ros_bound (read_binding_table file) v.topic_name, beq_refl v.topic_gdp_name) refl

pub found :
    (w : Worker) (asked : ℕ) → get w.topic_gdp_name ((w.topic_gdp_name, asked) ∷ []) ≡ some asked
unfolding get
found w asked = rw (beq_refl w.topic_gdp_name) refl

-- At the machine that calls, the request passes, and its response is put into the channel of the
-- client's task.
pub response_reaches_client :
    (file : ConfigFile) (w : Worker) (asked answered_at : ℕ) (interface : Text)
    (later : Option Text) (source there guid : GdpName) (message resp : List ℕ)
    → asked ≤ answered_at
    → let name = w.topic_gdp_name in
      let pkt = construct_gdp_response_with_guid name there resp guid in
      run (new_table file) (
        change (client_update w)
        ∷ packet asked (some interface) (construct_gdp_request_with_guid name source message guid)
        ∷ packet answered_at later pkt
        ∷ [])
      ≡ done (
        table_with file (client_update w) w asked (some guid ∷ []),
        record { tx = w.ros_rx; packet = pkt } ∷ [],
      )
unfolding run new_table step on_update add_receiver insert get construct_gdp_request_with_guid
    construct_gdp_response_with_guid on_request send_on_interface send_requests send_request deliver
    contains text_beq
response_reaches_client file w asked answered_at interface later source there guid message resp h =
    rw
      (
        ros_bound (read_binding_table file) w.topic_name,
        beq_refl w.topic_gdp_name,
        on_response-new answered_at asked (table_with file (client_update w) w asked [])
            (construct_gdp_response_with_guid w.topic_gdp_name there resp guid) guid (found w asked)
            h refl refl,
        beq_refl w.topic_gdp_name,
      )
      refl
