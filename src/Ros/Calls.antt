-- ===== src/Ros/Calls.antt =====
-- A call of a remote ROS service: the task of `handle_remote_ros_service` at the machine that calls
-- and the task of `handle_local_ros_service_caller` at the machine of the service.
use rt_fogros.Prelude.{ℕ, ◌≡◌, refl, Text, true, none, some, List, [], ◌∷◌, ◌++◌, map, beq_refl}
use rt_fogros.Packet.Name.{GdpName, name_eq}
use rt_fogros.Packet.Action.{to_u8}
use rt_fogros.Packet.Types.{GdpPacket}
use rt_fogros.Packet.Construct.{
  Sha256, construct_gdp_request_with_guid, construct_gdp_response_with_guid,
  generate_gdp_name_from_string,
}
use rt_fogros.Prelude.Tasks.{goes_on}
use rt_fogros.Ros.Services.{
  answered, CallOutput, call, reply, call_service, ServiceRequest, ServiceOutput, ask, answer,
  request_packet, on_service_request, serve_requests,
}

-- A request of the ROS service.
pub record Call : Type 0 where
  pub request_id : Text
  pub message : List ℕ

abbrev pub replies : List CallOutput → List GdpPacket
replies [] = []
replies (call payload ∷ outputs) = replies outputs
replies (reply packet ∷ outputs) = packet ∷ replies outputs

module _ (sha256 : Sha256) (here : GdpName) (there : GdpName) (name : GdpName)
    (service : List ℕ → List ℕ) where
  -- What comes from the machine of the service for a request packet.
  abbrev pub response_to : GdpPacket → List ℕ → List GdpPacket
  response_to packet message =
      replies
        (call_service there name
          (record { packet = packet; answer = answered (service message); taken = true })).outputs

  -- A call, and what comes in while it waits.
  abbrev pub request_of : Call → List GdpPacket → ServiceRequest
  request_of c arrivals = record {
    request_id = c.request_id;
    message = c.message;
    arrivals = arrivals;
    taken = true;
    responds = true;
  }

  abbrev pub asked : Call → GdpPacket
  asked c = request_packet sha256 here name (request_of c [])

  -- The response to the call's own request.
  abbrev pub response : Call → List GdpPacket
  response c = response_to (asked c) c.message

  abbrev response_packet : Call → GdpPacket
  response_packet c =
      construct_gdp_response_with_guid name there (service c.message)
        (generate_gdp_name_from_string sha256 c.request_id)

  response_lem : (c : Call) → response c ≡ response_packet c ∷ []
  unfolding call_service construct_gdp_request_with_guid to_u8
  response_lem c = rw (beq_refl name) refl

  -- A call that waits until its response is there.
  abbrev pub prompt : Call → ServiceRequest
  prompt c = request_of c (response c)

  abbrev pub answers : List Call → List ServiceOutput
  answers [] = []
  answers (c ∷ cs) = ask (asked c) ∷ answer c.request_id (some (service c.message)) ∷ answers cs

  -- Each call gets the answer to the call before it.
  abbrev pub shifted : Call → List Call → List ServiceOutput
  shifted previous [] = []
  shifted previous (c ∷ cs) =
      ask (asked c) ∷ answer c.request_id (some (service previous.message)) ∷ shifted c cs

  abbrev last : Call → List Call → Call
  last c [] = c
  last c (d ∷ ds) = last d ds

  -- Where each response comes before the timeout, every request is answered with what the remote
  -- service makes of its message, one after the other, and no packet is left over.
  pub calls_answered :
      (cs : List Call)
      → serve_requests sha256 here name [] (map prompt cs)
        ≡ record { task = goes_on (answers cs); ros_rx = [] }
  unfolding serve_requests on_service_request construct_gdp_response_with_guid
  calls_answered [] = refl
  calls_answered (c ∷ cs) = rw (response_lem c, calls_answered cs) refl

  -- A packet that is left over stays ahead of the responses.
  calls-shifted :
      (previous : Call) (cs : List Call)
      → serve_requests sha256 here name (response_packet previous ∷ []) (map prompt cs) ≡ record {
        task = goes_on (shifted previous cs);
        ros_rx = response_packet (last previous cs) ∷ [];
      }
  unfolding serve_requests on_service_request construct_gdp_response_with_guid
  calls-shifted previous [] = refl
  calls-shifted previous (c ∷ cs) = rw (response_lem c, calls-shifted c cs) refl

  -- Once a response comes after its timeout, each later request is answered with the response to the
  -- request before it, however prompt its own is: the guid of a response is never looked at.
  pub late_response :
      (late next : Call) (cs : List Call)
      → (serve_requests sha256 here name [] (
          request_of late []
          ∷ request_of next (response late ++ response next)
          ∷ map prompt cs)).task
        ≡ goes_on (ask (asked late) ∷ answer late.request_id none ∷ shifted late (next ∷ cs))
  unfolding serve_requests on_service_request construct_gdp_response_with_guid
  late_response late next cs = rw (response_lem late, response_lem next, calls-shifted next cs) refl
