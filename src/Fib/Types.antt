-- ===== src/Fib/Types.antt =====
-- fogrs-common/src/fib_structs.rs. A sender of an unbounded channel is the number of its channel.
use rt_fogros.Prelude.{ℕ, Text, Bool, true, false, Option, List, ◌==◌}
use rt_fogros.Packet.Name.{GdpName}

pub data FibChangeAction : Type 0 where
  add pause pause_add resume delete state : FibChangeAction

pub data FibConnectionType : Type 0 where
  sender receiver request_sender request_receiver response_sender response_receiver :
      FibConnectionType

pub data TopicStateInFib : Type 0 where
  running paused deleted : TopicStateInFib

-- The derived `PartialEq` of the two.
abbrev pub type_code : FibConnectionType → ℕ
type_code sender = 0
type_code receiver = 1
type_code request_sender = 2
type_code request_receiver = 3
type_code response_sender = 4
type_code response_receiver = 5

abbrev pub type_beq : FibConnectionType → FibConnectionType → Bool
type_beq a b = type_code a == type_code b

abbrev pub is_running : TopicStateInFib → Bool
is_running running = true
is_running paused = false
is_running deleted = false

-- `UnboundedSender<GDPPacket>`
abbrev pub Channel : Type 0
Channel = ℕ

pub record FibStateChange : Type 0 where
  pub action : FibChangeAction
  pub connection_type : FibConnectionType
  pub topic_gdp_name : GdpName
  pub forward_destination : Option Channel
  pub interface : Option Text
  pub address : Option Text
  pub description : Option Text

pub record FibConnection : Type 0 where
  pub state : TopicStateInFib
  pub connection_type : FibConnectionType
  pub tx : Channel
  pub description : Option Text
  pub interface : Option Text
  pub address : Option Text

pub record FibState : Type 0 where
  pub receivers : List FibConnection
