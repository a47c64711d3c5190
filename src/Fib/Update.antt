-- ===== src/Fib/Update.antt =====
-- The `channel_rx` arm of `service_connection_fib_handler`: changes to the table.
use rt_fogros.Prelude.{
  Text, codes, text_beq, text_eq, starts_with, Bool, true, false, ◌||◌, Option, none, some, [], ◌∷◌,
  ◌++◌, if◌then◌else◌, Outcome, done, ◌>>=◌, unwrap,
}
use rt_fogros.Prelude.Assoc.{Assoc, get, insert}
use rt_fogros.Packet.Name.{name_eq}
use rt_fogros.Fib.Types.{
  FibChangeAction, add, FibConnection, FibConnectionType, receiver, request_receiver,
  response_receiver, FibState, FibStateChange, Channel, running, type_beq,
}
use rt_fogros.Fib.Table.{Table}

abbrev pub is_receiver : FibConnectionType → Bool
is_receiver kind =
    type_beq kind receiver || (type_beq kind request_receiver || type_beq kind response_receiver)

abbrev address_starts_with : Text → Option Text → Bool
address_starts_with address none = false
address_starts_with address (some prefix) = starts_with address prefix

-- `in_binding_table`
unfoldable pub in_binding_table : Option (Assoc Text Text) → Text → Text → Bool
in_binding_table none interface address = false
in_binding_table (some table) interface address = address_starts_with address (get interface table)

-- The test that lets an update through: there is no table, the interface is ROS, or the table has it.
unfoldable pub is_bound : Option (Assoc Text Text) → Text → Text → Bool
is_bound none interface address = true
is_bound (some table) interface address =
    text_beq interface (codes "ros") || in_binding_table (some table) interface address

abbrev pub connection_of : FibStateChange → Channel → FibConnection
connection_of update tx = record {
  state = running;
  connection_type = update.connection_type;
  tx = tx;
  description = update.description;
  interface = update.interface;
  address = update.address;
}

-- The new entry, or the old one with one more connection.
abbrev pub push_receiver : Option FibState → FibConnection → FibState
push_receiver none c = record { receivers = c ∷ [] }
push_receiver (some v) c = record v { receivers = v.receivers ++ c ∷ [] }

unfoldable pub add_receiver : Table → FibStateChange → Outcome Table
add_receiver t update = do
  interface ← unwrap update.interface
  address ← unwrap update.address
  if is_bound t.binding_table interface address
      then (do
        tx ← unwrap update.forward_destination
        done (record t {
          rib_state_table =
              insert update.topic_gdp_name
                (push_receiver (get update.topic_gdp_name t.rib_state_table)
                  (connection_of update tx))
                t.rib_state_table;
        }))
      else done t

-- Only `ADD` of a receiving connection does anything.
abbrev pub on_add : Table → FibStateChange → FibChangeAction → Outcome Table
on_add t update add = if is_receiver update.connection_type then add_receiver t update else done t
on_add t update _ = done t

unfoldable pub on_update : Table → FibStateChange → Outcome Table
on_update t update = on_add t update update.action
