-- ===== src/Routing/Streams.antt =====
-- What the streams of a topic tell the forwarding table: `handle_stream_sender`, and the two places
-- of `register_stream_receiver`, of fogrs-core/src/routing_manager.rs.
use rt_fogros.Prelude.{
  ℕ, Text, codes, text_beq, Bool, Option, none, some, List, [], ◌∷◌, if◌then◌else◌, Outcome, done,
  panic, ◌>>=◌,
}
use rt_fogros.Packet.Name.{GdpName}
use rt_fogros.Fib.Types.{Channel, FibStateChange, add}
use rt_fogros.Routing.Direction.{direction_str_to_connection_type, flip_direction}

-- The change that a connected stream issues; the peer's address is its printed form, and the
-- description a text for the log.
unfoldable pub stream_update :
    GdpName → Text → Channel → Text → Text → Text → Outcome FibStateChange
stream_update topic_gdp_name direction tx interface address description = do
  flipped ← flip_direction direction
  connection_type ← direction_str_to_connection_type flipped
  done (record {
    action = add;
    connection_type = connection_type;
    topic_gdp_name = topic_gdp_name;
    forward_destination = some tx;
    interface = some interface;
    address = some address;
    description = some description;
  })

-- What comes while the sender waits for the pong: bytes, or a second in which nothing comes.
pub data Reading : Type 0 where
  bytes : List ℕ → Reading
  timed_out : Reading

-- How far the wait has come.
pub data Handshake : Type 0 where
  acknowledged given_up waiting : Handshake

-- The loop after the ping; a reading that is no UTF-8 panics.
unfoldable pub await_pong : (List ℕ → Bool) → List Reading → Outcome Handshake
await_pong is_utf8 [] = done waiting
await_pong is_utf8 (timed_out ∷ readings) = done given_up
await_pong is_utf8 (bytes response ∷ readings) =
    let later = await_pong is_utf8 readings in
    if is_utf8 response
    then (if text_beq response (codes "pong") then done acknowledged else later)
    else panic

-- After the pong, the change is sent.
abbrev pub after_handshake : Outcome FibStateChange → Handshake → Outcome (Option FibStateChange)
after_handshake update acknowledged = update >>= λ u. done (some u)
after_handshake update given_up = done none
after_handshake update waiting = done none

-- `handle_stream_sender` up to the reader and writer: the change that it sends, or none where the
-- ping cannot be written, nothing came in time, or it still waits.
unfoldable pub handle_stream_sender :
    (List ℕ → Bool) → Bool → List Reading → Outcome FibStateChange → Outcome (Option FibStateChange)
handle_stream_sender is_utf8 can_write readings update =
    if can_write then (await_pong is_utf8 readings >>= after_handshake update) else done none
