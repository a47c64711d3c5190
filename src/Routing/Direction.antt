-- ===== src/Routing/Direction.antt =====
-- `direction_str_to_connection_type` and `flip_direction` of fogrs-core/src/routing_manager.rs. A
-- direction is the list of its characters.
use rt_fogros.Prelude.{
  ℕ, ◌+◌, ◌-◌, ◌==◌, ◌++◌, Text, codes, text_beq, ◌&&◌, ltb, if◌then◌else◌, List, [], ◌∷◌, map,
  Outcome, done, panic,
}
use rt_fogros.Fib.Types.{
  FibConnectionType, sender, receiver, request_sender, request_receiver, response_sender,
  response_receiver,
}

abbrev pub up : ℕ → ℕ
up c = if ltb 96 c && ltb c 123 then c - 32 else c

-- The upper case of a character, where it is ASCII. Any other character stays: its upper case has
-- characters beyond ASCII, as it has itself, and stands in no name that it is compared with.
abbrev pub upper : ℕ → Text
upper c =
    if ltb c 128
    then up c ∷ []
    else if c == 223
    then codes "SS"
    else if c == 305
    then codes "I"
    else if c == 383
    then codes "S"
    else if c == 64256
    then codes "FF"
    else if c == 64257
    then codes "FI"
    else if c == 64258
    then codes "FL"
    else if c == 64259
    then codes "FFI"
    else if c == 64260
    then codes "FFL"
    else if c == 64261
    then codes "ST"
    else if c == 64262
    then codes "ST"
    else c ∷ []

-- The lower case of a character, in the same way; beyond ASCII it is the Kelvin sign's alone.
abbrev pub lower : ℕ → ℕ
lower c = if ltb 64 c && ltb c 91 then c + 32 else if c == 8490 then b'k' else c

abbrev pub to_uppercase : Text → Text
to_uppercase [] = []
to_uppercase (c ∷ cs) = upper c ++ to_uppercase cs

abbrev pub to_lowercase : Text → Text
to_lowercase = map lower

abbrev pub connection_type_of : Text → Outcome FibConnectionType
connection_type_of s =
    if text_beq s (codes "PUBSUB-SENDER")
    then done sender
    else if text_beq s (codes "PUBSUB-RECEIVER")
    then done receiver
    else if text_beq s (codes "REQUEST-SENDER")
    then done request_sender
    else if text_beq s (codes "REQUEST-RECEIVER")
    then done request_receiver
    else if text_beq s (codes "RESPONSE-SENDER")
    then done response_sender
    else if text_beq s (codes "RESPONSE-RECEIVER")
    then done response_receiver
    else panic

unfoldable pub direction_str_to_connection_type : Text → Outcome FibConnectionType
direction_str_to_connection_type connection_type = connection_type_of (to_uppercase connection_type)

abbrev pub mapping : List (Text × Text)
mapping =
    (codes "request-receiver", codes "request-sender")
    ∷ (codes "request-sender", codes "request-receiver")
    ∷ (codes "response-sender", codes "response-receiver")
    ∷ (codes "response-receiver", codes "response-sender")
    ∷ (codes "pubsub-sender", codes "pubsub-receiver")
    ∷ (codes "pubsub-receiver", codes "pubsub-sender")
    ∷ []

-- The loop over the mapping; what it returns is always `Some`, so the model gives the text itself.
abbrev pub find_direction : List (Text × Text) → Text → Outcome Text
find_direction [] direction = panic
find_direction ((k, v) ∷ rest) direction =
    if text_beq k direction then done v else find_direction rest direction

unfoldable pub flip_direction : Text → Outcome Text
flip_direction direction = find_direction mapping (to_lowercase direction)
