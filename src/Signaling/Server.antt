-- ===== src/Signaling/Server.antt =====
-- `Topic` and `Server` of fogrs-signaling/src/lib.rs. A socket address is its printed form, an
-- `Instant` the seconds since the start. A broadcast is the number of receivers that it goes to; the
-- locks make each message and each round of a cleanup one step. The making of a topic is one step with
-- the message that makes it: the first round of the new topic's cleanup comes behind it.
use rt_fogros.Prelude.{
  ℕ, ◌+◌, ◌-◌, Text, codes, text_beq, text_eq, Bool, true, false, ltb, ◌==◌, ◌&&◌, Option, none,
  some, List, [], ◌∷◌, ◌++◌, length, if◌then◌else◌, Outcome, done, panic, ◌>>=◌, unwrap,
}
use rt_fogros.Prelude.Assoc.{Assoc, get, insert}
use rt_fogros.Packet.Name.{GdpName}

pub record CandidateStruct : Type 0 where
  pub thread_gdp_name : GdpName
  pub candidates : List Text

pub record Message : Type 0 where
  pub command : Text
  pub topic : Text
  pub message_data : Option CandidateStruct

-- `cleaning` says whether the cleanup task of the topic still runs.
pub record Topic : Type 0 where
  pub name : Text
  pub log : List (CandidateStruct × ℕ)
  pub receivers : ℕ
  pub cleaning : Bool

abbrev pub new_topic : Text → Topic
new_topic name = record { name = name; log = []; receivers = 0; cleaning = true }

-- `publish`: the entry is logged, and broadcast to so many receivers.
unfoldable pub publish : ℕ → CandidateStruct → Topic → Topic
publish now message topic = record topic { log = topic.log ++ (message, now) ∷ [] }

-- `log_guard.retain(…)`
unfoldable pub retain : ℕ → List (CandidateStruct × ℕ) → List (CandidateStruct × ℕ)
retain now [] = []
retain now ((message, timestamp) ∷ log) =
    let rest = retain now log in
    if ltb (now - timestamp) 60 then (message, timestamp) ∷ rest else rest

-- A round of the cleanup task, which ends where nothing is left.
unfoldable pub clean : ℕ → Topic → Topic
unfolding retain
clean now topic =
    let log = retain now topic.log in
    if topic.cleaning
    then record topic { log = log; cleaning = not_idle (length log == 0 && topic.receivers == 0) }
    else topic
  where
    not_idle : Bool → Bool
    not_idle true = false
    not_idle false = true

abbrev pub Server : Type 0
Server = Assoc Text Topic

-- What a client gets: nothing, or the log and then what is published.
pub data Reaction : Type 0 where
  nothing_sent : Reaction
  streams : List (CandidateStruct × ℕ) → Reaction

abbrev pub or_new : Text → Option Topic → Topic
or_new name none = new_topic name
or_new name (some topic) = topic

abbrev pub on_publish : ℕ → Server → Message → Outcome (Server × Reaction)
on_publish now server message = do
  candidate ← unwrap message.message_data
  done (
    insert message.topic (publish now candidate (or_new message.topic (get message.topic server)))
        server,
    nothing_sent,
  )

-- The receiver is counted as soon as it subscribes.
abbrev pub subscribe : Topic → Topic
subscribe topic = record topic { receivers = topic.receivers + 1 }

abbrev pub on_subscribe : Server → Message → Server × Reaction
on_subscribe server message =
    let topic = or_new message.topic (get message.topic server) in
    (insert message.topic (subscribe topic) server, streams topic.log)

-- `handle_client` on a message that parses; a panic ends the client's task and leaves the server as it
-- was.
unfoldable pub handle_client : ℕ → Server → Message → Outcome (Server × Reaction)
unfolding publish
handle_client now server message =
    if text_beq message.command (codes "PUBLISH")
    then on_publish now server message
    else if text_beq message.command (codes "SUBSCRIBE")
    then done (on_subscribe server message)
    else done (server, nothing_sent)

-- What happens at the server: a client's message at a time, a round of a topic's cleanup, or a
-- receiver that goes.
pub data Event : Type 0 where
  client : ℕ → Message → Event
  cleanup : ℕ → Text → Event
  leave : Text → Event

abbrev pub on_topic : Text → (Topic → Topic) → Server → Option Topic → Server
on_topic name change server none = server
on_topic name change server (some topic) = insert name (change topic) server

abbrev pub after_client : Server → Outcome (Server × Reaction) → Server
after_client server (done (later, reaction)) = later
after_client server panic = server

unfoldable pub step : Server → Event → Server
step server (client now message) = after_client server (handle_client now server message)
step server (cleanup now name) = on_topic name (clean now) server (get name server)
step server (leave name) =
    on_topic name (λ topic. record topic { receivers = topic.receivers - 1 }) server
      (get name server)

unfoldable pub run : Server → List Event → Server
run server [] = server
run server (e ∷ es) = run (step server e) es
