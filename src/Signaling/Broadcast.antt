-- ===== src/Signaling/Broadcast.antt =====
-- `Topic::publish` and `Topic::subscribe` of fogrs-signaling/src/lib.rs for one subscriber of a topic.
-- The log is copied and written in one step; what is published meanwhile comes after that step. The
-- broadcast channel of tokio keeps the last `capacity` messages that a receiver has not read; one that
-- has missed some gets an error first, which is only logged.
use rt_fogros.Prelude.{ℕ, suc, ◌-◌, Bool, List, [], ◌∷◌, ◌++◌, length, drop, if◌then◌else◌}
use rt_fogros.Signaling.Server.{CandidateStruct, retain}

-- The subscriber: not there, with a receiver but before the log, in the loop of new messages, or gone.
pub data Phase : Type 0 where
  absent joined streaming gone : Phase

pub record Feed : Type 0 where
  pub log : List (CandidateStruct × ℕ)
  pub phase : Phase
  pub rx : List CandidateStruct
  pub written : List CandidateStruct

-- A publication at a time; the subscription; the log with whether the stream takes each entry; a
-- received message with whether the stream takes it; a round of the cleanup.
pub data Event : Type 0 where
  publish : ℕ → CandidateStruct → Event
  subscribe : Event
  stream_log : (ℕ → Bool) → Event
  receive : Bool → Event
  cleanup : ℕ → Event

-- `sender.send(message)`
abbrev pub send : ℕ → CandidateStruct → List CandidateStruct → List CandidateStruct
send capacity message rx = let all = rx ++ message ∷ [] in drop (length all - capacity) all

-- The receiver is there from the subscription on.
abbrev pub broadcast : ℕ → CandidateStruct → Phase → List CandidateStruct → List CandidateStruct
broadcast capacity message absent rx = rx
broadcast capacity message joined rx = send capacity message rx
broadcast capacity message streaming rx = send capacity message rx
broadcast capacity message gone rx = rx

-- The loop over the log: what is written, and the phase after it.
abbrev pub write_log : (ℕ → Bool) → ℕ → List (CandidateStruct × ℕ) → List CandidateStruct × Phase
write_log takes i [] = ([], streaming)
write_log takes i ((message, timestamp) ∷ log) =
    let rest = write_log takes (suc i) log in
    if takes i then (message ∷ rest.0, rest.1) else ([], gone)

abbrev pub on_log : (ℕ → Bool) → Feed → Phase → Feed
on_log takes feed joined =
    let out = write_log takes 0 feed.log in
    record feed { phase = out.1; written = feed.written ++ out.0 }
on_log takes feed _ = feed

abbrev pub on_receive : Bool → Feed → Phase → List CandidateStruct → Feed
on_receive taken feed streaming (message ∷ rest) =
    if taken
    then record feed { rx = rest; written = feed.written ++ message ∷ [] }
    else record feed { rx = rest; phase = gone }
on_receive taken feed _ _ = feed

abbrev pub on_subscribe : Feed → Phase → Feed
on_subscribe feed absent = record feed { phase = joined; rx = [] }
on_subscribe feed _ = feed

unfoldable pub step : ℕ → Feed → Event → Feed
step capacity feed (publish now message) = record feed {
  log = feed.log ++ (message, now) ∷ [];
  rx = broadcast capacity message feed.phase feed.rx;
}
step capacity feed subscribe = on_subscribe feed feed.phase
step capacity feed (stream_log takes) = on_log takes feed feed.phase
step capacity feed (receive taken) = on_receive taken feed feed.phase feed.rx
step capacity feed (cleanup now) = record feed { log = retain now feed.log }

unfoldable pub run : ℕ → Feed → List Event → Feed
run capacity feed [] = feed
run capacity feed (e ∷ es) = run capacity (step capacity feed e) es
