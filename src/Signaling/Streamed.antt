-- ===== src/Signaling/Streamed.antt =====
-- What a subscriber of fogrs-signaling/src/lib.rs is streamed.
use rt_fogros.Prelude.{
  ℕ, suc, ◌+◌, ◌-◌, ◌≤◌, ◌≡◌, refl, sym, ap, ◌∙◌, arith, true, List, [], ◌∷◌, ◌++◌, ◌⊎◌, inl, inr,
  append-nil, append_assoc, length, length-append, drop, All,
}
use mathlib.Core.Path.{subst}
use rt_fogros.Signaling.Server.{CandidateStruct, retain}
use rt_fogros.Signaling.Broadcast.{
  Phase, absent, joined, streaming, Feed, Event, publish, subscribe, stream_log, receive, cleanup,
  send, broadcast, on_subscribe, on_log, on_receive, write_log, step, run,
}

abbrev pub entries : List (CandidateStruct × ℕ) → List CandidateStruct
entries [] = []
entries ((message, timestamp) ∷ log) = message ∷ entries log

-- What is published, and that the stream takes what is received.
abbrev pub published : List Event → List CandidateStruct
published [] = []
published (publish now message ∷ es) = message ∷ published es
published (_ ∷ es) = published es

abbrev pub IsTaken : Event → Type 0
IsTaken (receive taken) = taken ≡ true
IsTaken _ = Unit

send_room :
    (capacity : ℕ) (message : CandidateStruct) (rx : List CandidateStruct)
    → suc (length rx) ≤ capacity
    → send capacity message rx ≡ rx ++ message ∷ []
send_room capacity message rx h =
    let none_dropped : length (rx ++ message ∷ []) - capacity ≡ 0 =
      omega (arith, length-append rx (message ∷ []), h) in
    ap (λ n. drop n (rx ++ message ∷ [])) none_dropped

write_log_all :
    (i : ℕ) (log : List (CandidateStruct × ℕ))
    → write_log (λ _. true) i log ≡ (entries log, streaming)
write_log_all i [] = refl
write_log_all i ((message, timestamp) ∷ log) = rw (write_log_all (suc i) log) refl

-- The subscriber is in the loop of new messages, and what is written to it or waits for it is the list.
abbrev Keeps : ℕ → List Event → Feed → List CandidateStruct → Type 0
Keeps capacity es feed xs =
    let last = run capacity feed es in (last.phase ≡ streaming) × (last.written ++ last.rx ≡ xs)

-- A round of `rx.recv()` moves the first message that waits.
receive_first :
    (feed : Feed)
    → on_receive true feed streaming feed.rx ≡ feed
      ⊎ ((m : CandidateStruct) × (rest : List CandidateStruct) × (feed.rx ≡ m ∷ rest)
          × (on_receive true feed streaming feed.rx
              ≡ record feed { rx = rest; written = feed.written ++ m ∷ [] }))
receive_first feed = over feed.rx refl
  where
    over :
        (rx : List CandidateStruct)
        → feed.rx ≡ rx
        → on_receive true feed streaming rx ≡ feed
          ⊎ ((m : CandidateStruct) × (rest : List CandidateStruct) × (feed.rx ≡ m ∷ rest)
              × (on_receive true feed streaming rx
                  ≡ record feed { rx = rest; written = feed.written ++ m ∷ [] }))
    over [] e = inl refl
    over (m ∷ rest) e = inr (m, rest, e, refl)

-- In the loop of new messages nothing is lost while there is room.
run-streaming :
    (capacity : ℕ) (es : List Event) (feed : Feed)
    → feed.phase ≡ streaming
    → All IsTaken es
    → length feed.rx + length (published es) ≤ capacity
    → Keeps capacity es feed (feed.written ++ (feed.rx ++ published es))
unfolding run step
run-streaming capacity [] feed p h room = (p, ap (◌++◌ feed.written) (sym (append-nil feed.rx)))
run-streaming capacity (publish now message ∷ es) feed p h room =
    let log = feed.log ++ (message, now) ∷ [] in
    let put =
      ap (λ ph. broadcast capacity message ph feed.rx) p
      ∙ send_room capacity message feed.rx (omega (arith, room)) in
    let next = record feed { log = log; rx = feed.rx ++ message ∷ [] } in
    subst (Keeps capacity es (step capacity feed (publish now message)))
      (ap (◌++◌ feed.written) (append_assoc feed.rx (message ∷ []) (published es)))
      (subst
        (λ r.
          Keeps capacity es (record feed { log = log; rx = r })
            (feed.written ++ ((feed.rx ++ message ∷ []) ++ published es)))
        (sym put)
        (run-streaming capacity es next p h.1
          (omega (arith, room, length-append feed.rx (message ∷ [])))))
run-streaming capacity (receive taken ∷ es) feed p h room =
    let same =
      ap (λ b. on_receive b feed feed.phase feed.rx) h.0
      ∙ ap (λ ph. on_receive true feed ph feed.rx) p in
    subst (λ f. Keeps capacity es f (feed.written ++ (feed.rx ++ published es))) (sym same)
      (elim (receive_first feed) [
        | inl none_waits ↦
            subst (λ f. Keeps capacity es f (feed.written ++ (feed.rx ++ published es)))
              (sym none_waits) (run-streaming capacity es feed p h.1 room)
        | inr (m, rest, waits, moved) ↦
            subst (λ f. Keeps capacity es f (feed.written ++ (feed.rx ++ published es))) (sym moved)
              (subst
                (Keeps capacity es (record feed { rx = rest; written = feed.written ++ m ∷ [] }))
                (append_assoc feed.written (m ∷ []) (rest ++ published es)
                  ∙ ap (λ r. feed.written ++ (r ++ published es)) (sym waits))
                (run-streaming capacity es
                  (record feed { rx = rest; written = feed.written ++ m ∷ [] }) p h.1
                  (omega (arith, room, ap length waits))))
      ])
run-streaming capacity (subscribe ∷ es) feed p h room =
    subst (λ f. Keeps capacity es f (feed.written ++ (feed.rx ++ published es)))
      (sym (ap (on_subscribe feed) p)) (run-streaming capacity es feed p h.1 room)
run-streaming capacity (stream_log takes ∷ es) feed p h room =
    subst (λ f. Keeps capacity es f (feed.written ++ (feed.rx ++ published es)))
      (sym (ap (on_log takes feed) p)) (run-streaming capacity es feed p h.1 room)
run-streaming capacity (cleanup now ∷ es) feed p h room =
    run-streaming capacity es (record feed { log = retain now feed.log }) p h.1 room

entries-append :
    (xs ys : List (CandidateStruct × ℕ)) → entries (xs ++ ys) ≡ entries xs ++ entries ys
entries-append [] ys = refl
entries-append ((m, t) ∷ xs) ys = ap (◌∷◌ m) (entries-append xs ys)

-- A topic with a log, which the subscriber has not come to yet.
abbrev pub before : List (CandidateStruct × ℕ) → Feed
before log = record { log = log; phase = absent; rx = []; written = [] }

abbrev pub publications : List (CandidateStruct × ℕ) → List Event
publications [] = []
publications ((message, now) ∷ later) = publish now message ∷ publications later

-- Before the log is read, what is published is logged, and waits in the channel as well.
run-joined :
    (capacity : ℕ) (es : List Event) (log mid : List (CandidateStruct × ℕ))
    (rx : List CandidateStruct)
    → length rx + length mid ≤ capacity
    → run capacity
        (record { log = log; phase = joined; rx = rx; written = [] })
        (publications mid ++ es)
      ≡ run capacity
          (record { log = log ++ mid; phase = joined; rx = rx ++ entries mid; written = [] })
          es
unfolding run step
run-joined capacity es log [] rx room = rw (append-nil log, append-nil rx) refl
run-joined capacity es log ((message, now) ∷ mid) rx room =
    ap
      (λ r.
        run capacity
          (record { log = log ++ (message, now) ∷ []; phase = joined; rx = r; written = [] })
          (publications mid ++ es))
      (send_room capacity message rx (omega (arith, room)))
    ∙ run-joined capacity es (log ++ (message, now) ∷ []) mid (rx ++ message ∷ [])
        (omega (arith, room, length-append rx (message ∷ [])))
    ∙ rw (append_assoc log ((message, now) ∷ []) mid, append_assoc rx (message ∷ []) (entries mid))
        refl

length-entries : (log : List (CandidateStruct × ℕ)) → length (entries log) ≡ length log
length-entries [] = refl
length-entries ((m, t) ∷ log) = ap suc (length-entries log)

-- Whatever comes after, a subscriber whose stream takes everything is written the log of its topic,
-- with what was published since the subscription, and then, in order and still in its channel as far
-- as it has not been received, all that was published since the subscription: what was published
-- between the subscription and the reading of the log twice, and everything else once. Condition: no
-- more is published since the subscription than the channel holds.
pub subscriber_streamed :
    (capacity : ℕ) (log mid : List (CandidateStruct × ℕ)) (es : List Event)
    → All IsTaken es
    → length mid + length (published es) ≤ capacity
    → let last =
        run capacity (before log) (subscribe ∷ (publications mid ++ stream_log (λ _. true) ∷ es)) in
      (last.phase ≡ streaming)
      × (last.written ++ last.rx ≡ (entries log ++ entries mid) ++ (entries mid ++ published es))
unfolding run step
subscriber_streamed capacity log mid es h room =
    let out = entries (log ++ mid) in
    let feed : Feed = record {
      log = log ++ mid;
      phase = streaming;
      rx = entries mid;
      written = out;
    } in
    subst
      (λ f.
        (f.phase ≡ streaming)
        × (f.written ++ f.rx ≡ (entries log ++ entries mid) ++ (entries mid ++ published es)))
      (sym (
        run-joined capacity (stream_log (λ _. true) ∷ es) log mid [] (omega (arith, room))
        ∙ ap
            (λ (o : List CandidateStruct × Phase).
              run capacity
                (record { log = log ++ mid; phase = o.1; rx = entries mid; written = o.0 }) es)
            (write_log_all 0 (log ++ mid))))
      (subst (λ xs. Keeps capacity es feed (xs ++ (entries mid ++ published es)))
        (entries-append log mid)
        (run-streaming capacity es feed refl h (omega (arith, room, length-entries mid))))
