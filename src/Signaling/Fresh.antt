-- ===== src/Signaling/Fresh.antt =====
-- The log of a topic of fogrs-signaling/src/lib.rs against the cleanup.
use rt_fogros.Prelude.{
  ℕ, ◌+◌, ◌-◌, ◌<◌, ◌≡◌, refl, sym, ap, ◌∙◌, Text, codes, text_beq, text_beq_iff, text_eq, beq_refl,
  true, false, ltb, Bool-cases, ◌⊎◌, inl, inr, Option, none, some, List, [], ◌∷◌, ◌++◌,
  append_assoc, done, arith,
}
use mathlib.Core.Path.{subst}
use rt_fogros.Prelude.Assoc.{get, insert, get-insert}
use rt_fogros.Signaling.Server.{
  CandidateStruct, Message, Topic, publish, retain, clean, Server, streams, or_new, on_publish,
  subscribe, handle_client, Event, client, cleanup, leave, on_topic, after_client, step, run,
}

-- The entry stands in the log.
abbrev pub HasEntry : CandidateStruct × ℕ → List (CandidateStruct × ℕ) → Type 0
HasEntry e log =
    (before : List (CandidateStruct × ℕ)) × (after : List (CandidateStruct × ℕ)) × (log
      ≡ before ++ e ∷ after)

-- The log of a topic, empty where there is none.
abbrev pub log_of : Text → Server → List (CandidateStruct × ℕ)
log_of name server = (or_new name (get name server)).log

-- Every cleanup of the topic comes within a minute of the time.
abbrev pub IsWithinMinute : Text → ℕ → List Event → Type 0
IsWithinMinute name time [] = Unit
IsWithinMinute name time (cleanup now topic ∷ es) =
    ((now < time + 60) ⊎ (text_beq topic name ≡ false)) × IsWithinMinute name time es
IsWithinMinute name time (_ ∷ es) = IsWithinMinute name time es

HasEntry-last :
    (e : CandidateStruct × ℕ) (log : List (CandidateStruct × ℕ)) → HasEntry e (log ++ e ∷ [])
HasEntry-last e log = (log, [], refl)

pub HasEntry-more :
    (e x : CandidateStruct × ℕ) (log : List (CandidateStruct × ℕ))
    → HasEntry e log
    → HasEntry e (log ++ x ∷ [])
HasEntry-more e x log (before, after, h) =
    (before, after ++ x ∷ [], ap (λ l. l ++ x ∷ []) h ∙ append_assoc before (e ∷ after) (x ∷ []))

retain-HasEntry :
    (now time : ℕ) (m : CandidateStruct) (before after : List (CandidateStruct × ℕ))
    → now < time + 60
    → HasEntry (m, time) (retain now (before ++ (m, time) ∷ after))
unfolding retain
retain-HasEntry now time m [] after lt =
    let fresh : ltb (now - time) 60 ≡ true = ground arith in rw fresh ([], retain now after, refl)
retain-HasEntry now time m ((x, t) ∷ before) after lt =
    let (b, a, h) = retain-HasEntry now time m before after lt in
    elim (Bool-cases (ltb (now - t) 60)) [
      | inl kept ↦ rw kept ((x, t) ∷ b, a, ap (◌∷◌ (x, t)) h)
      | inr dropped ↦ rw dropped (b, a, h)
    ]

clean-HasEntry :
    (now time : ℕ) (m : CandidateStruct) (topic : Topic)
    → now < time + 60
    → HasEntry (m, time) topic.log
    → HasEntry (m, time) (clean now topic).log
unfolding clean
clean-HasEntry now time m topic lt (b, a, h) = elim (Bool-cases topic.cleaning) [
  | inl runs ↦
      rw runs
        (subst (λ l. HasEntry (m, time) (retain now l)) (sym h) (retain-HasEntry now time m b a lt))
  | inr ended ↦ rw ended (b, a, h)
]

module _ (name : Text) (e : CandidateStruct × ℕ) where
  -- A change of one topic keeps the entry of another, and of itself where its log does.
  insert-HasEntry :
      (k : Text) (topic : Topic) (server : Server)
      → HasEntry e (log_of name server)
      → (k ≡ name → HasEntry e topic.log)
      → HasEntry e (log_of name (insert k topic server))
  insert-HasEntry k topic server has keeps =
      rw (log_of, get-insert k name topic server)
        (elim (Bool-cases (text_beq k name)) [
          | inl same ↦ rw same (keeps ((text_beq_iff k name).0 same))
          | inr other ↦ rw other has
        ])

  -- What the topic at the key has, if it is the one.
  here :
      (k : Text) (server : Server)
      → HasEntry e (log_of name server)
      → k ≡ name
      → HasEntry e (log_of k server)
  here k server has same = subst (λ n. HasEntry e (log_of n server)) (sym same) has

  on_topic-HasEntry :
      (k : Text) (change : Topic → Topic) (server : Server) (o : Option Topic)
      → get k server ≡ o
      → HasEntry e (log_of name server)
      → ((t : Topic) → k ≡ name → HasEntry e t.log → HasEntry e (change t).log)
      → HasEntry e (log_of name (on_topic k change server o))
  on_topic-HasEntry k change server none found has keeps = has
  on_topic-HasEntry k change server (some t) found has keeps =
      insert-HasEntry k (change t) server has (λ same.
        keeps t same (subst (λ x. HasEntry e (or_new k x).log) found (here k server has same)))

  publish-HasEntry :
      (now : ℕ) (server : Server) (message : Message) (o : Option CandidateStruct)
      → message.message_data ≡ o
      → HasEntry e (log_of name server)
      → HasEntry e (log_of name (after_client server (on_publish now server message)))
  unfolding publish
  publish-HasEntry now server message none d has = rw d has
  publish-HasEntry now server message (some c) d has = rw d (
      insert-HasEntry message.topic _ server has (λ same.
        HasEntry-more e (c, now) (log_of message.topic server)
          (here message.topic server has same)))

  client-HasEntry :
      (now : ℕ) (server : Server) (message : Message)
      → HasEntry e (log_of name server)
      → HasEntry e (log_of name (after_client server (handle_client now server message)))
  unfolding handle_client
  client-HasEntry now server message has =
      elim (Bool-cases (text_beq message.command (codes "PUBLISH"))) [
        | inl publishes ↦
            rw publishes (publish-HasEntry now server message message.message_data refl has)
        | inr other ↦ elim (Bool-cases (text_beq message.command (codes "SUBSCRIBE"))) [
          | inl subscribes ↦
              rw (other, subscribes)
                (insert-HasEntry message.topic
                  (subscribe (or_new message.topic (get message.topic server))) server has
                  (λ same. here message.topic server has same))
          | inr unknown ↦ rw (other, unknown) has
        ]
      ]

module _ (name : Text) (m : CandidateStruct) (time : ℕ) where
  cleanup-HasEntry :
      (now : ℕ) (k : Text) (server : Server)
      → (now < time + 60) ⊎ (text_beq k name ≡ false)
      → HasEntry (m, time) (log_of name server)
      → HasEntry (m, time) (log_of name (on_topic k (clean now) server (get k server)))
  cleanup-HasEntry now k server soon has =
      on_topic-HasEntry name (m, time) k (clean now) server (get k server) refl has
        λ t same h. elim soon [
          | inl lt ↦ clean-HasEntry now time m t lt h
          | inr other ↦ absurd (ground (arith, other, (text_beq_iff k name).1 same))
        ]

  run-HasEntry :
      (es : List Event) (server : Server)
      → IsWithinMinute name time es
      → HasEntry (m, time) (log_of name server)
      → HasEntry (m, time) (log_of name (run server es))
  unfolding run step
  run-HasEntry [] server soon has = has
  run-HasEntry (client now message ∷ es) server soon has =
      run-HasEntry es (step server (client now message)) soon
        (client-HasEntry name (m, time) now server message has)
  run-HasEntry (cleanup now k ∷ es) server soon has =
      run-HasEntry es (step server (cleanup now k)) soon.1
        (cleanup-HasEntry now k server soon.0 has)
  run-HasEntry (leave k ∷ es) server soon has =
      run-HasEntry es (step server (leave k)) soon
        (on_topic-HasEntry name (m, time) k _ server (get k server) refl has (λ t same h. h))

abbrev pub publish_message : Text → CandidateStruct → Message
publish_message name m = record { command = codes "PUBLISH"; topic = name; message_data = some m }

abbrev pub subscribe_message : Text → Message
subscribe_message name = record { command = codes "SUBSCRIBE"; topic = name; message_data = none }

published-HasEntry :
    (name : Text) (m : CandidateStruct) (time : ℕ) (server : Server)
    → HasEntry (m, time) (log_of name (step server (client time (publish_message name m))))
unfolding step handle_client publish text_beq
published-HasEntry name m time server =
    rw
      (
        log_of,
        get-insert name name (publish time m (or_new name (get name server))) server,
        beq_refl name,
      )
      (HasEntry-last (m, time) (log_of name server))

-- Whatever else happens at the server, who subscribes to a topic is streamed every candidate that was
-- published to it, as long as each cleanup of the topic since came within 60 seconds of the
-- publication.
pub fresh_streamed :
    (server : Server) (name : Text) (m : CandidateStruct) (time now : ℕ) (es : List Event)
    → IsWithinMinute name time es
    → (log : List (CandidateStruct × ℕ)) × (later : Server) × (handle_client now
          (run server (client time (publish_message name m) ∷ es))
          (subscribe_message name)
        ≡ done (later, streams log))
      × HasEntry (m, time) log
unfolding handle_client text_beq run
fresh_streamed server name m time now es soon = (
  log_of name (run server (client time (publish_message name m) ∷ es)),
  _,
  refl,
  run-HasEntry name m time es (step server (client time (publish_message name m))) soon
      (published-HasEntry name m time server),
)
