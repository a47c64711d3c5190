-- ===== src/Signaling/Stale.antt =====
-- A topic of fogrs-signaling/src/lib.rs after its cleanup task has ended.
use rt_fogros.Prelude.{
  ℕ, ◌≡◌, refl, sym, Text, codes, text_beq, text_beq_iff, text_eq, false, Bool-cases, inl, inr,
  Option, none, some, List, [], ◌∷◌,
}
use mathlib.Core.Path.{subst}
use rt_fogros.Prelude.Assoc.{get, insert, get-insert}
use rt_fogros.Signaling.Server.{
  CandidateStruct, Message, Topic, publish, clean, Server, or_new, on_publish, subscribe,
  handle_client, Event, client, cleanup, leave, on_topic, after_client, step, run,
}
use rt_fogros.Signaling.Fresh.{HasEntry, HasEntry-more}

module _ (name : Text) (e : CandidateStruct × ℕ) where
  -- The topic is there, its cleanup has ended, and the entry stands in its log.
  abbrev pub IsStale : Topic → Type 0
  IsStale topic = (topic.cleaning ≡ false) × HasEntry e topic.log

  abbrev pub HasStale : Server → Type 0
  HasStale server = IsStale (or_new name (get name server))

  insert-HasStale :
      (k : Text) (topic : Topic) (server : Server)
      → HasStale server
      → (IsStale (or_new k (get k server)) → IsStale topic)
      → HasStale (insert k topic server)
  insert-HasStale k topic server has keeps =
      rw (get-insert k name topic server) (elim (Bool-cases (text_beq k name)) [
        | inl same ↦ rw same (
            keeps (
              subst (λ n. IsStale (or_new n (get n server))) (sym ((text_beq_iff k name).0 same))
                has))
        | inr other ↦ rw other has
      ])

  on_topic-HasStale :
      (k : Text) (change : Topic → Topic) (server : Server) (o : Option Topic)
      → get k server ≡ o
      → HasStale server
      → ((t : Topic) → IsStale t → IsStale (change t))
      → HasStale (on_topic k change server o)
  on_topic-HasStale k change server none found has keeps = has
  on_topic-HasStale k change server (some t) found has keeps =
      insert-HasStale k (change t) server has
        (λ stale. keeps t (subst (λ x. IsStale (or_new k x)) found stale))

  clean-IsStale : (now : ℕ) (t : Topic) → IsStale t → IsStale (clean now t)
  unfolding clean
  clean-IsStale now t s = rw s.0 (refl, s.1)

  publish-HasStale :
      (now : ℕ) (server : Server) (message : Message) (o : Option CandidateStruct)
      → message.message_data ≡ o
      → HasStale server
      → HasStale (after_client server (on_publish now server message))
  unfolding publish
  publish-HasStale now server message none d has = rw d has
  publish-HasStale now server message (some c) d has = rw d (
      insert-HasStale message.topic _ server has (λ s.
        (s.0, HasEntry-more e (c, now) (or_new message.topic (get message.topic server)).log s.1)))

  client-HasStale :
      (now : ℕ) (server : Server) (message : Message)
      → HasStale server
      → HasStale (after_client server (handle_client now server message))
  unfolding handle_client
  client-HasStale now server message has =
      elim (Bool-cases (text_beq message.command (codes "PUBLISH"))) [
        | inl publishes ↦
            rw publishes (publish-HasStale now server message message.message_data refl has)
        | inr other ↦ elim (Bool-cases (text_beq message.command (codes "SUBSCRIBE"))) [
          | inl subscribes ↦
              rw (other, subscribes)
                (insert-HasStale message.topic
                  (subscribe (or_new message.topic (get message.topic server))) server has (λ s. s))
          | inr unknown ↦ rw (other, unknown) has
        ]
      ]

  -- Once the cleanup of a topic has ended, an entry of its log is there after any history, however much
  -- time passes and however many rounds of cleanup there are.
  pub run-HasStale :
      (es : List Event) (server : Server) → HasStale server → HasStale (run server es)
  unfolding run step
  run-HasStale [] server has = has
  run-HasStale (client now message ∷ es) server has =
      run-HasStale es (step server (client now message)) (client-HasStale now server message has)
  run-HasStale (cleanup now k ∷ es) server has = run-HasStale es (step server (cleanup now k)) (
      on_topic-HasStale k (clean now) server (get k server) refl has (λ t s. clean-IsStale now t s))
  run-HasStale (leave k ∷ es) server has =
      run-HasStale es (step server (leave k))
        (on_topic-HasStale k _ server (get k server) refl has (λ t s. s))
