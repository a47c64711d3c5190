-- ===== src/Ros/Inboxes.antt =====
-- Who reads what the forwarding table puts into the channels that
-- `handle_ros_topic_remote_subscriber` has registered.
use rt_fogros.Prelude.{
  suc, ◌≤◌, ◌≡◌, refl, ap, ◌∙◌, arith, Text, true, false, Bool-cases, inl, inr, Option, List, [],
  ◌∷◌, map, length, All, if◌then◌else◌, contains, option_eq,
}
use rt_fogros.Prelude.Assoc.{Assoc}
use rt_fogros.Packet.Name.{name_eq, name_beq}
use rt_fogros.Packet.Construct.{Sha256}
use rt_fogros.Packet.Types.{GdpPacket}
use rt_fogros.Fib.Types.{FibStateChange, Channel, receiver}
use rt_fogros.Fib.Table.{Delivery}
use rt_fogros.Fib.Step.{change}
use rt_fogros.Fib.Registrations.{subscribers}
use rt_fogros.Fib.Complete.{copies}
use rt_fogros.Ros.Types.{is_add}
use rt_fogros.Ros.Manager.{
  Manager, Worker, Arrival, handle_ros_topic_remote_subscriber, open_channel, worker_of, serve,
}
use rt_fogros.Ros.Names.{topics}
use rt_fogros.Ros.Channels.{
  inbox, occurrences, update, ros_bound, AtLeast, inbox_older, inbox_take, inbox_skip, AtLeast-suc,
}

module _ (binding : Option (Assoc Text Text)) (pkt : GdpPacket) where
  -- What the updates make the table send for the packet.
  abbrev pub sent_after : List FibStateChange → List Delivery
  sent_after us = copies receiver pkt (subscribers binding pkt.gdpname (map change us))

  sent_after-other :
      (w : Worker) (us : List FibStateChange)
      → name_beq w.topic_gdp_name pkt.gdpname ≡ false
      → sent_after (update w ∷ us) ≡ sent_after us
  sent_after-other w us other = rw other refl

  sent_after-same :
      (w : Worker) (us : List FibStateChange)
      → name_beq w.topic_gdp_name pkt.gdpname ≡ true
      → sent_after (update w ∷ us) ≡ record { tx = w.ros_rx; packet = pkt } ∷ sent_after us
  sent_after-same w us same = rw (same, ros_bound binding w.topic_name) refl

  abbrev pub Owns : Channel → List FibStateChange → Worker → Type 0
  Owns c us w =
      (c ≤ w.ros_rx)
      × (inbox w.ros_rx (sent_after us)
          ≡ (if name_beq w.topic_gdp_name pkt.gdpname then pkt ∷ [] else []))

  -- Updates and workers made with channels from `c` on.
  pub record Delivers (c : Channel) (us : List FibStateChange) (ws : List Worker) : Type 0 where
    pub above : All (AtLeast c) (sent_after us)
    pub owned : All (Owns c us) ws
    pub counted : length (sent_after us) ≡ occurrences pkt.gdpname (topics us)

  Owns-older :
      (c : Channel) (us : List FibStateChange) (w : Worker) (ws : List Worker)
      → w.ros_rx ≡ c
      → All (Owns (suc c) us) ws
      → All (Owns c (update w ∷ us)) ws
  Owns-older c us w [] e h = tt
  Owns-older c us w (v ∷ vs) e h = ((omega (arith, h.0.0), kept), Owns-older c us w vs e h.1)
    where
      kept :
          inbox v.ros_rx (sent_after (update w ∷ us))
          ≡ (if name_beq v.topic_gdp_name pkt.gdpname then pkt ∷ [] else [])
      kept = elim (Bool-cases (name_beq w.topic_gdp_name pkt.gdpname)) [
        | inl same ↦
            ap (inbox v.ros_rx) (sent_after-same w us same)
            ∙ inbox_skip v.ros_rx pkt (sent_after us) w.ros_rx (omega (arith, h.0.0))
            ∙ h.0.1
        | inr other ↦ ap (inbox v.ros_rx) (sent_after-other w us other) ∙ h.0.1
      ]

  Delivers-update :
      (c : Channel) (us : List FibStateChange) (w : Worker) (ws : List Worker)
      → w.ros_rx ≡ c
      → Delivers (suc c) us ws
      → Delivers c (update w ∷ us) (w ∷ ws)
  Delivers-update c us w ws e d =
      let none_yet = inbox_older w.ros_rx (suc c) (sent_after us) (omega arith) d.above in
      elim (Bool-cases (name_beq w.topic_gdp_name pkt.gdpname)) [
        | inl same ↦ record {
          above =
              rw (sent_after-same w us same) (omega arith, AtLeast-suc c (sent_after us) d.above);
          owned = (
            (
              omega arith,
              rw (sent_after-same w us same, same)
                  (inbox_take w.ros_rx pkt (sent_after us) ∙ ap (◌∷◌ pkt) none_yet),
            ),
            Owns-older c us w ws e d.owned,
          );
          counted = rw (sent_after-same w us same, same) (ap suc d.counted);
        }
        | inr other ↦ record {
          above = rw (sent_after-other w us other) (AtLeast-suc c (sent_after us) d.above);
          owned = (
            (omega arith, rw (sent_after-other w us other, other) none_yet),
            Owns-older c us w ws e d.owned,
          );
          counted = rw (sent_after-other w us other, other) d.counted;
        }
      ]

  -- An update for which no worker is made.
  Delivers-unread :
      {c : Channel} {us : List FibStateChange} {w : Worker} {ws : List Worker}
      → Delivers c us (w ∷ ws)
      → Delivers c us ws
  Delivers-unread d = record { above = d.above; owned = d.owned.1; counted = d.counted }

  Delivers-none : (c : Channel) → Delivers c [] []
  Delivers-none c = record { above = tt; owned = tt; counted = refl }

  pub serve-Delivers :
      (sha256 : Sha256) (m : Manager) (arrivals : List Arrival)
      → let t = serve (handle_ros_topic_remote_subscriber sha256) m arrivals in
        Delivers m.next_channel t.changes t.workers
  unfolding serve handle_ros_topic_remote_subscriber
  serve-Delivers sha256 m [] = Delivers-none m.next_channel
  serve-Delivers sha256 m (a ∷ later) = elim (Bool-cases (is_add a.request.action)) [
    | inr other ↦ rw other (serve-Delivers sha256 m later)
    | inl adds ↦
        let w = worker_of sha256 m a.request in
        elim (Bool-cases (contains w.topic_gdp_name m.existing_topics)) [
          | inl seen ↦
              rw (adds, seen)
                (Delivers-unread (
                  Delivers-update m.next_channel _ w _ refl
                    (serve-Delivers sha256 (open_channel m) later)))
          | inr new ↦ elim (Bool-cases a.created) [
            | inl made ↦
                rw (adds, new, made)
                  (Delivers-update m.next_channel _ w _ refl (serve-Delivers sha256 _ later))
            | inr failed ↦
                rw (adds, new, failed)
                  (Delivers-unread (
                    Delivers-update m.next_channel [] w [] refl
                      (Delivers-none (suc m.next_channel))))
          ]
        ]
  ]
