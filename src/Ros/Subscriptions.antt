-- ===== src/Ros/Subscriptions.antt =====
-- The updates of `handle_ros_topic_remote_subscriber` in the forwarding table, and what it then sends.
use rt_fogros.Prelude.{
  ◌≡◌, refl, sym, ap, ◌∙◌, Text, Bool-cases, inl, inr, Option, List, [], ◌∷◌, map, length, All,
  if◌then◌else◌, contains, option_eq, done,
}
use rt_fogros.Prelude.Assoc.{Assoc, get}
use rt_fogros.Packet.Name.{name_beq, name_eq}
use rt_fogros.Packet.Construct.{Sha256}
use rt_fogros.Packet.Types.{GdpPacket}
use rt_fogros.Fib.Types.{FibStateChange, Channel, receiver}
use rt_fogros.Fib.Binding.{ConfigFile, read_binding_table}
use rt_fogros.Fib.Table.{Table, receivers_of, deliver}
use rt_fogros.Fib.Forward.{on_forward}
use rt_fogros.Fib.Step.{change, new_table, run}
use rt_fogros.Fib.Complete.{forward_to_subscribers}
use rt_fogros.Ros.Types.{is_add}
use rt_fogros.Ros.Manager.{
  Manager, new_manager, Worker, Turn, Arrival, subscriber, handler_of,
  handle_ros_topic_remote_subscriber, open_channel, worker_of, serve,
}
use rt_fogros.Ros.Names.{topics, added, IsCreated}
use rt_fogros.Ros.Existing.{serve-registers}
use rt_fogros.Ros.Channels.{inbox, occurrences, update, with_worker, step-update}
use rt_fogros.Ros.Inboxes.{serve-Delivers, Owns, sent_after}

-- The table takes the updates without a panic and puts nothing out.
abbrev Takes : Table → List FibStateChange → Type 0
Takes t us =
    (t' : Table) × (run t (map change us) ≡ done (t', []))
    × (t'.processed_requests ≡ t.processed_requests)

Takes-none : (t : Table) → Takes t []
unfolding run
Takes-none t = (t, refl, refl)

Takes-update :
    (t : Table) (w : Worker) (us : List FibStateChange)
    → Takes (with_worker t w) us
    → Takes t (update w ∷ us)
unfolding run
Takes-update t w us h = (h.0, rw (step-update t w, h.1) refl, h.2)

serve-Takes :
    (sha256 : Sha256) (m : Manager) (arrivals : List Arrival) (t : Table)
    → Takes t (serve (handle_ros_topic_remote_subscriber sha256) m arrivals).changes
unfolding serve handle_ros_topic_remote_subscriber
serve-Takes sha256 m [] t = Takes-none t
serve-Takes sha256 m (a ∷ later) t = elim (Bool-cases (is_add a.request.action)) [
  | inr other ↦ rw other (serve-Takes sha256 m later t)
  | inl adds ↦
      let w = worker_of sha256 m a.request in
      elim (Bool-cases (contains w.topic_gdp_name m.existing_topics)) [
        | inl seen ↦
            rw (adds, seen) (Takes-update t w _ (serve-Takes sha256 (open_channel m) later _))
        | inr new ↦ elim (Bool-cases a.created) [
          | inl made ↦ rw (adds, new, made) (Takes-update t w _ (serve-Takes sha256 _ later _))
          | inr failed ↦ rw (adds, new, failed) (Takes-update t w [] (Takes-none _))
        ]
      ]
]

-- What a worker's channel gets of the packets that the table sends for one.
abbrev pub Gets : Table → GdpPacket → Worker → Type 0
Gets t pkt w =
    inbox w.ros_rx (deliver receiver pkt (receivers_of (get pkt.gdpname t.rib_state_table)))
    ≡ (if name_beq w.topic_gdp_name pkt.gdpname then pkt ∷ [] else [])

Gets-Owns :
    (binding : Option (Assoc Text Text)) (pkt : GdpPacket) (t : Table) (c : Channel)
    (us : List FibStateChange) (ws : List Worker)
    → deliver receiver pkt (receivers_of (get pkt.gdpname t.rib_state_table))
      ≡ sent_after binding pkt us
    → All (Owns binding pkt c us) ws
    → All (Gets t pkt) ws
Gets-Owns binding pkt t c us [] e h = tt
Gets-Owns binding pkt t c us (w ∷ ws) e h = (rw e h.0.1, Gets-Owns binding pkt t c us ws e h.1)

-- What the table has for the names of the subscriber's updates.
abbrev pub Subscribed : ConfigFile → Turn → Table → Type 0
Subscribed file turn t =
    (run (new_table file) (map change turn.changes) ≡ done (t, [])) × (t.processed_requests ≡ [])

on_forward_first :
    (t : Table) (pkt : GdpPacket)
    → t.processed_requests ≡ []
    → (on_forward t pkt).deliveries
      ≡ deliver receiver pkt (receivers_of (get pkt.gdpname t.rib_state_table))
unfolding on_forward contains
on_forward_first t pkt e = rw e refl

module _ (file : ConfigFile) (sha256 : Sha256) (c : Channel) (arrivals : List Arrival) where
  abbrev pub turn : Turn
  turn = serve (handle_ros_topic_remote_subscriber sha256) (new_manager c) arrivals

  -- The forwarding table takes the updates of the subscriber without a panic.
  pub subscriber_table : (t : Table) × Subscribed file turn t
  unfolding new_table
  subscriber_table =
      let (t, ran, same) = serve-Takes sha256 (new_manager c) arrivals (new_table file) in
      (t, (ran, same))

  sent_by :
      (t : Table) (pkt : GdpPacket)
      → Subscribed file turn t
      → (on_forward t pkt).deliveries ≡ sent_after (read_binding_table file) pkt turn.changes
  unfolding contains
  sent_by t pkt h = forward_to_subscribers file (map change turn.changes) t [] pkt h.0 (rw h.1 refl)

  pub workers_get :
      (t : Table) (pkt : GdpPacket) → Subscribed file turn t → All (Gets t pkt) turn.workers
  workers_get t pkt h =
      Gets-Owns (read_binding_table file) pkt t c turn.changes turn.workers
        (sym (on_forward_first t pkt h.1) ∙ sent_by t pkt h)
        (serve-Delivers (read_binding_table file) pkt sha256 (new_manager c) arrivals).owned

  subscriber_topics : All IsCreated arrivals → topics turn.changes ≡ added sha256 arrivals
  unfolding handler_of
  subscriber_topics made = (serve-registers subscriber sha256 c arrivals made).3

-- Where the ROS node makes all that it is asked for, the forwarding table takes the subscriber's
-- updates without a panic, and then sends a message once for each request that added its name, a
-- repeated one included, while the channel of the one task of the name gets one copy: the other copies
-- go into channels that nobody reads.
pub unread_copies :
    (file : ConfigFile) (sha256 : Sha256) (c : Channel) (arrivals : List Arrival) (pkt : GdpPacket)
    → All IsCreated arrivals
    → let turn = serve (handle_ros_topic_remote_subscriber sha256) (new_manager c) arrivals in
      (t : Table) × (run (new_table file) (map change turn.changes) ≡ done (t, []))
      × (length (on_forward t pkt).deliveries ≡ occurrences pkt.gdpname (added sha256 arrivals))
      × All
          (λ w.
            inbox w.ros_rx (on_forward t pkt).deliveries
            ≡ (if name_beq w.topic_gdp_name pkt.gdpname then pkt ∷ [] else []))
          turn.workers
unread_copies file sha256 c arrivals pkt made =
    let (t, h) = subscriber_table file sha256 c arrivals in
    let us = (turn file sha256 c arrivals).changes in
    (
      t,
      h.0,
      ap length (sent_by file sha256 c arrivals t pkt h)
          ∙ (serve-Delivers (read_binding_table file) pkt sha256 (new_manager c) arrivals).counted
          ∙ ap (occurrences pkt.gdpname) (subscriber_topics file sha256 c arrivals made),
      rw (on_forward_first t pkt h.1) (workers_get file sha256 c arrivals t pkt h),
    )
