-- ===== src/Ros/Existing.antt =====
-- What the four handlers of `ROSManager` keep and send over a list of requests, against the names of
-- the requests.
use rt_fogros.Prelude.{
  ◌≡◌, refl, sym, ap, ◌∙◌, Text, codes, Bool, true, false, Bool-cases, inl, inr, List, [], ◌∷◌,
  ◌++◌, append-nil, append_assoc, All, if◌then◌else◌, contains,
}
use rt_fogros.Packet.Name.{GdpName, name_eq}
use rt_fogros.Packet.Construct.{Sha256}
use rt_fogros.Fib.Types.{
  FibConnectionType, sender, receiver, request_receiver, response_receiver, FibStateChange, Channel,
}
use rt_fogros.Ros.Types.{is_add}
use rt_fogros.Ros.Manager.{
  Manager, new_manager, Worker, Turn, Role, publisher, subscriber, client, service, handler_of,
  handle_ros_topic_remote_publisher, handle_ros_topic_remote_subscriber,
  handle_local_ros_service_caller, handle_remote_ros_service, Arrival, Handler, announce, on_add,
  open_channel, channel_update, worker_of, serve,
}
use rt_fogros.Ros.Names.{
  minus-nil, minus-without_seen, minus-append, added, distinct, minus, IsCreated, names, topics,
}

-- The handlers that send an update for a name that they have already.
abbrev pub repeats : Role → Bool
repeats publisher = false
repeats subscriber = true
repeats client = false
repeats service = true

abbrev pub kind_of : Role → FibConnectionType
kind_of publisher = sender
kind_of subscriber = receiver
kind_of client = response_receiver
kind_of service = request_receiver

abbrev pub description_of : Role → Text
description_of publisher = codes "ros topic send"
description_of subscriber = codes "ros topic receive"
description_of client = codes "ros service response"
description_of service = codes "ros service request"

abbrev pub handler : Role → Sha256 → Handler
handler role = on_add (announce (repeats role) (kind_of role) (description_of role))

pub handler_of_lem : (role : Role) → handler_of role ≡ handler role
unfolding handler_of handle_ros_topic_remote_publisher handle_ros_topic_remote_subscriber
    handle_local_ros_service_caller handle_remote_ros_service
handler_of_lem publisher = refl
handler_of_lem subscriber = refl
handler_of_lem client = refl
handler_of_lem service = refl

abbrev none_of : List GdpName
none_of = []

none_sent : (b : Bool) → none_of ≡ (if b then none_of else none_of)
none_sent true = refl
none_sent false = refl

-- What serving from a state comes to, where the node makes all that it is asked for.
record Serves (role : Role) (m : Manager) (ns : List GdpName) (t : Turn) : Type 0 where
  alive : t.alive ≡ true
  spawned : names t.workers ≡ minus m.existing_topics (distinct ns)
  kept : t.manager.existing_topics ≡ m.existing_topics ++ names t.workers
  sent : topics t.changes ≡ (if repeats role then ns else minus m.existing_topics (distinct ns))

module _ (role : Role) (m : Manager) (ns : List GdpName) (w : Worker) (t : Turn) where
  abbrev update : FibStateChange
  update = channel_update (kind_of role) (description_of role) w

  Serves-seen :
      contains w.topic_gdp_name m.existing_topics ≡ true
      → Serves role (open_channel m) ns t
      → Serves role m
          (w.topic_gdp_name ∷ ns)
          (record t { changes = (if repeats role then update ∷ [] else []) ++ t.changes })
  Serves-seen seen s =
      let taken_off = minus-without_seen m.existing_topics w.topic_gdp_name (distinct ns) seen in
      record {
        alive = s.alive;
        spawned = rw (seen, taken_off) s.spawned;
        kept = s.kept;
        sent = elim (Bool-cases (repeats role)) [
          | inl again ↦ rw again (
              ap (◌∷◌ w.topic_gdp_name)
                (s.sent ∙ ap (λ b. if b then ns else minus m.existing_topics (distinct ns)) again))
          | inr once ↦
              rw (once, seen, taken_off)
                (s.sent ∙ ap (λ b. if b then ns else minus m.existing_topics (distinct ns)) once)
        ];
      }

  Serves-new :
      contains w.topic_gdp_name m.existing_topics ≡ false
      → Serves role
          (record (open_channel m) { existing_topics = m.existing_topics ++ w.topic_gdp_name ∷ [] })
          ns
          t
      → Serves role m
          (w.topic_gdp_name ∷ ns)
          (record t { changes = update ∷ t.changes; workers = w ∷ t.workers })
  Serves-new new s =
      let kept_off = minus-append m.existing_topics w.topic_gdp_name (distinct ns) in
      record {
        alive = s.alive;
        spawned = rw new (ap (◌∷◌ w.topic_gdp_name) (s.spawned ∙ kept_off));
        kept = s.kept ∙ append_assoc m.existing_topics (w.topic_gdp_name ∷ []) (names t.workers);
        sent = elim (Bool-cases (repeats role)) [
          | inl again ↦ rw again (
              ap (◌∷◌ w.topic_gdp_name) (
                s.sent
                ∙ ap
                    (λ b.
                      if b
                      then ns
                      else minus (m.existing_topics ++ w.topic_gdp_name ∷ []) (distinct ns))
                    again))
          | inr once ↦
              rw (once, new)
                (ap (◌∷◌ w.topic_gdp_name) (
                  s.sent
                  ∙ ap
                      (λ b.
                        if b
                        then ns
                        else minus (m.existing_topics ++ w.topic_gdp_name ∷ []) (distinct ns))
                      once
                  ∙ kept_off))
        ];
      }

module _ (role : Role) (sha256 : Sha256) where
  serve-Serves :
      (m : Manager) (arrivals : List Arrival)
      → All IsCreated arrivals
      → Serves role m (added sha256 arrivals) (serve (handler role sha256) m arrivals)
  unfolding serve
  serve-Serves m [] h = record {
    alive = refl;
    spawned = refl;
    kept = sym (append-nil m.existing_topics);
    sent = none_sent (repeats role);
  }
  serve-Serves m (a ∷ later) h = elim (Bool-cases (is_add a.request.action)) [
    | inr other ↦ rw other (serve-Serves m later h.1)
    | inl adds ↦
        let w = worker_of sha256 m a.request in
        elim (Bool-cases (contains w.topic_gdp_name m.existing_topics)) [
          | inl seen ↦
              rw (adds, seen)
                (Serves-seen role m (added sha256 later) w _ seen
                  (serve-Serves (open_channel m) later h.1))
          | inr new ↦
              rw (adds, new, h.0)
                (Serves-new role m (added sha256 later) w _ new (serve-Serves _ later h.1))
        ]
  ]

-- Where the ROS node makes all that it is asked for, each of the four handlers goes on through any
-- requests, spawns one task for each name that they add, in the order of its first request, keeps
-- exactly these names, and sends the forwarding table an update for each of these names (publisher and
-- client) or for each request that adds, repeated or not (subscriber and service).
pub serve-registers :
    (role : Role) (sha256 : Sha256) (c : Channel) (arrivals : List Arrival)
    → All IsCreated arrivals
    → let t = serve (handler_of role sha256) (new_manager c) arrivals in
      let ns = added sha256 arrivals in
      (t.alive ≡ true)
      × (names t.workers ≡ distinct ns)
      × (t.manager.existing_topics ≡ distinct ns)
      × (topics t.changes ≡ (if repeats role then ns else distinct ns))
serve-registers role sha256 c arrivals h =
    rw (handler_of_lem role, ← minus-nil (distinct (added sha256 arrivals)))
      (let s = serve-Serves role sha256 (new_manager c) arrivals h in
        (s.alive, s.spawned, s.kept ∙ s.spawned, s.sent))
