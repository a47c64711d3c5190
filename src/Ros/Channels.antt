-- ===== src/Ros/Channels.antt =====
-- The updates of the subscriber of fogrs-ros/src/lib.rs, and what is put into a channel.
use rt_fogros.Prelude.{
  ℕ, suc, ◌≤◌, ◌<◌, ◌≡◌, refl, arith, ◌==◌, Text, codes, text_beq, true, Option, none, some, List,
  [], ◌∷◌, ◌++◌, All, if◌then◌else◌, option_eq, done,
}
use rt_fogros.Prelude.Assoc.{Assoc, get, insert}
use rt_fogros.Packet.Name.{GdpName, name_eq, name_beq}
use rt_fogros.Packet.Types.{GdpPacket}
use rt_fogros.Fib.Types.{FibStateChange, Channel, receiver}
use rt_fogros.Fib.Table.{Table, Delivery, idle}
use rt_fogros.Fib.Update.{is_bound, push_receiver, connection_of, add_receiver, on_update}
use rt_fogros.Fib.Step.{change, step}
use rt_fogros.Ros.Manager.{Worker, channel_update}

-- What is put into a channel.
abbrev pub inbox : Channel → List Delivery → List GdpPacket
inbox c [] = []
inbox c (d ∷ ds) = let rest = inbox c ds in if d.tx == c then d.packet ∷ rest else rest

abbrev pub occurrences : GdpName → List GdpName → ℕ
occurrences name [] = 0
occurrences name (x ∷ xs) =
    let rest = occurrences name xs in if name_beq x name then suc rest else rest

-- The update for a worker of the subscriber.
abbrev pub update : Worker → FibStateChange
update = channel_update receiver (codes "ros topic receive")

pub ros_bound :
    (binding : Option (Assoc Text Text)) (address : Text)
    → is_bound binding (codes "ros") address ≡ true
unfolding is_bound text_beq
ros_bound none address = refl
ros_bound (some table) address = refl

-- The table with the connection of a worker.
abbrev pub with_worker : Table → Worker → Table
with_worker t w = record t {
  rib_state_table =
      insert w.topic_gdp_name
        (push_receiver (get w.topic_gdp_name t.rib_state_table) (connection_of (update w) w.ros_rx))
        t.rib_state_table;
}

-- The update of a worker never panics the forwarding table, nor puts anything out.
pub step-update :
    (t : Table) (w : Worker) → step t (change (update w)) ≡ done (idle (with_worker t w))
unfolding step on_update add_receiver
step-update t w = rw (ros_bound t.binding_table w.topic_name) refl

pub inbox-append :
    (c : Channel) (xs ys : List Delivery) → inbox c (xs ++ ys) ≡ inbox c xs ++ inbox c ys
inbox-append c [] ys = refl
inbox-append c (d ∷ ds) ys = ground (arith, inbox-append c ds ys)

abbrev pub AtLeast : Channel → Delivery → Type 0
AtLeast c d = c ≤ d.tx

-- Nothing is in the inbox of a channel older than all that something is put into.
pub inbox_older :
    (j c : Channel) (ds : List Delivery) → j < c → All (AtLeast c) ds → inbox j ds ≡ []
inbox_older j c [] lt h = refl
inbox_older j c (d ∷ ds) lt h = ground (arith, inbox_older j c ds lt h.1, h.0)

module _ (c : Channel) (pkt : GdpPacket) (ds : List Delivery) where
  pub inbox_take : inbox c (record { tx = c; packet = pkt } ∷ ds) ≡ pkt ∷ inbox c ds
  inbox_take = ground arith

  pub inbox_skip :
      (j : Channel) → j < c → inbox c (record { tx = j; packet = pkt } ∷ ds) ≡ inbox c ds
  inbox_skip j lt = ground arith

pub AtLeast-suc : (c : Channel) (ds : List Delivery) → All (AtLeast (suc c)) ds → All (AtLeast c) ds
AtLeast-suc c [] h = tt
AtLeast-suc c (d ∷ ds) h = (omega (arith, h.0), AtLeast-suc c ds h.1)
