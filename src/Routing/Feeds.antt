-- ===== src/Routing/Feeds.antt =====
-- The streams of fogrs-core/src/routing_manager.rs and the forwarding table.
use rt_fogros.Prelude.{
  ℕ, ◌≡◌, ◌≢◌, refl, sym, ap, ◌∙◌, Text, codes, text_beq, text_beq_iff, Bool, true, false,
  Bool-cases, inl, inr, Option, none, some, List, [], ◌∷◌, ◌++◌, All, Outcome, done, panic,
  >>=-eq-done,
}
use rt_fogros.Packet.Name.{GdpName}
use rt_fogros.Fib.Types.{FibConnectionType, FibStateChange, Channel, add}
use rt_fogros.Fib.Table.{Table}
use rt_fogros.Fib.Update.{on_update}
use rt_fogros.Routing.Direction.{direction_str_to_connection_type, flip_direction}
use rt_fogros.Routing.Duality.{dual, direction_of, type-direction_of}
use rt_fogros.Routing.Ends.{of_receiver}
use rt_fogros.Routing.Rendezvous.{flip-of_type}
use rt_fogros.Routing.Streams.{
  stream_update, Reading, bytes, timed_out, Handshake, acknowledged, given_up, waiting, await_pong,
  after_handshake, handle_stream_sender,
}

-- The change with the other end's connection type.
abbrev pub update_of : GdpName → FibConnectionType → Channel → Text → Text → Text → FibStateChange
update_of topic kind tx interface address description = record {
  action = add;
  connection_type = dual kind;
  topic_gdp_name = topic;
  forward_destination = some tx;
  interface = some interface;
  address = some address;
  description = some description;
}

module _ (topic : GdpName) (tx : Channel) (interface address description : Text) where
  pub stream_update-of_type :
      (d : Text) (k : FibConnectionType)
      → flip_direction d ≡ done (direction_of (dual k))
      → stream_update topic d tx interface address description
        ≡ done (update_of topic k tx interface address description)
  unfolding stream_update
  stream_update-of_type d k f = rw (f, type-direction_of (dual k))

  -- A stream of a direction that stands for a type issues the change of the type, if any.
  pub stream_update-only :
      (d : Text) (k : FibConnectionType) (u : FibStateChange)
      → direction_str_to_connection_type d ≡ done k
      → stream_update topic d tx interface address description ≡ done u
      → update_of topic k tx interface address description ≡ u
  unfolding stream_update
  stream_update-only d k u h e = elim (flip-of_type d k h) [
    | inl f ↦ same (sym (stream_update-of_type d k f) ∙ e)
    | inr (f, n) ↦ absurd (apart (rw f at e))
  ]
    where
      same : {u v : FibStateChange} → ◌≡◌ {A = Outcome FibStateChange} (done u) (done v) → u ≡ v
      same e = cc

      apart : ◌≢◌ {A = Outcome FibStateChange} panic (done u)
      apart e = cc

  -- The change of a stream of the receiving side of a topic leaves the forwarding table as it is.
  pub receiver_stream_ignored :
      (ct : Text) (k : FibConnectionType) (t : Table)
      → direction_str_to_connection_type (ct ++ codes "-receiver") ≡ done k
      → on_update t (update_of topic k tx interface address description) ≡ done t
  unfolding on_update
  receiver_stream_ignored ct k t h = rw (of_receiver ct k h)

-- Some bytes came.
abbrev IsBytes : Reading → Type 0
IsBytes (bytes b) = Unit
IsBytes timed_out = ⊥

-- The pong came, and until then no second passed in which nothing came.
abbrev pub IsAcknowledged : List Reading → Type 0
IsAcknowledged readings =
    (before : List Reading) × (after : List Reading) × (readings
      ≡ before ++ bytes (codes "pong") ∷ after)
    × All IsBytes before

await_pong-IsAcknowledged :
    (is_utf8 : List ℕ → Bool) (readings : List Reading)
    → await_pong is_utf8 readings ≡ done acknowledged
    → IsAcknowledged readings
unfolding await_pong
await_pong-IsAcknowledged is_utf8 [] e = absurd (ne e)
  where
    ne : ◌≢◌ {A = Outcome Handshake} (done waiting) (done acknowledged)
    ne h = cc
await_pong-IsAcknowledged is_utf8 (timed_out ∷ rs) e = absurd (ne e)
  where
    ne : ◌≢◌ {A = Outcome Handshake} (done given_up) (done acknowledged)
    ne h = cc
await_pong-IsAcknowledged is_utf8 (bytes b ∷ rs) e = elim (Bool-cases (is_utf8 b)) [
  | inr invalid ↦ absurd (ne (rw invalid at e))
  | inl valid ↦ elim (Bool-cases (text_beq b (codes "pong"))) [
    | inl pong ↦ ([], rs, ap (λ x. bytes x ∷ rs) ((text_beq_iff b (codes "pong")).0 pong), tt)
    | inr other ↦
        let (before, after, split, all) =
          await_pong-IsAcknowledged is_utf8 rs (rw (valid, other) at e) in
        (bytes b ∷ before, after, ap (◌∷◌ (bytes b)) split, (tt, all))
  ]
]
  where
    ne : ◌≢◌ {A = Outcome Handshake} panic (done acknowledged)
    ne h = cc

only_acknowledged :
    (update : Outcome FibStateChange) (u : FibStateChange) (h : Handshake)
    → after_handshake update h ≡ done (some u)
    → h ≡ acknowledged
only_acknowledged update u acknowledged e = refl
only_acknowledged update u given_up e = cc
only_acknowledged update u waiting e = cc

-- A sending stream is registered only after its peer has answered the ping in time.
pub registered_after_pong :
    (is_utf8 : List ℕ → Bool) (can_write : Bool) (readings : List Reading)
    (update : Outcome FibStateChange) (u : FibStateChange)
    → handle_stream_sender is_utf8 can_write readings update ≡ done (some u)
    → IsAcknowledged readings
unfolding handle_stream_sender
registered_after_pong is_utf8 true readings update u e =
    let (h, waited, later) = >>=-eq-done (await_pong is_utf8 readings) (after_handshake update) e in
    await_pong-IsAcknowledged is_utf8 readings
      (waited ∙ ap done (only_acknowledged update u h later))
registered_after_pong is_utf8 false readings update u e = absurd (ne e)
  where
    ne : ◌≢◌ {A = Outcome (Option FibStateChange)} (done none) (done (some u))
    ne h = cc
