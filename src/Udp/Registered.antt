-- ===== src/Udp/Registered.antt =====
-- What `register_stream` of fogrs-core/src/network/udp.rs reads, against the registrations of all
-- machines.
use rt_fogros.Prelude.{
  ℕ, ◌≡◌, refl, ap, ◌∙◌, Text, codes, text_beq, true, Bool-cases, inl, inr, List, [], ◌∷◌, ◌++◌,
  map, append-nil, All, if◌then◌else◌, done,
}
use rt_fogros.Prelude.Tasks.{goes_on, work}
use rt_fogros.Packet.Name.{GdpName}
use rt_fogros.Packet.Spelling.{IsBytes}
use rt_fogros.Start.Address.{get_redis_url, get_redis_address_and_port}
use rt_fogros.Udp.Redis.{Redis, RedisLaws, get_entity_from_database, allow_keyspace_notification}
use rt_fogros.Udp.Registration.{
  flip_direction, key_of, World, Notice, operation, on_notice, expect, after_read, register_stream,
}
use rt_fogros.Udp.Addresses.{Registration, addresses, HasBytes, registered, lrange-registered}

-- Everything that a registration asks of its environment is answered.
pub record IsAnswered (w : World) : Type 0 where
  pub url : Text
  pub has_url : get_redis_url w.is_utf8 w.variable ≡ done url
  pub at : Text × ℕ
  pub has_address : get_redis_address_and_port w.is_utf8 w.variable ≡ done at
  pub reads : w.reads ≡ true
  pub connects : w.connects ≡ true
  pub configures : w.configures ≡ true
  pub takes_setting : w.takes_setting ≡ true
  pub subscribes : w.subscribes ≡ true

-- An operation that is noticed, with the registrations that have come before it is looked into.
pub record News : Type 0 where
  pub received : Text
  pub registrations : List Registration

module _ (R : Redis) (db : R.Database) where
  abbrev pub notice_of : News → Notice R
  notice_of n = operation n.received true (registered R n.registrations db)

-- What is read at each operation that pushes.
abbrev pub heard : GdpName → Text → List News → List (List Text)
heard name direction [] = []
heard name direction (n ∷ ns) =
    let rest = heard name direction ns in
    if text_beq n.received (codes "lpush")
    then addresses name direction n.registrations ∷ rest
    else rest

abbrev pub NewsHasBytes : News → Type 0
NewsHasBytes n = All HasBytes n.registrations

module _ (R : Redis) (laws : RedisLaws R) (db : R.Database)
    (empty : (k : Text) → R.lrange k db ≡ []) (w : World) (name : GdpName) (direction : Text)
    (hn : IsBytes name) where
  lrange-addresses :
      (rs : List Registration) (d : Text)
      → All HasBytes rs
      → R.lrange (key_of name d) (registered R rs db) ≡ addresses name d rs
  lrange-addresses rs d h =
      lrange-registered R laws rs name d db h hn
      ∙ ap (λ l. addresses name d rs ++ l) (empty (key_of name d))
      ∙ append-nil (addresses name d rs)

  work-on_notice :
      (flipped : Text) (ns : List News)
      → All NewsHasBytes ns
      → work (on_notice R (key_of name flipped)) (map (notice_of R db) ns)
        ≡ goes_on (heard name flipped ns)
  unfolding work on_notice get_entity_from_database
  work-on_notice flipped [] h = refl
  work-on_notice flipped (n ∷ ns) h = elim (Bool-cases (text_beq n.received (codes "lpush"))) [
    | inr other ↦ rw (other, work-on_notice flipped ns h.1) refl
    | inl push ↦
        rw (push, work-on_notice flipped ns h.1, lrange-addresses n.registrations flipped h.0) refl
  ]

  after_read_lem :
      (flipped : Text) (ns : List News) (found : List Text)
      → IsAnswered w
      → All (λ a. w.parses a ≡ true) found
      → All NewsHasBytes ns
      → after_read R w name direction (key_of name flipped) (map (notice_of R db) ns) found
        ≡ goes_on (found ∷ heard name flipped ns)
  unfolding allow_keyspace_notification
  after_read_lem flipped ns [] ok p h =
      rw
        (
          ok.has_address,
          ok.connects,
          ok.configures,
          ok.takes_setting,
          ok.subscribes,
          work-on_notice flipped ns h,
        )
        refl
  after_read_lem flipped ns (a ∷ found) ok p h =
      rw
        (
          p.0,
          ok.has_address,
          ok.connects,
          ok.configures,
          ok.takes_setting,
          ok.subscribes,
          work-on_notice flipped ns h,
        )
        refl

-- A registration under a direction that flips reads, after whatever registrations have come to an
-- empty database, exactly the addresses that are registered for its name under the flipped direction,
-- the latest first; it then goes on to do so at each notice of a push, and at no other notice, and
-- does not panic. Conditions: the server answers it, it parses these addresses, and a name's parts are
-- bytes.
pub register_stream-reads :
    (R : Redis) (db : R.Database) (w : World) (name : GdpName) (direction flipped : Text)
    (rs : List Registration) (ns : List News)
    → RedisLaws R
    → ((k : Text) → R.lrange k db ≡ [])
    → IsAnswered w
    → flip_direction direction ≡ done flipped
    → IsBytes name
    → All HasBytes rs
    → All NewsHasBytes ns
    → All (λ a. w.parses a ≡ true) (addresses name flipped rs)
    → register_stream R w name direction (registered R rs db) (map (notice_of R db) ns)
      ≡ goes_on (addresses name flipped rs ∷ heard name flipped ns)
unfolding register_stream get_entity_from_database
register_stream-reads R db w name direction flipped rs ns laws empty ok flips hn h k parse =
    let heard_from =
      after_read R w name direction (key_of name flipped) (map (notice_of R db) ns) in
    rw (ok.has_url, flips)
      (ap
          (λ b.
            expect (get_entity_from_database R b (key_of name flipped) (registered R rs db))
              heard_from)
          ok.reads
        ∙ ap heard_from (lrange-addresses R laws db empty w name direction hn rs flipped h)
        ∙ after_read_lem R laws db empty w name direction hn flipped ns (addresses name flipped rs)
            ok parse k)
