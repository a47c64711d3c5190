-- ===== src/Udp/Registration.antt =====
-- `flip_direction` and `register_stream` of fogrs-core/src/network/udp.rs.
use rt_fogros.Prelude.{
  ℕ, Text, codes, text_beq, Bool, Option, none, some, List, [], ◌∷◌, ◌++◌, if◌then◌else◌, Outcome,
  done, panic,
}
use rt_fogros.Prelude.Tasks.{Task, goes_on, panics, work, ◌then◌, require}
use rt_fogros.Packet.Name.{GdpName}
use rt_fogros.Packet.Hex.{debug_name}
use rt_fogros.Start.Address.{get_redis_url, get_redis_address_and_port}
use rt_fogros.Udp.Redis.{
  Redis, add_entity_to_database_as_transaction, get_entity_from_database,
  allow_keyspace_notification,
}

abbrev mapping : List (Text × Text)
mapping =
    (codes "request-receiver", codes "request-sender")
    ∷ (codes "response-sender", codes "response-receiver")
    ∷ (codes "request-sender", codes "request-receiver")
    ∷ (codes "response-receiver", codes "response-sender")
    ∷ (codes "SENDER-sender", codes "RECEIVER-receiver")
    ∷ (codes "RECEIVER-receiver", codes "SENDER-sender")
    ∷ []

abbrev find_direction : List (Text × Text) → Text → Outcome Text
find_direction [] direction = panic
find_direction ((k, v) ∷ rest) direction =
    if text_beq k direction then done v else find_direction rest direction

-- What it returns is always `Some`, so the model gives the text itself.
unfoldable pub flip_direction : Text → Outcome Text
flip_direction direction = find_direction mapping direction

-- `format!("{:?}-{:}", topic_gdp_name, direction)`
unfoldable pub key_of : GdpName → Text → Text
key_of topic_gdp_name direction = debug_name topic_gdp_name ++ codes "-" ++ direction

-- What the environment answers: the variable with the server's address, whether the server can be
-- reached by the push and by the read, which texts parse as an address, and whether the connection for
-- notifications opens, takes the setting and subscribes.
pub record World : Type 0 where
  pub is_utf8 : List ℕ → Bool
  pub variable : Option (List ℕ)
  pub pushes : Bool
  pub reads : Bool
  pub parses : Text → Bool
  pub connects : Bool
  pub configures : Bool
  pub takes_setting : Bool
  pub subscribes : Bool

-- The value of a call that may panic, for what the task does next.
abbrev pub bind : {A : Type 0} {B : Type 0} → Outcome A → (A → Task B) → Task B
bind (done a) f = f a
bind panic f = panics []

-- `expect` of a result.
abbrev pub expect : {A : Type 0} {B : Type 0} → Option A → (A → Task B) → Task B
expect (some a) f = f a
expect none f = panics []

-- The first address is parsed.
abbrev pub parse_first : (Text → Bool) → List Text → Task (List Text)
parse_first parses [] = goes_on []
parse_first parses (address ∷ rest) = require (parses address)

-- `allow_keyspace_notification(&redis_url).expect(…)`
abbrev pub expect_setting : Outcome Bool → Task (List Text)
expect_setting (done b) = require b
expect_setting panic = panics []

module _ (R : Redis) where
  -- What comes on the subscription: a message that is no readable text, an operation on the key, with
  -- the database as it is read then, if it can be reached, or nothing.
  pub data Notice : Type 0 where
    unreadable nothing : Notice
    operation : Text → Bool → R.Database → Notice

  -- A round of the loop: the addresses that it reads.
  unfoldable pub on_notice : Text → Notice → Task (List Text)
  on_notice receiver_topic unreadable = panics []
  on_notice receiver_topic nothing = goes_on []
  on_notice receiver_topic (operation received reached db) =
      if text_beq received (codes "lpush")
      then expect (get_entity_from_database R reached receiver_topic db)
          (λ found. goes_on (found ∷ []))
      else goes_on []

  module _ (w : World) (topic_gdp_name : GdpName) (direction : Text) where
    abbrev pub push_to : Outcome Text → Text → R.Database → R.Database
    push_to panic address db = db
    push_to (done redis_url) address db =
        (add_entity_to_database_as_transaction R w.pushes (key_of topic_gdp_name direction) address
          db).1

    -- The database after the push, if it comes to it; whether it succeeds is not looked at.
    unfoldable pub push_address : Text → R.Database → R.Database
    push_address address db = push_to (get_redis_url w.is_utf8 w.variable) address db

    -- What follows the read.
    abbrev pub after_read : Text → List Notice → List Text → Task (List Text)
    after_read receiver_topic notices updated_receivers =
        goes_on (updated_receivers ∷ [])
        then parse_first w.parses updated_receivers
        then bind (get_redis_address_and_port w.is_utf8 w.variable) (λ at. require w.connects)
        then expect_setting (allow_keyspace_notification w.configures w.takes_setting)
        then require w.subscribes
        then work (on_notice receiver_topic) notices

    -- What `register_stream` reads after its push, `db` being the database when it first reads. It has
    -- no end of its own, and does nothing with an address but read it.
    unfoldable pub register_stream : R.Database → List Notice → Task (List Text)
    register_stream db notices = bind (get_redis_url w.is_utf8 w.variable) λ redis_url.
        bind (flip_direction direction) λ flipped.
          let receiver_topic = key_of topic_gdp_name flipped in
          expect (get_entity_from_database R w.reads receiver_topic db)
            (after_read receiver_topic notices)
