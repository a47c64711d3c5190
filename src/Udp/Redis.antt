-- ===== src/Udp/Redis.antt =====
-- fogrs-core/src/db.rs: what the UDP transport does with a Redis server. The server is a parameter: a
-- state with the commands that the code sends it, and the documented behaviour of these. What the code
-- cannot reach fails (`false`, `none`), and the database stays as it was.
use rt_fogros.Prelude.{
  ℕ, Text, text_beq, codes, ◌≡◌, Bool, true, false, Option, none, some, List, [], ◌∷◌, ◌++◌,
  if◌then◌else◌, Outcome, done, panic, ◌>>=◌,
}
use rt_fogros.Start.Address.{get_redis_address_and_port}

pub record Redis : Type 1 where
  pub Database : Type 0
  pub lpush : Text → Text → Database → Database
  pub lrange : Text → Database → List Text
  pub del : Text → Database → Database

-- A list of a key grows in front, `LRANGE key 0 -1` is the whole list, a key that is not there has an
-- empty one, and no command touches another key.
pub record RedisLaws (R : Redis) : Type 0 where
  pub lrange-lpush :
      (k v j : Text) (db : R.Database)
      → R.lrange j (R.lpush k v db) ≡ (if text_beq k j then v ∷ R.lrange j db else R.lrange j db)
  pub lrange-del :
      (k j : Text) (db : R.Database)
      → R.lrange j (R.del k db) ≡ (if text_beq k j then [] else R.lrange j db)

module _ (R : Redis) where
  -- Whether the entity was added, and the database.
  unfoldable pub add_entity_to_database_as_transaction :
      Bool → Text → Text → R.Database → Bool × R.Database
  add_entity_to_database_as_transaction reached key value db =
      if reached then (true, R.lpush key value db) else (false, db)

  unfoldable pub get_entity_from_database : Bool → Text → R.Database → Option (List Text)
  get_entity_from_database reached key db = if reached then some (R.lrange key db) else none

  -- A connection that cannot be opened panics here.
  unfoldable pub clear_topic_key :
      (List ℕ → Bool) → Option (List ℕ) → Bool → Text → R.Database → Outcome R.Database
  clear_topic_key is_utf8 variable reached topic db =
      get_redis_address_and_port is_utf8 variable >>= λ at.
      if reached
      then done (R.del (topic ++ codes "-sub") (R.del (topic ++ codes "-pub") db))
      else panic

-- An error where the server cannot be reached, a panic where it refuses the setting.
unfoldable pub allow_keyspace_notification : Bool → Bool → Outcome Bool
allow_keyspace_notification reached taken =
    if reached then (if taken then done true else panic) else done false
