-- ===== src/Udp/Addresses.antt =====
-- The lists of addresses that the registrations of fogrs-core/src/network/udp.rs make in the database.
use rt_fogros.Prelude.{
  ◌≡◌, refl, sym, ap, ◌∙◌, Text, text_beq, Bool, true, false, Bool-cases, ◌&&◌, inl, inr, List, [],
  ◌∷◌, ◌++◌, append_assoc, All, if◌then◌else◌, Outcome, done, panic,
}
use rt_fogros.Packet.Name.{GdpName, name_beq}
use rt_fogros.Packet.Spelling.{IsBytes}
use rt_fogros.Start.Address.{get_redis_url}
use rt_fogros.Udp.Redis.{Redis, RedisLaws, add_entity_to_database_as_transaction}
use rt_fogros.Udp.Registration.{key_of, World, push_to, push_address}
use rt_fogros.Udp.Keys.{key_of-beq}

-- A machine that registers an address.
pub record Registration : Type 0 where
  pub world : World
  pub topic_gdp_name : GdpName
  pub direction : Text
  pub address : Text

abbrev pub is_done : Outcome Text → Bool
is_done (done a) = true
is_done panic = false

-- The registration comes to the database.
abbrev pub arrives : World → Bool
arrives w = is_done (get_redis_url w.is_utf8 w.variable) && w.pushes

-- The addresses that are registered for a name and a direction, the latest first.
abbrev pub addresses : GdpName → Text → List Registration → List Text
addresses name direction [] = []
addresses name direction (r ∷ rs) =
    addresses name direction rs
    ++ (if arrives r.world && (name_beq r.topic_gdp_name name && text_beq r.direction direction)
        then r.address ∷ []
        else [])

abbrev pub HasBytes : Registration → Type 0
HasBytes r = IsBytes r.topic_gdp_name

module _ (R : Redis) where
  -- The database after the registrations.
  abbrev pub registered : List Registration → R.Database → R.Database
  registered [] db = db
  registered (r ∷ rs) db =
      registered rs (push_address R r.world r.topic_gdp_name r.direction r.address db)

  module _ (laws : RedisLaws R) where
    module _ (r : Registration) (name : GdpName) (direction : Text) (db : R.Database)
        (hr : IsBytes r.topic_gdp_name) (hn : IsBytes name) where
      -- What the registration adds to the list of the name and the direction.
      abbrev added : Bool → List Text
      added comes =
          if comes && (name_beq r.topic_gdp_name name && text_beq r.direction direction)
          then r.address ∷ []
          else []

      lrange-push :
          R.lrange
            (key_of name direction)
            (R.lpush (key_of r.topic_gdp_name r.direction) r.address db)
          ≡ added true ++ R.lrange (key_of name direction) db
      lrange-push =
          laws.lrange-lpush (key_of r.topic_gdp_name r.direction) r.address (key_of name direction)
            db
          ∙ rw (key_of-beq r.topic_gdp_name name r.direction direction hr hn)
              (prepended (name_beq r.topic_gdp_name name && text_beq r.direction direction))
        where
          prepended :
              (b : Bool)
              → (if b
                  then r.address ∷ R.lrange (key_of name direction) db
                  else R.lrange (key_of name direction) db)
                ≡ (if b then r.address ∷ [] else []) ++ R.lrange (key_of name direction) db
          prepended true = refl
          prepended false = refl

      lrange-push_to :
          (o : Outcome Text)
          → R.lrange
              (key_of name direction)
              (push_to R r.world r.topic_gdp_name r.direction o r.address db)
            ≡ added (is_done o && r.world.pushes) ++ R.lrange (key_of name direction) db
      unfolding add_entity_to_database_as_transaction
      lrange-push_to panic = refl
      lrange-push_to (done redis_url) = elim (Bool-cases r.world.pushes) [
        | inl comes ↦ rw comes lrange-push
        | inr lost ↦ rw lost refl
      ]

      lrange-push_address :
          R.lrange
            (key_of name direction)
            (push_address R r.world r.topic_gdp_name r.direction r.address db)
          ≡ added (arrives r.world) ++ R.lrange (key_of name direction) db
      unfolding push_address
      lrange-push_address = lrange-push_to (get_redis_url r.world.is_utf8 r.world.variable)

    pub lrange-registered :
        (rs : List Registration) (name : GdpName) (direction : Text) (db : R.Database)
        → All HasBytes rs
        → IsBytes name
        → R.lrange (key_of name direction) (registered rs db)
          ≡ addresses name direction rs ++ R.lrange (key_of name direction) db
    lrange-registered [] name direction db h hn = refl
    lrange-registered (r ∷ rs) name direction db h hn =
        lrange-registered rs name direction _ h.1 hn
        ∙ ap (λ l. addresses name direction rs ++ l)
            (lrange-push_address r name direction db h.0 hn)
        ∙ sym (append_assoc (addresses name direction rs) _ (R.lrange (key_of name direction) db))
