-- ===== src/Tests/Registry.antt =====
-- A Redis server in memory, and the registrations of the UDP transport on it.
use rt_fogros.Prelude.{
  ℕ, Text, codes, text_beq, text_beq_iff, text_eq, ap, ◌∙◌, ◌≡◌, refl, Bool, true, false,
  Bool-cases, inl, inr, none, List, [], ◌∷◌, map, if◌then◌else◌, arith,
}
use rt_fogros.Prelude.Assoc.{Assoc, get, insert, remove, get-insert, get-remove, or_empty}
use rt_fogros.Prelude.Tasks.{goes_on}
use rt_fogros.Packet.Name.{GdpName, zero_name, name_beq}
use rt_fogros.Start.Numbers.{parse_unsigned, split_on}
use rt_fogros.Start.Address.{get_rib_server_address, get_redis_url, get_redis_address_and_port}
use rt_fogros.Udp.Redis.{Redis, RedisLaws}
use rt_fogros.Udp.Registration.{flip_direction, World, register_stream}
use rt_fogros.Udp.Addresses.{Registration, registered}
use rt_fogros.Udp.Registered.{IsAnswered, News, notice_of, register_stream-reads}
use rt_fogros.Tests.Routes.{chatter}

-- A key's list, the latest in front.
abbrev list_at : Text → Assoc Text (List Text) → List Text
list_at k db = or_empty (get k db)

abbrev memory : Redis
memory = record {
  Database = Assoc Text (List Text);
  lpush = λ k v db. insert k (v ∷ list_at k db) db;
  lrange = list_at;
  del = remove;
}

list_at-insert :
    (k j : Text) (vs : List Text) (db : Assoc Text (List Text))
    → list_at j (insert k vs db) ≡ (if text_beq k j then vs else list_at j db)
list_at-insert k j vs db = elim (Bool-cases (text_beq k j)) [
  | inl same ↦ rw (get-insert k j vs db, same) refl
  | inr other ↦ rw (get-insert k j vs db, other) refl
]

-- The list that grows is that of the key.
grown :
    (k v j : Text) (db : Assoc Text (List Text))
    → list_at j (insert k (v ∷ list_at k db) db)
      ≡ (if text_beq k j then v ∷ list_at j db else list_at j db)
grown k v j db = list_at-insert k j (v ∷ list_at k db) db ∙ elim (Bool-cases (text_beq k j)) [
  | inl same ↦ rw same (ap (λ i. v ∷ list_at i db) ((text_beq_iff k j).0 same))
  | inr other ↦ rw other refl
]

list_at-remove :
    (k j : Text) (db : Assoc Text (List Text))
    → list_at j (remove k db) ≡ (if text_beq k j then [] else list_at j db)
list_at-remove k j db = elim (Bool-cases (text_beq k j)) [
  | inl same ↦ rw (get-remove k j db, same) refl
  | inr other ↦ rw (get-remove k j db, other) refl
]

memory_laws : RedisLaws memory
memory_laws = record { lrange-lpush = grown; lrange-del = list_at-remove }

abbrev is_utf8 : List ℕ → Bool
is_utf8 bytes = true

abbrev parses : Text → Bool
parses address = true

-- A machine that the server answers, and one whose push does not come through.
abbrev online : World
online = record {
  is_utf8 = is_utf8;
  variable = none;
  pushes = true;
  reads = true;
  parses = parses;
  connects = true;
  configures = true;
  takes_setting = true;
  subscribes = true;
}

abbrev lost : World
lost = record online { pushes = false }

online-IsAnswered : IsAnswered online
unfolding get_redis_url get_redis_address_and_port get_rib_server_address split_on parse_unsigned
online-IsAnswered = record {
  url = codes "redis://3.18.194.127:8002";
  has_url = refl;
  at = (codes "3.18.194.127", 8002);
  has_address = refl;
  reads = refl;
  connects = refl;
  configures = refl;
  takes_setting = refl;
  subscribes = refl;
}

abbrev registration : World → GdpName → Text → Text → Registration
registration world name direction address = record {
  world = world;
  topic_gdp_name = name;
  direction = direction;
  address = address;
}

-- A receiver of the topic, one of another topic, a sender, and a receiver whose push is lost.
abbrev first : List Registration
first =
    registration online chatter (codes "RECEIVER-receiver") (codes "10.0.0.1:80")
    ∷ registration online zero_name (codes "RECEIVER-receiver") (codes "10.0.0.2:80")
    ∷ registration online chatter (codes "SENDER-sender") (codes "10.0.0.3:80")
    ∷ registration lost chatter (codes "RECEIVER-receiver") (codes "10.0.0.4:80")
    ∷ []

-- One more receiver comes later.
abbrev more : List Registration
more =
    registration online chatter (codes "RECEIVER-receiver") (codes "10.0.0.1:80")
    ∷ registration online chatter (codes "RECEIVER-receiver") (codes "10.0.0.5:80")
    ∷ []

abbrev news : List News
news =
    record { received = codes "expire"; registrations = first }
    ∷ record { received = codes "lpush"; registrations = more }
    ∷ []

register_stream-reads_example :
    register_stream memory online chatter
      (codes "SENDER-sender")
      (registered memory first [])
      (map (notice_of memory []) news)
    ≡ goes_on ((codes "10.0.0.1:80" ∷ []) ∷ (codes "10.0.0.5:80" ∷ codes "10.0.0.1:80" ∷ []) ∷ [])
unfolding flip_direction text_beq get name_beq get_redis_url get_rib_server_address
register_stream-reads_example =
    register_stream-reads memory [] online chatter (codes "SENDER-sender")
      (codes "RECEIVER-receiver") first news memory_laws (λ k. refl) online-IsAnswered refl
      (omega arith) (omega arith) (omega arith) (refl, tt)
