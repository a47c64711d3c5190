-- ===== src/Rib/Handler.antt =====
-- `RoutingInformationBase` and the loop of `local_rib_handler` of fogrs-core/src/rib.rs. Its receivers
-- stay alive as long as it runs, so a send succeeds.
use rt_fogros.Prelude.{Bool, Option, none, some, List, [], ◌∷◌, map, if◌then◌else◌, contains}
use rt_fogros.Prelude.Assoc.{Assoc, get, push, remove}
use rt_fogros.Packet.Name.{GdpName, name_eq}
use rt_fogros.Packet.Types.{GdpNameRecord, GdpNameRecordType, empty, info, query, update}

pub record RoutingInformationBase : Type 0 where
  pub routing_table : Assoc GdpName (List GdpNameRecord)

unfoldable pub put : GdpName → GdpNameRecord → RoutingInformationBase → RoutingInformationBase
put key value rib = record { routing_table = push key value rib.routing_table }

unfoldable pub lookup : GdpName → RoutingInformationBase → Option (List GdpNameRecord)
lookup key rib = get key rib.routing_table

-- What the handler keeps: the base, and who asked for a name that it did not have.
pub record Handler : Type 0 where
  pub rib_store : RoutingInformationBase
  pub pending_routing_records : Assoc GdpName (List GdpName)

abbrev pub new_handler : Handler
new_handler = record { rib_store = record { routing_table = [] }; pending_routing_records = [] }

-- A round: the next state, and the responses in the order in which they are sent.
pub record Round : Type 0 where
  pub handler : Handler
  pub responses : List GdpNameRecord

-- A record as an answer to who asked.
abbrev pub answer : GdpNameRecord → GdpName → GdpNameRecord
answer record_found source = record record_found { record_type = info; source_gdpname = source }

-- "Not here yet."
abbrev pub not_found : GdpName → GdpName → GdpNameRecord
not_found name source = record {
  record_type = empty;
  gdpname = name;
  source_gdpname = source;
  webrtc_offer = none;
  ip_address = none;
  ros = none;
  indirect = none;
}

-- Is the source among those that wait?
abbrev pub already_pending : GdpName → Option (List GdpName) → Bool
already_pending source none = Bool.false
already_pending source (some sources) = contains source sources

abbrev pub remember : Handler → GdpNameRecord → Round
remember h q =
    if already_pending q.source_gdpname (get q.gdpname h.pending_routing_records)
    then record { handler = h; responses = [] }
    else record {
      handler = record h {
        pending_routing_records = push q.gdpname q.source_gdpname h.pending_routing_records;
      };
      responses = not_found q.gdpname q.source_gdpname ∷ [];
    }

-- `match rib_store.get(query.gdpname)`
abbrev pub reply : Handler → GdpNameRecord → Option (List GdpNameRecord) → Round
reply h q (some records) = record {
  handler = h;
  responses = map (λ r. answer r q.source_gdpname) records;
}
reply h q none = remember h q

unfoldable pub on_query : Handler → GdpNameRecord → Round
unfolding lookup
on_query h q = reply h q (lookup q.gdpname h.rib_store)

unfoldable pub on_update : Handler → GdpNameRecord → Round
unfolding put
on_update h q = record {
  handler = record h { rib_store = put q.gdpname q h.rib_store };
  responses = [];
}

-- The answers to those that wait for the name.
abbrev pub answers : GdpNameRecord → Option (List GdpName) → List GdpNameRecord
answers q none = []
answers q (some sources) = map (answer q) sources

unfoldable pub on_info : Handler → GdpNameRecord → Round
unfolding put
on_info h q = record {
  handler = record {
    rib_store = put q.gdpname q h.rib_store;
    pending_routing_records = remove q.gdpname h.pending_routing_records;
  };
  responses = answers q (get q.gdpname h.pending_routing_records);
}

-- `match query.record_type`
abbrev pub dispatch : Handler → GdpNameRecord → GdpNameRecordType → Round
dispatch h q query = on_query h q
dispatch h q update = on_update h q
dispatch h q info = on_info h q
dispatch h q _ = record { handler = h; responses = [] }

unfoldable pub step : Handler → GdpNameRecord → Round
step h q = dispatch h q q.record_type

-- The state after the records that came in, one after the other.
unfoldable pub run : Handler → List GdpNameRecord → Handler
run h [] = h
run h (q ∷ qs) = run (step h q).handler qs
