-- ===== src/Tests/Probes.antt =====
-- The latency probes' theorem on a concrete reader and interface.
use rt_fogros.Prelude.{◌≡◌, refl, codes, true, none, [], ◌∷◌, concat, take, done, ◌>>=◌}
use rt_fogros.Framing.Reader.{new_reader}
use rt_fogros.Routing.Probes.{
  Probe, response, send_ping_from_interface, get_latency_for_remote_ip_addr_from_all_interfaces,
}
use rt_fogros.Routing.Probed.{Succeeds, answers, heard_from, probed, two_pings}
use rt_fogros.Tests.Toy.{toy}

-- A probe that hears one pong.
abbrev probe : Probe
probe = record {
  binds = true;
  binds_interface = true;
  connects = true;
  takes_first = true;
  takes_second = true;
  flushes = true;
  heard = response (codes "pong");
}

succeeds : Succeeds probe
succeeds = record {
  binds = refl;
  binds_interface = refl;
  connects = refl;
  takes_first = refl;
  takes_second = refl;
  flushes = refl;
}

two_pings_example :
    let pings = (send_ping_from_interface (λ s. true) probe).written in
    let ask = get_latency_for_remote_ip_addr_from_all_interfaces (λ s. true) in
    (probe.heard ≡ heard_from (answers toy (new_reader none) (take 1 pings))
      → ask (probed (codes "eth0") 7 probe ∷ []) ≡ (ask [] >>= λ l. done ((codes "eth0", 7) ∷ l)))
    × (probe.heard ≡ heard_from (answers toy (new_reader none) (concat pings ∷ []))
        → ask (probed (codes "eth0") 7 probe ∷ []) ≡ ask [])
    × (probe.heard ≡ heard_from (answers toy (new_reader none) pings)
        → ask (probed (codes "eth0") 7 probe ∷ []) ≡ ask [])
two_pings_example =
    two_pings (λ s. true) probe succeeds (codes "eth0") 7 [] toy (new_reader none) refl refl refl
      refl refl
