-- ===== src/Routing/Probed.antt =====
-- A probe of fogrs-core/src/routing_manager.rs against the reader of fogrs-core/src/network/kcp.rs at
-- the peer, which answers pings.
use rt_fogros.Prelude.{
  ℕ, ◌≡◌, refl, ap, ◌∙◌, Text, codes, text_beq, Bool, true, false, take, none, List, [], ◌∷◌, ◌++◌,
  concat, Outcome, done, panic, ◌>>=◌,
}
use rt_fogros.Packet.Header.{Json}
use rt_fogros.Framing.Parser.{split_nul, parse_loop, parse_header_payload_pairs}
use rt_fogros.Framing.Frames.{nothing}
use rt_fogros.Framing.Incremental.{Holds}
use rt_fogros.Framing.Reader.{Reader, Step, closed, next, complete_previous, absorb, on_read}
use rt_fogros.Routing.Probes.{
  Heard, response, silence, Probe, Probed, on_heard, send_ping_from_interface,
  get_latency_for_remote_ip_addr_from_all_interfaces,
}

-- What a round of the reader writes back.
abbrev pub written_by : Outcome Step → List ℕ
written_by (done (next round)) = round.written
written_by (done closed) = []
written_by panic = []

-- What the probe hears, of what comes back in one read.
abbrev pub heard_from : List ℕ → Heard
heard_from [] = silence
heard_from (b ∷ bs) = response (b ∷ bs)

-- The socket, the stream and the writes succeed.
pub record Succeeds (p : Probe) : Type 0 where
  pub binds : p.binds ≡ true
  pub binds_interface : p.binds_interface ≡ true
  pub connects : p.connects ≡ true
  pub takes_first : p.takes_first ≡ true
  pub takes_second : p.takes_second ≡ true
  pub flushes : p.flushes ≡ true

abbrev pub probed : Text → ℕ → Probe → Probed
probed name elapsed p = record { interface_name = name; probe = p; elapsed = elapsed }

-- What the reader writes back on the chunks, each read alone from between two frames.
abbrev pub answers : Json → Reader → List (List ℕ) → List ℕ
answers j r [] = []
answers j r (chunk ∷ chunks) = written_by (on_read j true r chunk) ++ answers j r chunks

module _ (j : Json) (r : Reader) where
  pong_alone : written_by (on_read j true r (codes "ping")) ≡ codes "pong"
  unfolding on_read text_beq
  pong_alone = refl

  -- Two pings that come together are taken for a part of a header.
  silent_together :
      Holds r nothing
      → j.is_utf8 (codes "pingping") ≡ true
      → j.header_from_str (codes "pingping") ≡ none
      → written_by (on_read j true r (codes "pingping")) ≡ []
  unfolding on_read absorb complete_previous parse_header_payload_pairs parse_loop split_nul
  silent_together held utf8 refused = rw (held, utf8, refused) refl

module _ (is_utf8 : List ℕ → Bool) (p : Probe) (s : Succeeds p) where
  pings_lem : (send_ping_from_interface is_utf8 p).written ≡ codes "ping" ∷ codes "ping" ∷ []
  unfolding send_ping_from_interface
  pings_lem =
      rw (s.binds, s.binds_interface, s.connects, s.takes_first, s.takes_second, s.flushes) refl

  outcome_lem : (send_ping_from_interface is_utf8 p).outcome ≡ on_heard is_utf8 p.heard
  unfolding send_ping_from_interface
  outcome_lem =
      rw (s.binds, s.binds_interface, s.connects, s.takes_first, s.takes_second, s.flushes) refl

  module _ (name : Text) (elapsed : ℕ) (is : List Probed) where
    abbrev latencies : List Probed → Outcome (List (Text × ℕ))
    latencies = get_latency_for_remote_ip_addr_from_all_interfaces is_utf8

    bind-done : (m : Outcome (List (Text × ℕ))) → (m >>= λ l. done l) ≡ m
    bind-done (done l) = refl
    bind-done panic = refl

    listed :
        on_heard is_utf8 p.heard ≡ done true
        → latencies (probed name elapsed p ∷ is)
          ≡ (latencies is >>= λ l. done ((name, elapsed) ∷ l))
    unfolding get_latency_for_remote_ip_addr_from_all_interfaces
    listed h = rw (outcome_lem, h) refl

    left_out :
        on_heard is_utf8 p.heard ≡ done false
        → latencies (probed name elapsed p ∷ is) ≡ latencies is
    unfolding get_latency_for_remote_ip_addr_from_all_interfaces
    left_out h = rw (outcome_lem, h) (bind-done (latencies is))

    hears :
        (b : List ℕ) (o : Outcome Bool)
        → p.heard ≡ heard_from b
        → on_heard is_utf8 (heard_from b) ≡ o
        → on_heard is_utf8 p.heard ≡ o
    hears b o h e = ap (on_heard is_utf8) h ∙ e

    -- A probe whose socket, stream and writes succeed, to a peer whose reader is between two frames.
    -- Where it hears what the reader answers to the first of the pings that it has written alone, its
    -- interface is listed with its time. Where it hears what the reader answers to all of them in one
    -- read, which is nothing, and where it hears all the answers to them one by one in one read, the
    -- interface is left out although it reaches the peer. Conditions: the pings together are text and
    -- no header, and the pongs are text.
    pub two_pings :
        (j : Json) (r : Reader)
        → Holds r nothing
        → j.is_utf8 (codes "pingping") ≡ true
        → j.header_from_str (codes "pingping") ≡ none
        → is_utf8 (codes "pong") ≡ true
        → is_utf8 (codes "pongpong") ≡ true
        → let pings = (send_ping_from_interface is_utf8 p).written in
          (p.heard ≡ heard_from (answers j r (take 1 pings))
            → get_latency_for_remote_ip_addr_from_all_interfaces is_utf8
                (probed name elapsed p ∷ is)
              ≡ (get_latency_for_remote_ip_addr_from_all_interfaces is_utf8 is >>= λ l.
                  done ((name, elapsed) ∷ l)))
          × (p.heard ≡ heard_from (answers j r (concat pings ∷ []))
              → get_latency_for_remote_ip_addr_from_all_interfaces is_utf8
                  (probed name elapsed p ∷ is)
                ≡ get_latency_for_remote_ip_addr_from_all_interfaces is_utf8 is)
          × (p.heard ≡ heard_from (answers j r pings)
              → get_latency_for_remote_ip_addr_from_all_interfaces is_utf8
                  (probed name elapsed p ∷ is)
                ≡ get_latency_for_remote_ip_addr_from_all_interfaces is_utf8 is)
    unfolding text_beq
    two_pings j r held utf8 refused one two =
        let alone = pong_alone j r in
        let quiet = silent_together j r held utf8 refused in
        (
          λ h. listed (
              hears (codes "pong") (done true)
                (h
                  ∙ ap (λ w. heard_from (answers j r (take 1 w))) pings_lem
                  ∙ ap (λ b. heard_from (b ++ [])) alone)
                (rw one refl)),
          λ h. left_out (
              hears [] (done false)
                (h
                  ∙ ap (λ w. heard_from (answers j r (concat w ∷ []))) pings_lem
                  ∙ ap (λ b. heard_from (b ++ [])) quiet)
                refl),
          λ h. left_out (
              hears (codes "pongpong") (done false)
                (h
                  ∙ ap (λ w. heard_from (answers j r w)) pings_lem
                  ∙ ap (λ b. heard_from (b ++ (b ++ []))) alone)
                (rw two refl)),
        )
