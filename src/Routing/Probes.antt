-- ===== src/Routing/Probes.antt =====
-- The latency probes of fogrs-core/src/routing_manager.rs: `get_ip_address`,
-- `send_ping_from_interface` and `get_latency_for_remote_ip_addr_from_all_interfaces`. Sockets, the
-- stream and the clock are what the environment answers.
use rt_fogros.Prelude.{
  ℕ, Text, codes, text_beq, Bool, Bool-cases, inl, inr, true, false, Option, none, some, List, [],
  ◌∷◌, ◌++◌, ◌≡◌, refl, if◌then◌else◌, Outcome, done, panic, ◌>>=◌,
}

-- An address of an interface; the port that is put to it is 0.
data IpAddr : Type 0 where
  v4 v6 : Text → IpAddr

-- The first address of the version, the loop over `interface.ips`.
abbrev first_v4 : List IpAddr → Option Text
first_v4 [] = none
first_v4 (v4 ip ∷ ips) = some ip
first_v4 (v6 ip ∷ ips) = first_v4 ips

abbrev or_later : Option Text → Option Text → Option Text
or_later none later = later
or_later (some ip) later = some ip

-- The loop over the interfaces goes on behind one of the name that has no such address.
unfoldable get_ip_address : Text → List (Text × List IpAddr) → Option Text
get_ip_address interface_name [] = none
get_ip_address interface_name ((name, ips) ∷ interfaces) =
    let later = get_ip_address interface_name interfaces in
    if text_beq name interface_name then or_later (first_v4 ips) later else later

-- What the select finds first: bytes, or a second in which none come.
pub data Heard : Type 0 where
  response : List ℕ → Heard
  silence : Heard

-- Whether the socket binds, to any address and then to the interface, whether the stream connects,
-- takes the first ping, the second one and the flush, and what is heard.
pub record Probe : Type 0 where
  pub binds : Bool
  pub binds_interface : Bool
  pub connects : Bool
  pub takes_first : Bool
  pub takes_second : Bool
  pub flushes : Bool
  pub heard : Heard

-- `Ok` is `true`.
abbrev pub on_heard : (List ℕ → Bool) → Heard → Outcome Bool
on_heard is_utf8 silence = done false
on_heard is_utf8 (response bytes) =
    if is_utf8 bytes
    then (if text_beq bytes (codes "pong") then done true else done false)
    else panic

-- The pings that were written to the stream, and how the function ends.
pub record Pinged : Type 0 where
  pub written : List (List ℕ)
  pub outcome : Outcome Bool

abbrev pinged : List (List ℕ) → Outcome Bool → Pinged
pinged written outcome = record { written = written; outcome = outcome }

abbrev buffer : List ℕ
buffer = codes "ping"

-- The ping is written twice; the first write may fail, the second is unwrapped.
unfoldable pub send_ping_from_interface : (List ℕ → Bool) → Probe → Pinged
send_ping_from_interface is_utf8 p =
    if p.binds
    then (if p.binds_interface
        then (if p.connects
            then (if p.takes_first
                then (if p.takes_second
                    then (if p.flushes
                        then pinged (buffer ∷ buffer ∷ []) (on_heard is_utf8 p.heard)
                        else pinged (buffer ∷ buffer ∷ []) panic)
                    else pinged (buffer ∷ []) panic)
                else pinged [] (done false))
            else pinged [] (done false))
        else pinged [] panic)
    else pinged [] panic

-- An interface, its probe and the time that it takes.
pub record Probed : Type 0 where
  pub interface_name : Text
  pub probe : Probe
  pub elapsed : ℕ

unfoldable pub get_latency_for_remote_ip_addr_from_all_interfaces :
    (List ℕ → Bool) → List Probed → Outcome (List (Text × ℕ))
get_latency_for_remote_ip_addr_from_all_interfaces is_utf8 [] = done []
get_latency_for_remote_ip_addr_from_all_interfaces is_utf8 (i ∷ interfaces) = do
  ok ← (send_ping_from_interface is_utf8 i.probe).outcome
  latencies ← get_latency_for_remote_ip_addr_from_all_interfaces is_utf8 interfaces
  done (if ok then (i.interface_name, i.elapsed) ∷ latencies else latencies)

-- The addresses of all interfaces of a name.
abbrev ips_of : Text → List (Text × List IpAddr) → List IpAddr
ips_of interface_name [] = []
ips_of interface_name ((name, ips) ∷ interfaces) =
    let later = ips_of interface_name interfaces in
    if text_beq name interface_name then ips ++ later else later

first_v4-append : (xs ys : List IpAddr) → first_v4 (xs ++ ys) ≡ or_later (first_v4 xs) (first_v4 ys)
first_v4-append [] ys = refl
first_v4-append (v4 ip ∷ xs) ys = refl
first_v4-append (v6 ip ∷ xs) ys = first_v4-append xs ys

-- The address is the first of the version among those of all interfaces of the name.
get_ip_address_lem :
    (n : Text) (is : List (Text × List IpAddr)) → get_ip_address n is ≡ first_v4 (ips_of n is)
unfolding get_ip_address
get_ip_address_lem n [] = refl
get_ip_address_lem n ((name, ips) ∷ is) =
    let rest = get_ip_address_lem n is in
    elim (Bool-cases (text_beq name n)) [
      | inl same ↦ rw (same, rest, first_v4-append ips (ips_of n is)) refl
      | inr other ↦ rw (other, rest) refl
    ]
