-- ===== src/Start/Ports.antt =====
-- The port of fogrs-core/src/db.rs.
use rt_fogros.Prelude.{ℕ, ◌<◌, ◌≡◌, refl, arith, Text, Bool, true, some, List, ◌∷◌, ◌++◌, done}
use rt_fogros.Start.Numbers.{Lacks, parse_unsigned-IsNumber, split_on-one, split_on-more}
use rt_fogros.Start.Address.{get_rib_server_address, parse_u16, get_redis_address_and_port}

-- An address and a port with a colon between them are read back as the address and the number of the
-- port, which is below 65536. Condition: the address has no colon of its own.
address_reads_back :
    (is_utf8 : List ℕ → Bool) (address port : Text) (n : ℕ)
    → Lacks b':' address
    → parse_u16 port ≡ some n
    → is_utf8 (address ++ b':' ∷ port) ≡ true
    → (get_redis_address_and_port is_utf8 (some (address ++ b':' ∷ port)) ≡ done (address, n))
      × (n < 65536)
unfolding get_redis_address_and_port get_rib_server_address
address_reads_back is_utf8 address port n h e u =
    let (clean, _, small) = parse_unsigned-IsNumber 65536 port n (omega arith) e in
    (rw (u, split_on-more b':' address port h, split_on-one b':' port clean, e) refl, small)
