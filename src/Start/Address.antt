-- ===== src/Start/Address.antt =====
-- The addresses of fogrs-core/src/util.rs and fogrs-core/src/db.rs, the port of
-- fogrs-core/src/api_server.rs and the file of fogrs-core/src/logger.rs. An environment variable is its
-- bytes, if it is set.
use rt_fogros.Prelude.{
  ℕ, Text, codes, Bool, Option, none, some, List, [], ◌∷◌, ◌++◌, if◌then◌else◌, Outcome, done,
  panic, ◌>>=◌, unwrap,
}
use rt_fogros.Start.Numbers.{parse_unsigned, split_on}

-- `into_string().unwrap()`, or the default.
abbrev pub variable_or : Text → (List ℕ → Bool) → Option (List ℕ) → Outcome Text
variable_or default is_utf8 none = done default
variable_or default is_utf8 (some bytes) = if is_utf8 bytes then done bytes else panic

unfoldable pub get_signaling_server_address : (List ℕ → Bool) → Option (List ℕ) → Outcome Text
get_signaling_server_address = variable_or (codes "20.172.64.185:8000")

unfoldable pub get_rib_server_address : (List ℕ → Bool) → Option (List ℕ) → Outcome Text
get_rib_server_address = variable_or (codes "3.18.194.127:8002")

unfoldable pub get_redis_url : (List ℕ → Bool) → Option (List ℕ) → Outcome Text
get_redis_url is_utf8 variable = do
  address ← get_rib_server_address is_utf8 variable
  done (codes "redis://" ++ address)

abbrev pub parse_u16 : Text → Option ℕ
parse_u16 = parse_unsigned 65536

abbrev pub address_and_port : List Text → Outcome (Text × ℕ)
address_and_port (address ∷ port ∷ pieces) = unwrap (parse_u16 port) >>= λ p. done (address, p)
address_and_port _ = panic

unfoldable pub get_redis_address_and_port : (List ℕ → Bool) → Option (List ℕ) → Outcome (Text × ℕ)
get_redis_address_and_port is_utf8 variable = do
  url ← get_rib_server_address is_utf8 variable
  address_and_port (split_on b':' url)

-- `read_certificate` of fogrs-core/src/service_manager.rs, `read` being what a path holds.
unfoldable read_certificate :
    (List ℕ → Bool) → (Text → Option (List ℕ)) → Option (List ℕ) → Outcome (List ℕ)
read_certificate is_utf8 read variable = do
  crypto_path ←
      variable_or (codes "./sgc_launch/configs/crypto/test_cert/test_cert-private.pem") is_utf8
        variable
  unwrap (read crypto_path)

-- A variable that is no UTF-8 panics, as one that is no number does.
unfoldable pub api_port : (List ℕ → Bool) → Option (List ℕ) → Outcome ℕ
api_port is_utf8 none = done 3000
api_port is_utf8 (some bytes) = if is_utf8 bytes then unwrap (parse_u16 bytes) else panic

-- `handle_logs`: what the file has after the messages, each write taken.
unfoldable pub handle_logs : List ℕ → List Text → List ℕ
handle_logs file [] = file
handle_logs file (message ∷ messages) = handle_logs (file ++ message ++ 10 ∷ []) messages
