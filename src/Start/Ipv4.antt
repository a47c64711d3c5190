-- ===== src/Start/Ipv4.antt =====
-- `str_to_ipv4` of fogrs-utils/src/conversion.rs and the levels of fogrs-utils/src/types.rs.
use rt_fogros.Prelude.{
  ℕ, ◌<◌, ◌≡◌, refl, append_assoc, arith, Text, codes, text_beq, some, List, [], ◌∷◌, ◌++◌,
  if◌then◌else◌, Outcome, done, panic, ◌>>=◌, unwrap,
}
use rt_fogros.Packet.Printing.{decimal}
use rt_fogros.Start.Numbers.{
  Lacks, parse_unsigned, split_on, parse_unsigned-IsNumber, split_on-one, split_on-more,
}

record Ipv4Addr : Type 0 where
  a : ℕ
  b : ℕ
  c : ℕ
  d : ℕ

-- The pieces, each of them unwrapped.
abbrev octets : List Text → Outcome (List ℕ)
octets [] = done []
octets (s ∷ ss) = do n ← unwrap (parse_unsigned 256 s); ns ← octets ss; done (n ∷ ns)

-- An index past the end panics; what stands behind the fourth is not looked at.
abbrev first_four : List ℕ → Outcome Ipv4Addr
first_four (w ∷ x ∷ y ∷ z ∷ rest) = done (record { a = w; b = x; c = y; d = z })
first_four _ = panic

unfoldable str_to_ipv4 : Text → Outcome Ipv4Addr
str_to_ipv4 ip_addr_str = octets (split_on b'.' ip_addr_str) >>= first_four

data LogLevel : Type 0 where
  debug info warn error : LogLevel

-- `LogLevel::from_str`, which refuses nothing.
unfoldable from_str : Text → LogLevel
from_str s =
    if text_beq s (codes "debug")
    then debug
    else if text_beq s (codes "info")
    then info
    else if text_beq s (codes "warn")
    then warn
    else if text_beq s (codes "error")
    then error
    else info

-- The names of the levels in a configuration.
unfoldable rename : LogLevel → Text
rename debug = codes "debug"
rename info = codes "info"
rename warn = codes "warn"
rename error = codes "error"

from_str-rename : (level : LogLevel) → from_str (rename level) ≡ level
unfolding from_str rename text_beq
from_str-rename debug = refl
from_str-rename info = refl
from_str-rename warn = refl
from_str-rename error = refl

-- `Display` of an address.
unfoldable dotted : Ipv4Addr → Text
dotted ip = decimal ip.a ++ b'.' ∷ (decimal ip.b ++ b'.' ∷ (decimal ip.c ++ b'.' ∷ decimal ip.d))

abbrev IsAddress : Ipv4Addr → Type 0
IsAddress ip = (ip.a < 256) × (ip.b < 256) × (ip.c < 256) × (ip.d < 256)

parse_unsigned-decimal : (n : ℕ) → n < 256 → parse_unsigned 256 (decimal n) ≡ some n
unfolding parse_unsigned decimal
parse_unsigned-decimal n lt = ground arith

reads_octet : (n : ℕ) → n < 256 → (parse_unsigned 256 (decimal n) ≡ some n) × Lacks b'.' (decimal n)
reads_octet n lt =
    let reads = parse_unsigned-decimal n lt in
    (reads, (parse_unsigned-IsNumber 256 (decimal n) n (omega arith) reads).1)

octets-more :
    (n : ℕ) (t : Text)
    → n < 256
    → octets (split_on b'.' (decimal n ++ b'.' ∷ t))
      ≡ (octets (split_on b'.' t) >>= λ ns. done (n ∷ ns))
octets-more n t lt =
    let (reads, lacks) = reads_octet n lt in rw (split_on-more b'.' (decimal n) t lacks, reads) refl

octets-one : (n : ℕ) → n < 256 → octets (split_on b'.' (decimal n)) ≡ done (n ∷ [])
octets-one n lt =
    let (reads, lacks) = reads_octet n lt in rw (split_on-one b'.' (decimal n) lacks, reads) refl

-- The printed form of an address reads back as the address, and so it does with more octets behind it,
-- which are not looked at; three octets alone panic.
str_to_ipv4-dotted :
    (ip : Ipv4Addr) (more : Text) (ns : List ℕ)
    → IsAddress ip
    → octets (split_on b'.' more) ≡ done ns
    → (str_to_ipv4 (dotted ip) ≡ done ip)
      × (str_to_ipv4 (dotted ip ++ b'.' ∷ more) ≡ done ip)
      × (str_to_ipv4 (decimal ip.a ++ b'.' ∷ (decimal ip.b ++ b'.' ∷ decimal ip.c)) ≡ panic)
unfolding str_to_ipv4 dotted
str_to_ipv4-dotted ip more ns (a, b, c, d) reads = (
  rw (octets-more ip.a _ a, octets-more ip.b _ b, octets-more ip.c _ c, octets-one ip.d d) refl,
  rw
      (
        append_assoc (decimal ip.a) _ (b'.' ∷ more),
        append_assoc (decimal ip.b) _ (b'.' ∷ more),
        append_assoc (decimal ip.c) _ (b'.' ∷ more),
        octets-more ip.a _ a,
        octets-more ip.b _ b,
        octets-more ip.c _ c,
        octets-more ip.d more d,
        reads,
      )
      refl,
  rw (octets-more ip.a _ a, octets-more ip.b _ b, octets-one ip.c c) refl,
)
