-- ===== src/Tests/Wire.antt =====
-- The signaling server's reading of a stream on a concrete message.
use rt_fogros.Prelude.{
  ℕ, ◌<◌, ◌≤◌, suc, ◌+◌, ◌≡◌, ◌⊎◌, refl, ap, ◌∙◌, arith, codes, [], ◌∷◌, length, take,
  length-append, ◌==◌, some, none, if◌then◌else◌, done,
}
use rt_fogros.Signaling.Server.{Message, nothing_sent, handle_client}
use rt_fogros.Signaling.Fresh.{subscribe_message}
use rt_fogros.Signaling.Wire.{Wire, WireLaws, handle_stream, message_read}

abbrev message : Message
message = subscribe_message (codes "chatter")

-- A printer with one form, of four bytes, and its reader, which looks at the length.
abbrev wire : Wire
wire = record {
  to_string = λ m. codes "text";
  from_str = λ s. if length s == 4 then some message else none;
  from_utf8_lossy = λ s. s;
}

cut : (a b : ℕ) → 4 ≡ a + suc b → (if a == 4 then some message else none) ≡ none
cut a b e = ground (arith, e)

laws : WireLaws wire message
laws = record {
  reads_back = refl;
  cut_is_refused =
      λ xs y ys e. cut (length xs) (length ys) (ap length e ∙ length-append xs (y ∷ ys));
  has_no_nul = (refl, (refl, (refl, (refl, tt))));
  is_not_empty = λ e. cc;
  ascii = λ s h. refl;
}

message_read_example :
    let there = take 4 (wire.to_string message) in
    (4 ≤ 4 → 4 ≤ 1024 → handle_stream wire 7 [] (some there) ≡ handle_client 7 [] message)
    × ((4 < 4) ⊎ (1024 < 4) → handle_stream wire 7 [] (some there) ≡ done ([], nothing_sent))
message_read_example = message_read wire message laws 7 [] 4 (refl, (refl, (refl, (refl, tt))))
