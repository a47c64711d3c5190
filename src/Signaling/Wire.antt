-- ===== src/Signaling/Wire.antt =====
-- What `handle_client` of fogrs-signaling/src/lib.rs makes of a client's stream: one read into a buffer
-- of 1024 bytes, which is filled up with NULs, is the whole message.
use rt_fogros.Prelude.{
  ℕ, ◌+◌, ◌-◌, ◌<◌, ◌≤◌, ◌≡◌, refl, sym, ap, ◌∙◌, ◌⊎◌, arith, Text, true, false, ltb, ◌==◌, Option,
  none, some, [], ◌∷◌, ◌++◌, List, length, take, drop, take-append-drop, length-take, length-append,
  append_assoc, append-nil, zero, suc, All, All-append, Outcome, done,
}
use rt_fogros.Prelude.Trim.{nuls, trim_nul, trim_nul-clean}
use rt_fogros.Signaling.Server.{Message, Server, Reaction, nothing_sent, handle_client}

-- serde_json and `String::from_utf8_lossy`.
pub record Wire : Type 0 where
  pub to_string : Message → Text
  pub from_str : Text → Option Message
  pub from_utf8_lossy : List ℕ → Text

-- The printed message reads back, no proper part of it from its start reads, it has no NUL, which
-- would be escaped, and is not empty; ASCII is taken as it is.
pub record WireLaws (w : Wire) (m : Message) : Type 0 where
  pub reads_back : w.from_str (w.to_string m) ≡ some m
  pub cut_is_refused :
      (xs : Text) (y : ℕ) (ys : Text) → w.to_string m ≡ xs ++ y ∷ ys → w.from_str xs ≡ none
  pub has_no_nul : All (λ c. (c == 0) ≡ false) (w.to_string m)
  pub is_not_empty : ¬ (w.to_string m ≡ [])
  pub ascii : (s : List ℕ) → All (λ c. ltb c 128 ≡ true) s → w.from_utf8_lossy s ≡ s

module _ (w : Wire) where
  -- What is there at the read, none where it fails.
  unfoldable pub request_of : List ℕ → Text
  request_of there =
      trim_nul (w.from_utf8_lossy (take 1024 there ++ nuls (1024 - length (take 1024 there))))

  abbrev on_message : ℕ → Server → Option Message → Outcome (Server × Reaction)
  on_message now server none = done (server, nothing_sent)
  on_message now server (some message) = handle_client now server message

  abbrev on_request : ℕ → Server → Text → Outcome (Server × Reaction)
  on_request now server [] = done (server, nothing_sent)
  on_request now server (c ∷ cs) = on_message now server (w.from_str (c ∷ cs))

  unfoldable pub handle_stream : ℕ → Server → Option (List ℕ) → Outcome (Server × Reaction)
  handle_stream now server none = done (server, nothing_sent)
  handle_stream now server (some there) = on_request now server (request_of there)

abbrev IsAscii : List ℕ → Type 0
IsAscii = All (λ c. ltb c 128 ≡ true)

nuls-IsAscii : (n : ℕ) → IsAscii (nuls n)
nuls-IsAscii zero = tt
nuls-IsAscii (suc n) = (ground arith, nuls-IsAscii n)

All-prefix : (P : ℕ → Type 0) (xs ys : List ℕ) → All P (xs ++ ys) → All P xs
All-prefix P [] ys h = tt
All-prefix P (x ∷ xs) ys h = (h.0, All-prefix P xs ys h.1)

-- What one read takes of a text, and what it leaves.
one_read :
    (n : ℕ) (s : Text)
    → (ys : Text) × ((s ≡ take 1024 (take n s) ++ ys)
        × (length s ≡ length (take 1024 (take n s)) + length ys))
one_read n s =
    let ys = drop 1024 (take n s) ++ drop n s in
    let parts =
      sym (take-append-drop n s)
      ∙ (ap (λ x. x ++ drop n s) (sym (take-append-drop 1024 (take n s)))
          ∙ append_assoc (take 1024 (take n s)) (drop 1024 (take n s)) (drop n s)) in
    (ys, (parts, ap length parts ∙ length-append (take 1024 (take n s)) ys))

module _ (w : Wire) (m : Message) (laws : WireLaws w m) (now : ℕ) (server : Server) where
  request_of-read :
      (there ys : Text)
      → IsAscii (w.to_string m)
      → w.to_string m ≡ take 1024 there ++ ys
      → request_of w there ≡ take 1024 there
  unfolding request_of
  request_of-read there ys ascii e =
      let xs = take 1024 there in
      let k = 1024 - length xs in
      ap trim_nul (
        laws.ascii (xs ++ nuls k)
          (All-append _ xs (nuls k) (All-prefix _ xs ys (rw e at ascii)) (nuls-IsAscii k)))
      ∙ trim_nul-clean xs k (All-prefix _ xs ys (rw e at laws.has_no_nul))

  on_request-cut :
      (xs : Text) (y : ℕ) (ys : Text)
      → w.to_string m ≡ xs ++ y ∷ ys
      → on_request w now server xs ≡ done (server, nothing_sent)
  on_request-cut [] y ys e = refl
  on_request-cut (c ∷ cs) y ys e = rw (laws.cut_is_refused (c ∷ cs) y ys e) refl

  on_request-whole :
      (s : Text) → w.to_string m ≡ s → on_request w now server s ≡ handle_client now server m
  on_request-whole [] e = absurd (laws.is_not_empty e)
  on_request-whole (c ∷ cs) e =
      ap (on_message w now server) (ap w.from_str (sym e) ∙ laws.reads_back)

  on_rest :
      (xs ys : Text)
      → w.to_string m ≡ xs ++ ys
      → ((length ys ≡ 0 → on_request w now server xs ≡ handle_client now server m)
          × (0 < length ys → on_request w now server xs ≡ done (server, nothing_sent)))
  on_rest xs [] e = ((λ h. on_request-whole xs (e ∙ append-nil xs)), λ h. elim h [ ])
  on_rest xs (y ∷ ys) e = ((λ h. ground (arith, h)), λ h. on_request-cut xs y ys e)

  -- A message that is printed as ASCII, of which the first `n` bytes have come when the server reads: it
  -- is handled where all of it has come and it has 1024 bytes at most; where a part is still to come, or
  -- it is longer, nothing is sent and the server stays as it was.
  pub message_read :
      (n : ℕ)
      → IsAscii (w.to_string m)
      → (length (w.to_string m) ≤ n
          → length (w.to_string m) ≤ 1024
          → handle_stream w now server (some (take n (w.to_string m))) ≡ handle_client now server m)
        × ((n < length (w.to_string m)) ⊎ (1024 < length (w.to_string m))
            → handle_stream w now server (some (take n (w.to_string m)))
              ≡ done (server, nothing_sent))
  unfolding handle_stream
  message_read n ascii =
      let s = w.to_string m in
      let (ys, (parts, sizes)) = one_read n s in
      let xs = take 1024 (take n s) in
      let taken = request_of-read (take n s) ys ascii parts in
      let (whole, cut) = on_rest xs ys parts in
      let size = length-take 1024 (take n s) in
      let size' = length-take n s in
      (
        (λ fits small.
            ap (on_request w now server) taken
            ∙ whole (omega (arith, sizes, size, size', fits, small))),
        λ long. ap (on_request w now server) taken ∙ cut (ground (arith, sizes, size, size', long)),
      )
