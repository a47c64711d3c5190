-- ===== src/Framing/Writes.antt =====
-- The buffers that the writer of fogrs-core/src/network/kcp.rs cuts a payload into.
use rt_fogros.Prelude.{
  ℕ, zero, suc, ◌+◌, ◌-◌, ◌≤◌, ◌≡◌, refl, sym, ap, ◌∙◌, some, List, ◌++◌, length, drop, take,
  concat, drop-drop, drop_all, length-take, take-append-drop, arith, All, true, Bool-cases, ltb,
  inl, inr,
}
use rt_fogros.Framing.Writer.{udp_buffer_size, slice, write_loop, payload_writes, all_taken}

-- A slice and what stands behind it.
pub slice-append :
    (payload : List ℕ) (from k : ℕ)
    → slice payload from (from + k) ++ drop (from + k) payload ≡ drop from payload
slice-append payload from k =
    ap (λ n. take n (drop from payload) ++ drop (from + k) payload) (omega arith)
    ∙ ap (λ b. take k (drop from payload) ++ b) (sym (drop-drop from k payload))
    ∙ take-append-drop k (drop from payload)

-- The loop writes the whole payload, in order: its fuel is enough.
pub write_loop-concat :
    (fuel : ℕ) (payload : List ℕ) (from : ℕ)
    → length payload ≤ from + fuel
    → concat (write_loop fuel payload from (length payload)) ≡ drop from payload
unfolding write_loop
write_loop-concat zero payload from h = sym (drop_all from payload (omega arith))
write_loop-concat (suc fuel) payload from h = elim (Bool-cases (ltb from (length payload))) [
  | inr stop ↦ rw stop (sym (drop_all from payload (ground arith)))
  | inl more ↦ elim (Bool-cases (ltb udp_buffer_size (length payload - from))) [
    | inl big ↦
        rw (more, big)
          (ap (◌++◌ (slice payload from (from + udp_buffer_size)))
              (write_loop-concat fuel payload (from + udp_buffer_size) (omega arith))
            ∙ slice-append payload from udp_buffer_size)
    | inr small ↦
        let end : length payload ≡ from + (length payload - from) = ground arith in
        rw (more, small)
          (ap (◌++◌ (slice payload from (length payload)))
              (write_loop-concat fuel payload (length payload) (omega arith))
            ∙ ap (λ n. slice payload from n ++ drop n payload) end
            ∙ slice-append payload from (length payload - from))
  ]
]

pub write_loop_bounds :
    (fuel : ℕ) (payload : List ℕ) (from : ℕ)
    → All (λ b. length b ≤ udp_buffer_size) (write_loop fuel payload from (length payload))
unfolding write_loop
write_loop_bounds zero payload from = tt
write_loop_bounds (suc fuel) payload from = elim (Bool-cases (ltb from (length payload))) [
  | inr stop ↦ rw stop tt
  | inl more ↦ elim (Bool-cases (ltb udp_buffer_size (length payload - from))) [
    | inl big ↦
        rw (more, big)
          (
            omega (arith, length-take (from + udp_buffer_size - from) (drop from payload)),
            write_loop_bounds fuel payload (from + udp_buffer_size),
          )
    | inr small ↦
        rw (more, small)
          (
            ground (arith, length-take (length payload - from) (drop from payload)),
            write_loop_bounds fuel payload (length payload),
          )
  ]
]

-- A payload goes out whole and in order, in buffers of at most 65535 bytes.
pub payload_writes_lem :
    (payload : List ℕ)
    → (concat (payload_writes (some payload)) ≡ payload)
      × All (λ b. length b ≤ udp_buffer_size) (payload_writes (some payload))
payload_writes_lem payload = (
  write_loop-concat (length payload) payload 0 (omega arith),
  write_loop_bounds (length payload) payload 0,
)

pub all_taken_lem : (from n : ℕ) → all_taken (λ _. true) from n ≡ true
all_taken_lem from zero = refl
all_taken_lem from (suc n) = all_taken_lem (suc from) n
