-- ===== src/Framing/Sound.antt =====
-- The reader of kcp.rs on arbitrary bytes.
use rt_fogros.Prelude.{
  ℕ, ◌<◌, ◌≤◌, ◌≡◌, refl, sym, ap, ◌∙◌, none, some, List, [], ◌∷◌, ◌++◌, length, drop, take, map,
  codes, text_beq, ◌-◌, ◌+◌, ◌==◌, ◌&&◌, if◌then◌else◌, length-take, length-append,
  take-append-drop, append-nil, append_assoc, arith, Bool, true, false, Bool-cases, ltb, ◌≢◌, inl,
  inr, done, panic,
}
use rt_fogros.Packet.Action.{noop, action_beq}
use rt_fogros.Packet.Header.{Json}
use rt_fogros.Framing.Parser.{
  Frame, Parsed, parsed, panicked, out_of_fuel, parse_header_payload_pairs,
}
use rt_fogros.Framing.Incremental.{action_beq_noop}
use rt_fogros.Framing.Reader.{
  Reader, next, to_packet, Completion, wait, go, after_parse, complete_previous, after_completion,
  absorb, on_read,
}
use rt_fogros.Framing.Cuts.{Cuts, IsSoundResult, parse-IsSoundResult}
use rt_fogros.Framing.Stands.{
  IsSound, StandsIn, IsSoundStep, StandsIn-none, StandsIn-payload, StandsIn-header, Cuts-nothing,
}

module _ (j : Json) where
  module _ (r : Reader) (chunk : List ℕ) where
    -- What the part before the parser hands on.
    abbrev IsSoundCompletion : Completion → Type 0
    IsSoundCompletion (wait r') = IsSound j r'
    IsSoundCompletion (go r' fs b) =
        (r'.reset_counter ≤ 5)
        × ((more : List Frame) → Cuts j b more → StandsIn j r chunk (fs ++ more))

    after_parse-IsSound :
        (r' : Reader) (fs : List Frame) (b : List ℕ) (p : Parsed)
        → IsSoundCompletion (go r' fs b)
        → IsSoundResult j b [] p
        → IsSoundStep j r chunk (after_parse r' fs p)
    after_parse-IsSound r' fs b (parsed found none) s (more, e, cuts, left) = (
      record { short = inl refl; few = s.0 },
      (fs ++ more, ap (λ x. map (to_packet r'.description) (fs ++ x)) e, s.1 more cuts),
    )
    after_parse-IsSound r' fs b (parsed found (some (h, got))) s (more, e, cuts, left) = (
      record { short = inr left; few = s.0 },
      (fs ++ more, ap (λ x. map (to_packet r'.description) (fs ++ x)) e, s.1 more cuts),
    )
    after_parse-IsSound r' fs b panicked s q = tt
    after_parse-IsSound r' fs b out_of_fuel s q = tt

    complete_previous-IsSound : IsSound j r → IsSoundCompletion (complete_previous r chunk)
    unfolding complete_previous
    complete_previous-IsSound s = elim (Bool-cases r.need_more_data_for_previous_header) [
      | inr fresh ↦ rw fresh (s.few, λ more c. c)
      | inl pending ↦ elim (Bool-cases (action_beq r.remaining_gdp_header.action noop)) [
        | inl header ↦ elim (Bool-cases (ltb 5 (r.reset_counter + 1))) [
          | inl stuck ↦
              rw (pending, header, stuck)
                (
                  omega arith,
                  λ more c.
                      StandsIn-header j (record r { need_more_data_for_previous_header = true })
                        chunk more refl header
                        (Cuts-nothing j (r.remaining_gdp_payload ++ chunk) more c),
                )
          | inr counted ↦
              rw (pending, header, counted)
                (
                  ground (arith, counted),
                  λ more c.
                      StandsIn-header j (record r { need_more_data_for_previous_header = true })
                        chunk more refl header c,
                )
        ]
        | inr payload ↦ on_payload pending payload
      ]
    ]
      where
        n : ℕ
        n = r.remaining_gdp_header.length - length r.remaining_gdp_payload

        size :
            length (r.remaining_gdp_payload ++ chunk)
            ≡ length r.remaining_gdp_payload + length chunk
        size = length-append r.remaining_gdp_payload chunk

        on_payload :
            r.need_more_data_for_previous_header ≡ true
            → action_beq r.remaining_gdp_header.action noop ≡ false
            → IsSoundCompletion (complete_previous r chunk)
        on_payload pending payload =
            elim (Bool-cases
              (ltb (length r.remaining_gdp_payload + length chunk) r.remaining_gdp_header.length)) [
                | inl short ↦
                    rw (pending, payload, short)
                      (record { short = inr (inr (ground (arith, short, size))); few = s.few })
                | inr long ↦
                    elim (Bool-cases (
                      length r.remaining_gdp_payload + length chunk
                      == r.remaining_gdp_header.length)) [
                        | inl same ↦
                            rw (pending, payload, long, same)
                              (
                                s.few,
                                λ more c.
                                    StandsIn-payload j
                                      (record r { need_more_data_for_previous_header = true }) chunk
                                      ((r.remaining_gdp_header, r.remaining_gdp_payload ++ chunk)
                                        ∷ more)
                                      refl payload
                                      (
                                        [],
                                        refl,
                                        sym (append-nil (r.remaining_gdp_payload ++ chunk)),
                                        ground (arith, same, size),
                                        c,
                                      ),
                              )
                        | inr over ↦
                            rw (pending, payload, long, over)
                              (
                                s.few,
                                λ more c.
                                    StandsIn-payload j
                                      (record r { need_more_data_for_previous_header = true }) chunk
                                      ((
                                        r.remaining_gdp_header,
                                        r.remaining_gdp_payload ++ take n chunk,
                                      )
                                        ∷ more)
                                      refl payload
                                      (
                                        drop n chunk,
                                        refl,
                                        ap (◌++◌ r.remaining_gdp_payload)
                                              (sym (take-append-drop n chunk))
                                            ∙ sym (
                                                append_assoc r.remaining_gdp_payload (take n chunk)
                                                  _),
                                        filled long,
                                        c,
                                      ),
                              )
                      ]
              ]
          where
            differ : true ≢ false
            differ e = cc

            started : length r.remaining_gdp_payload < r.remaining_gdp_header.length
            started = elim s.short [
              | inl fresh ↦ absurd (differ (sym pending ∙ fresh))
              | inr (inl header) ↦
                  absurd
                    (differ (sym (action_beq_noop r.remaining_gdp_header.action header) ∙ payload))
              | inr (inr short) ↦ short
            ]

            filled :
                ltb (length r.remaining_gdp_payload + length chunk) r.remaining_gdp_header.length
                  ≡ false
                → length (r.remaining_gdp_payload ++ take n chunk) ≡ r.remaining_gdp_header.length
            filled long =
                let taken = length-take n chunk in
                let both = length-append r.remaining_gdp_payload (take n chunk) in
                ground (arith, long, started, taken, both)

    absorb-IsSound : IsSound j r → IsSoundStep j r chunk (absorb j r chunk)
    unfolding absorb
    absorb-IsSound s = over (complete_previous r chunk) (complete_previous-IsSound s)
      where
        over : (c : Completion) → IsSoundCompletion c → IsSoundStep j r chunk (after_completion j c)
        over (wait r') s' = (s', ([], refl, StandsIn-none j r chunk))
        over (go r' fs b) s' =
            after_parse-IsSound r' fs b (parse_header_payload_pairs j b) s'
              (parse-IsSoundResult j b)

    -- Whatever the chunk, a round keeps the reader sound: what is left over is shorter than the payload
    -- that its header announces, or under the action Noop, and the reset counter is five at most. And
    -- what it sends are the packets of frames that stand one behind the other at the start of what was
    -- kept and the chunk, each with a header that reads and a payload of the length that the header
    -- says.
    pub on_read-IsSound :
        (can_write : Bool) → IsSound j r → IsSoundStep j r chunk (on_read j can_write r chunk)
    unfolding on_read
    on_read-IsSound can_write s = elim (Bool-cases (length chunk == 0)) [
      | inl e ↦ rw e tt
      | inr e ↦ elim (Bool-cases (length chunk == 4 && text_beq chunk (codes "ping"))) [
        | inl ping ↦ rw (e, ping) (pong can_write)
        | inr other ↦ rw (e, other) (absorb-IsSound s)
      ]
    ]
      where
        pong :
            (b : Bool)
            → IsSoundStep j r chunk (
                if b
                then done (next (record { reader = r; sent = []; written = codes "pong" }))
                else panic)
        pong true = (s, ([], refl, StandsIn-none j r chunk))
        pong false = tt
