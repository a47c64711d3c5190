-- ===== src/Rib/Pending.antt =====
-- The pending routing records of `local_rib_handler` along a history.
use rt_fogros.Prelude.{
  ◌≡◌, refl, sym, ap, ◌∙◌, true, false, Bool-cases, inl, inr, ◌&&◌, ◌⊎◌, Option, none, some, List,
  [], ◌∷◌, ◌++◌, if◌then◌else◌, contains, contains-append, beq_refl, arith,
}
use mathlib.Core.Path.{subst}
use rt_fogros.Prelude.Assoc.{get, or_empty, get-push, get-remove}
use rt_fogros.Packet.Name.{GdpName, name_eq, name_beq, name_beq_iff}
use rt_fogros.Packet.Types.{GdpNameRecord, GdpNameRecordType, info, query, update}
use rt_fogros.Rib.Handler.{
  Handler, new_handler, already_pending, remember, reply, on_query, on_update, on_info, dispatch,
  step, run, lookup,
}
use rt_fogros.Rib.Waiting.{
  waiting, Once, is_info, announced, already_pending-or_empty, contains_last, Once-push,
}

module _ (name : GdpName) where
  -- What a round makes of those that wait: the same, one more, or none.
  abbrev Changes : Handler → GdpNameRecord → Handler → Type 0
  Changes h q h' =
      (waiting name h' ≡ waiting name h)
      ⊎ ((contains q.source_gdpname (waiting name h) ≡ false)
          × (waiting name h' ≡ waiting name h ++ q.source_gdpname ∷ []))

  remember-Changes : (h : Handler) (q : GdpNameRecord) → Changes h q (remember h q).handler
  remember-Changes h q =
      elim (Bool-cases
        (already_pending q.source_gdpname (get q.gdpname h.pending_routing_records))) [
          | inl waits ↦ rw waits (inl refl)
          | inr new ↦
              rw (new, get-push q.gdpname name q.source_gdpname h.pending_routing_records)
                (pushed (sym (already_pending-or_empty q.source_gdpname _) ∙ new))
        ]
    where
      pushed :
          contains q.source_gdpname (waiting q.gdpname h) ≡ false
          → (or_empty (
                if name_beq q.gdpname name
                then some (waiting q.gdpname h ++ q.source_gdpname ∷ [])
                else get name h.pending_routing_records)
              ≡ waiting name h)
            ⊎ ((contains q.source_gdpname (waiting name h) ≡ false)
                × (or_empty (
                      if name_beq q.gdpname name
                      then some (waiting q.gdpname h ++ q.source_gdpname ∷ [])
                      else get name h.pending_routing_records)
                    ≡ waiting name h ++ q.source_gdpname ∷ []))
      pushed new = elim (Bool-cases (name_beq q.gdpname name)) [
        | inr other ↦ rw other (inl refl)
        | inl same ↦
            let e = (name_beq_iff q.gdpname name).0 same in
            rw same (
              inr (
                subst (λ n. contains q.source_gdpname (waiting n h) ≡ false) e new,
                ap (λ n. waiting n h ++ q.source_gdpname ∷ []) e,
              ))
      ]

  reply-Changes :
      (h : Handler) (q : GdpNameRecord) (o : Option (List GdpNameRecord))
      → Changes h q (reply h q o).handler
  reply-Changes h q (some rs) = inl refl
  reply-Changes h q none = remember-Changes h q

  dispatch-Changes :
      (h : Handler) (q : GdpNameRecord) (kind : GdpNameRecordType)
      → (is_info kind && name_beq q.gdpname name) ≡ false
      → Changes h q (dispatch h q kind).handler
  unfolding on_query on_update on_info
  dispatch-Changes h q query other = reply-Changes h q (lookup q.gdpname h.rib_store)
  dispatch-Changes h q update other = inl refl
  dispatch-Changes h q info other =
      inl (rw (get-remove q.gdpname name h.pending_routing_records, other))
  dispatch-Changes h q _ other = inl refl

  step-Changes :
      (h : Handler) (q : GdpNameRecord)
      → (is_info q.record_type && name_beq q.gdpname name) ≡ false
      → Changes h q (step h q).handler
  unfolding step
  step-Changes h q other = dispatch-Changes h q q.record_type other

  dispatch-announced :
      (h : Handler) (q : GdpNameRecord) (kind : GdpNameRecordType)
      → (is_info kind && name_beq q.gdpname name) ≡ true
      → waiting name (dispatch h q kind).handler ≡ []
  unfolding on_info
  dispatch-announced h q info same = rw (get-remove q.gdpname name h.pending_routing_records, same)
  dispatch-announced h q _ same = ground (arith, same)

  step-Once :
      (h : Handler) (q : GdpNameRecord)
      → Once (waiting name h)
      → Once (waiting name (step h q).handler)
  unfolding step
  step-Once h q o = elim (Bool-cases (is_info q.record_type && name_beq q.gdpname name)) [
    | inl same ↦ subst Once (sym (dispatch-announced h q q.record_type same)) tt
    | inr other ↦ elim (dispatch-Changes h q q.record_type other) [
      | inl kept ↦ subst Once (sym kept) o
      | inr (new, more) ↦ subst Once (sym more) (Once-push q.source_gdpname (waiting name h) new o)
    ]
  ]

  run-Once :
      (h : Handler) (qs : List GdpNameRecord)
      → Once (waiting name h)
      → Once (waiting name (run h qs))
  unfolding run
  run-Once h [] o = o
  run-Once h (q ∷ qs) o = run-Once (step h q).handler qs (step-Once h q o)

  step-waits :
      (s : GdpName) (h : Handler) (q : GdpNameRecord)
      → (is_info q.record_type && name_beq q.gdpname name) ≡ false
      → contains s (waiting name h) ≡ true
      → contains s (waiting name (step h q).handler) ≡ true
  step-waits s h q other w = elim (step-Changes h q other) [
    | inl kept ↦ ap (contains s) kept ∙ w
    | inr (new, more) ↦
        ap (contains s) more ∙ contains-append s (waiting name h) (q.source_gdpname ∷ []) ∙ rw w
  ]

  -- Who waits for a name still waits after any records that do not announce it.
  pub run-waits :
      (s : GdpName) (h : Handler) (qs : List GdpNameRecord)
      → announced name qs ≡ false
      → contains s (waiting name h) ≡ true
      → contains s (waiting name (run h qs)) ≡ true
  unfolding run
  run-waits s h [] silent w = w
  run-waits s h (q ∷ qs) silent w =
      run-waits s (step h q).handler qs (ground (arith, silent))
        (step-waits s h q (ground (arith, silent)) w)

-- After any history, nobody waits twice for a name.
pub run-new_handler-Once :
    (name : GdpName) (qs : List GdpNameRecord) → Once (waiting name (run new_handler qs))
unfolding get
run-new_handler-Once name qs = run-Once name new_handler qs tt

-- Who asks for a name that has no entry waits for it.
pub on_query-waits :
    (h : Handler) (q : GdpNameRecord)
    → lookup q.gdpname h.rib_store ≡ none
    → contains q.source_gdpname (waiting q.gdpname (on_query h q).handler) ≡ true
unfolding on_query lookup
on_query-waits h q missing =
    rw missing
      (elim (Bool-cases
        (already_pending q.source_gdpname (get q.gdpname h.pending_routing_records))) [
          | inl waits ↦ rw waits (sym (already_pending-or_empty q.source_gdpname _) ∙ waits)
          | inr new ↦
              rw
                (
                  new,
                  get-push q.gdpname q.gdpname q.source_gdpname h.pending_routing_records,
                  beq_refl q.gdpname,
                )
                (contains_last q.source_gdpname (waiting q.gdpname h))
        ])
