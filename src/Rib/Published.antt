-- ===== src/Rib/Published.antt =====
-- The routing table of `local_rib_handler` along a history.
use rt_fogros.Prelude.{
  ◌≡◌, ◌≢◌, refl, sym, ap, ◌∙◌, Bool, true, false, Bool-cases, inl, inr, ◌&&◌, Option, none, some,
  List, [], ◌∷◌, ◌++◌, map, append-nil, append_assoc, if◌then◌else◌,
}
use rt_fogros.Prelude.Assoc.{get, or_empty, get-push}
use rt_fogros.Packet.Name.{GdpName, name_eq, name_beq, name_beq_iff}
use rt_fogros.Packet.Types.{GdpNameRecord, GdpNameRecordType, info, query, update}
use rt_fogros.Rib.Handler.{
  put, lookup, Handler, new_handler, answer, already_pending, reply, on_query, on_update, on_info,
  dispatch, step, run,
}

abbrev publishes : GdpNameRecordType → Bool
publishes update = true
publishes info = true
publishes _ = false

abbrev published_by : GdpName → GdpNameRecord → List GdpNameRecord
published_by name q = if publishes q.record_type && name_beq q.gdpname name then q ∷ [] else []

-- The updates and infos of the name, in order.
abbrev pub published : GdpName → List GdpNameRecord → List GdpNameRecord
published name [] = []
published name (q ∷ qs) = published_by name q ++ published name qs

abbrev stored : GdpName → Handler → Option (List GdpNameRecord)
stored name h = get name h.rib_store.routing_table

module _ (name : GdpName) where
  -- What a record of this kind makes of the entry.
  abbrev after : Handler → GdpNameRecord → GdpNameRecordType → Option (List GdpNameRecord)
  after h q kind =
      if publishes kind && name_beq q.gdpname name
      then some (or_empty (stored name h) ++ q ∷ [])
      else stored name h

  put-after :
      (h : Handler) (q : GdpNameRecord)
      → get name (put q.gdpname q h.rib_store).routing_table ≡ after h q update
  unfolding put
  put-after h q = get-push q.gdpname name q h.rib_store.routing_table ∙ same
    where
      same :
          (if name_beq q.gdpname name
            then some (or_empty (get q.gdpname h.rib_store.routing_table) ++ q ∷ [])
            else stored name h)
          ≡ after h q update
      same = elim (Bool-cases (name_beq q.gdpname name)) [
        | inr other ↦ rw other
        | inl equal ↦ rw equal (
            ap (λ n. some (or_empty (stored n h) ++ q ∷ []))
              ((name_beq_iff q.gdpname name).0 equal))
      ]

  reply-stored :
      (h : Handler) (q : GdpNameRecord) (o : Option (List GdpNameRecord))
      → stored name (reply h q o).handler ≡ stored name h
  reply-stored h q (some rs) = refl
  reply-stored h q none =
      elim (Bool-cases
        (already_pending q.source_gdpname (get q.gdpname h.pending_routing_records))) [
          | inl waits ↦ rw waits
          | inr new ↦ rw new
        ]

  dispatch-stored :
      (h : Handler) (q : GdpNameRecord) (kind : GdpNameRecordType)
      → stored name (dispatch h q kind).handler ≡ after h q kind
  unfolding on_query on_update on_info
  dispatch-stored h q query = reply-stored h q (lookup q.gdpname h.rib_store)
  dispatch-stored h q update = put-after h q
  dispatch-stored h q info = put-after h q
  dispatch-stored h q _ = refl

  step-stored :
      (h : Handler) (q : GdpNameRecord) → stored name (step h q).handler ≡ after h q q.record_type
  unfolding step
  step-stored h q = dispatch-stored h q q.record_type

  step-published :
      (h : Handler) (q : GdpNameRecord)
      → or_empty (stored name (step h q).handler) ≡ or_empty (stored name h) ++ published_by name q
  step-published h q =
      ap or_empty (step-stored h q)
      ∙ elim (Bool-cases (publishes q.record_type && name_beq q.gdpname name)) [
        | inl here ↦ rw here
        | inr not_here ↦ rw not_here (sym (append-nil (or_empty (stored name h))))
      ]

  run-from :
      (h : Handler) (qs : List GdpNameRecord)
      → or_empty (stored name (run h qs)) ≡ or_empty (stored name h) ++ published name qs
  unfolding run
  run-from h [] = sym (append-nil (or_empty (stored name h)))
  run-from h (q ∷ qs) =
      run-from (step h q).handler qs
      ∙ ap (λ l. l ++ published name qs) (step-published h q)
      ∙ append_assoc (or_empty (stored name h)) (published_by name q) (published name qs)

  run-none :
      (h : Handler) (qs : List GdpNameRecord)
      → stored name h ≡ none
      → published name qs ≡ []
      → stored name (run h qs) ≡ none
  unfolding run
  run-none h [] missing e = missing
  run-none h (q ∷ qs) missing e =
      elim (Bool-cases (publishes q.record_type && name_beq q.gdpname name)) [
        | inl here ↦ absurd (nonempty (rw here at e))
        | inr not_here ↦
            run-none (step h q).handler qs (step-stored h q ∙ rw not_here missing)
              (rw not_here at e)
      ]
    where
      nonempty : ◌≢◌ {A = List GdpNameRecord} (q ∷ published name qs) []
      nonempty h = cc

-- A name under which nothing was published has no entry.
pub run-unpublished :
    (name : GdpName) (qs : List GdpNameRecord)
    → published name qs ≡ []
    → lookup name (run new_handler qs).rib_store ≡ none
unfolding lookup get
run-unpublished name qs e = run-none name new_handler qs refl e

some_entry :
    (o : Option (List GdpNameRecord)) (rs : List GdpNameRecord)
    → or_empty o ≡ rs
    → rs ≢ []
    → o ≡ some rs
some_entry none rs e ne = absurd (ne (sym e))
some_entry (some vs) rs e ne = ap some e

-- After any history, a query for a name under which something was published is answered by all that
-- was, every update and every info in the order in which it came, each addressed to who asked.
pub query-published :
    (qs : List GdpNameRecord) (q : GdpNameRecord)
    → published q.gdpname qs ≢ []
    → (on_query (run new_handler qs) q).responses
      ≡ map (λ r. answer r q.source_gdpname) (published q.gdpname qs)
unfolding on_query lookup get
query-published qs q ne =
    let found : stored q.gdpname (run new_handler qs) ≡ some (published q.gdpname qs) =
      some_entry (stored q.gdpname (run new_handler qs)) (published q.gdpname qs)
        (run-from q.gdpname new_handler qs) ne in
    ap (λ o. (reply (run new_handler qs) q o).responses) found
