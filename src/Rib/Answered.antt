-- ===== src/Rib/Answered.antt =====
-- Queries of `local_rib_handler` for a name that is announced later.
use rt_fogros.Prelude.{
  ◌≡◌, refl, sym, ap, ◌∙◌, true, false, Option, none, some, List, [], ◌∷◌, ◌++◌, map, contains,
}
use mathlib.Core.Path.{subst}
use mathlib.Core.List.{map-append}
use rt_fogros.Prelude.Assoc.{get, or_empty}
use rt_fogros.Packet.Name.{GdpName, name_eq}
use rt_fogros.Packet.Types.{GdpNameRecord, info, query}
use rt_fogros.Rib.Handler.{
  Handler, new_handler, answer, answers, on_query, on_info, step, run, dispatch,
}
use rt_fogros.Rib.Published.{published, run-unpublished}
use rt_fogros.Rib.Waiting.{waiting, Once, announced, Once-split}
use rt_fogros.Rib.Pending.{run-waits, run-new_handler-Once, on_query-waits}

-- One answer is addressed to the source, and what stands before and after it is for others.
abbrev pub IsAnsweredOnce : GdpNameRecord → GdpName → List GdpNameRecord → Type 0
IsAnsweredOnce r source responses =
    (before : List GdpName) × (after : List GdpName) × (responses
      ≡ map (answer r) before ++ answer r source ∷ map (answer r) after)
    × (contains source before ≡ false)
    × (contains source after ≡ false)

answers-map :
    (r : GdpNameRecord) (o : Option (List GdpName)) → answers r o ≡ map (answer r) (or_empty o)
answers-map r none = refl
answers-map r (some vs) = refl

on_info-answers :
    (h : Handler) (r : GdpNameRecord) (source : GdpName)
    → contains source (waiting r.gdpname h) ≡ true
    → Once (waiting r.gdpname h)
    → IsAnsweredOnce r source (on_info h r).responses
unfolding on_info
on_info-answers h r source w o =
    let (before, after, e, b, a) = Once-split source (waiting r.gdpname h) w o in
    (
      before,
      after,
      answers-map r (get r.gdpname h.pending_routing_records)
          ∙ ap (map (answer r)) e
          ∙ map-append (answer r) before (source ∷ after),
      b,
      a,
    )

run-append : (h : Handler) (ps qs : List GdpNameRecord) → run h (ps ++ qs) ≡ run (run h ps) qs
unfolding run
run-append h [] qs = refl
run-append h (p ∷ ps) qs = run-append (step h p).handler ps qs

step-info : (h : Handler) (r : GdpNameRecord) → r.record_type ≡ info → step h r ≡ on_info h r
unfolding step
step-info h r told = ap (dispatch h r) told

step-query : (h : Handler) (q : GdpNameRecord) → q.record_type ≡ query → step h q ≡ on_query h q
unfolding step
step-query h q asked = ap (dispatch h q) asked

-- Who asked waits until the name is announced.
query_waits :
    (ps qs : List GdpNameRecord) (q : GdpNameRecord)
    → q.record_type ≡ query
    → published q.gdpname ps ≡ []
    → announced q.gdpname qs ≡ false
    → contains q.source_gdpname (waiting q.gdpname (run new_handler (ps ++ q ∷ qs))) ≡ true
unfolding run
query_waits ps qs q asked unpublished silent =
    let h = run new_handler ps in
    ap (λ k. contains q.source_gdpname (waiting q.gdpname k)) (run-append new_handler ps (q ∷ qs))
    ∙ run-waits q.gdpname q.source_gdpname (step h q).handler qs silent (
        ap (λ s. contains q.source_gdpname (waiting q.gdpname s.handler)) (step-query h q asked)
        ∙ on_query-waits h q (run-unpublished q.gdpname ps unpublished))

-- A query for a name under which nothing has been published, then any records that do not announce the
-- name, then an info that does: the info answers who asked, exactly once.
pub query_answered :
    (ps qs : List GdpNameRecord) (q r : GdpNameRecord)
    → q.record_type ≡ query
    → published q.gdpname ps ≡ []
    → announced q.gdpname qs ≡ false
    → r.record_type ≡ info
    → r.gdpname ≡ q.gdpname
    → IsAnsweredOnce r q.source_gdpname (step (run new_handler (ps ++ q ∷ qs)) r).responses
query_answered ps qs q r asked unpublished silent told same =
    let h = run new_handler (ps ++ q ∷ qs) in
    subst (λ s. IsAnsweredOnce r q.source_gdpname s.responses) (sym (step-info h r told))
      (on_info-answers h r q.source_gdpname
        (subst (λ n. contains q.source_gdpname (waiting n h) ≡ true) (sym same)
          (query_waits ps qs q asked unpublished silent))
        (run-new_handler-Once r.gdpname (ps ++ q ∷ qs)))
