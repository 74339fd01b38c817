-- ===== src/Security/Events/Enrich/Laws.antt =====
-- What holds of every request that is scored.
use hyrovi_proxy_manager.Prelude.{
  ℕ, ◌≤◌, ◌≡◌, refl, ◌∙◌, Bool, true, false, Option, List, [], ◌∷◌, map, arith, Bool-cases, inl,
  inr, All,
}
use hyrovi_proxy_manager.Js.Text.{Text, mem_text}
use hyrovi_proxy_manager.Js.Texts.{Distinct, append-Distinct, map-append}
use hyrovi_proxy_manager.Security.Events.{Event, Signal, risk_for_response}
use hyrovi_proxy_manager.Security.Events.Window.{Context}
use hyrovi_proxy_manager.Security.Events.Enrich.{
  Score, Analyzed, has_id, add_signal, add_if, add_bursts, score_of, enrich_event, enrich_events,
  or_no_context, recent_context,
}

abbrev ids : List Signal → List Text
ids l = map (λ s. s.id) l

-- No signal twice, and the risk that counts for a response within the whole.
pub record IsSound (s : Score) : Type 0 where
  pub within : s.automation_risk ≤ s.risk
  pub distinct : Distinct (ids s.signals)

has_id_ids : (id : Text) (l : List Signal) → mem_text id (ids l) ≡ has_id id l
has_id_ids id [] = refl
has_id_ids id (s ∷ l) = ground (arith, has_id_ids id l)

add_if-IsSound :
    (b : Bool) (id : Text) (score : ℕ) (s : Score) → IsSound s → IsSound (add_if b id score s)
unfolding add_if add_signal
add_if-IsSound false id score s h = h
add_if-IsSound true id score s h = elim (Bool-cases (has_id id s.signals)) [
  | inl e ↦ simp e h
  | inr e ↦ simp e (record {
    within = omega (arith, h.within);
    distinct =
        rw (map-append (λ x. x.id) s.signals _)
          (append-Distinct id (ids s.signals) (has_id_ids id s.signals ∙ e) h.distinct);
  })
]

score_of-IsSound : (c : Context) (s : Score) → IsSound s → IsSound (score_of c s)
unfolding score_of add_bursts
score_of-IsSound c s h = add_if-IsSound _ _ _ _ (
    add_if-IsSound _ _ _ _ (
      add_if-IsSound _ _ _ _ (
        add_if-IsSound _ _ _ _ (
          add_if-IsSound _ _ _ _
            (add_if-IsSound _ _ _ _ (add_if-IsSound _ _ _ _ (add_if-IsSound _ _ _ _ h)))))))

pub record InScale (e : Event) : Type 0 where
  pub for_response : risk_for_response e ≤ e.risk
  pub at_most : e.risk ≤ 100
  pub distinct : Distinct (ids e.signals)

enrich_event-InScale :
    (o : Option Context) (a : Analyzed) → IsSound a.base → InScale (enrich_event o a).event
unfolding enrich_event
enrich_event-InScale o a h =
    let s = score_of-IsSound (or_no_context o) a.base h in
    record { for_response = ground (arith, s.within); at_most = omega arith; distinct = s.distinct }

-- If the signals of each request alone are sound, then in every list of requests that is scored the
-- risk of each is at most 100, the part that counts for a response is no larger, and no signal stands
-- twice.
pub enrich_events-InScale :
    (analyzed : List Analyzed)
    → All (λ a. IsSound a.base) analyzed
    → All (λ e. InScale e.event) (enrich_events analyzed)
unfolding enrich_events
enrich_events-InScale analyzed h = each analyzed h
  where
    each :
        (l : List Analyzed)
        → All (λ a. IsSound a.base) l
        → All (λ e. InScale e.event) (map (λ a. enrich_event (recent_context analyzed a) a) l)
    each [] h = tt
    each (a ∷ l) (p, h) = (enrich_event-InScale (recent_context analyzed a) a p, each l h)
