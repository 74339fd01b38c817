-- ===== src/Security/Events/Window/Equal.antt =====
-- The moving counters equal a count of the requests of the last 60 seconds from scratch.
use hyrovi_proxy_manager.Prelude.{
  ℕ, ◌≤◌, ◌≡◌, refl, sym, ap, ◌∙◌, true, List, [], ◌∷◌, ◌++◌, filter, arith, All, subst,
}
use mathlib.Core.List.{append_assoc}
use hyrovi_proxy_manager.Security.Events.Window.{
  Item, Window, Context, empty_window, add_to_window, slide, window_contexts, request_contexts,
  by_time,
}
use hyrovi_proxy_manager.Security.Events.Window.Counts.{nil-Counting}
use hyrovi_proxy_manager.Security.Events.Window.Shows.{
  Shows, context_of, filter_append, add_to_window-Shows, Shows-context, slide-Shows,
}
use hyrovi_proxy_manager.Security.Events.Window.Ordered.{
  is_recent, Ascending, slide_recent, filter-Ascending, Ascending-prefix, Ascending-suffix,
  recent_recent, by_time-Ascending, zero-All,
}

-- The specification: each request counts, from scratch, itself and the earlier ones that are recent.
pub counted_contexts : List Item → List Item → List Context
counted_contexts earlier [] = []
counted_contexts earlier (x ∷ items) =
    context_of (filter (is_recent x.time) (earlier ++ (x ∷ [])))
    ∷ counted_contexts (earlier ++ (x ∷ [])) items

window_contexts-counted_contexts :
    (before : ℕ) (earlier items live : List Item) (w : Window)
    → Ascending (earlier ++ items)
    → All (λ y. before ≤ y.time) items
    → live ≡ filter (is_recent before) earlier
    → Shows live w
    → window_contexts items live w ≡ counted_contexts earlier items
unfolding window_contexts counted_contexts
window_contexts-counted_contexts before earlier [] live w a b e s = refl
window_contexts-counted_contexts before earlier (x ∷ items) live w a (b, bs) e s =
    let whole : Ascending ((earlier ++ (x ∷ [])) ++ items) =
      subst Ascending (sym (append_assoc earlier (x ∷ []) items)) a in
    let recent : is_recent before x ≡ true = ground (arith, b) in
    let joined : live ++ (x ∷ []) ≡ filter (is_recent before) (earlier ++ (x ∷ [])) =
      ap (λ r. r ++ (x ∷ [])) e
      ∙ sym (filter_append (is_recent before) earlier x ∙ rw recent refl) in
    let ordered : Ascending (live ++ (x ∷ [])) = subst Ascending (sym joined) (
      filter-Ascending (is_recent before) (earlier ++ (x ∷ []))
        (Ascending-prefix (earlier ++ (x ∷ [])) items whole)) in
    let slid : (slide x.time (live ++ (x ∷ [])) (add_to_window x w)).0
        ≡ filter (is_recent x.time) (earlier ++ (x ∷ [])) =
      slide_recent x.time (live ++ (x ∷ [])) (add_to_window x w) ordered
      ∙ ap (λ r. filter (is_recent x.time) r) joined
      ∙ recent_recent before x.time (earlier ++ (x ∷ [])) b in
    let shown =
      slide-Shows x.time (live ++ (x ∷ [])) (add_to_window x w) (add_to_window-Shows live w x s) in
    let rest =
      window_contexts-counted_contexts x.time (earlier ++ (x ∷ [])) items _ _ whole
        (Ascending-suffix earlier (x ∷ items) a).0 slid shown in
    λ i. ((Shows-context _ _ shown ∙ ap (λ r. context_of r) slid) i) ∷ rest i

-- For any requests of a source, the counts that the pass finds for each request in the order of time
-- are those of a count from scratch: of the request itself and of all earlier ones that are at most
-- 60 seconds older, how many there are, how many were denied, how many were missing, and how many
-- different paths and different suspicious paths they have.
pub request_contexts-counted_contexts :
    (items : List Item) → request_contexts items ≡ counted_contexts [] (by_time items)
unfolding request_contexts
request_contexts-counted_contexts items =
    window_contexts-counted_contexts 0 [] (by_time items) [] empty_window (by_time-Ascending items)
      (zero-All (by_time items)) refl
      (record {
        denied = refl;
        missing = refl;
        path_counts = nil-Counting;
        suspicious = nil-Counting;
      })
