-- ===== src/Security/Events/Window/Shows.antt =====
-- The counters of the window and the requests in it.
use hyrovi_proxy_manager.Prelude.{
  ℕ, ◌+◌, ◌≡◌, refl, ap, ◌∙◌, Bool, true, false, List, [], ◌∷◌, ◌++◌, length, filter, map, ltb,
  arith, if◌then◌else◌, Bool-cases, inl, inr,
}
use hyrovi_proxy_manager.Js.Text.{Text}
use hyrovi_proxy_manager.Security.Events.Window.{
  Item, Window, Context, is_denied, is_missing, is_suspicious, add_to_window, remove_from_window,
  slide, request_context_window_ms, context_of_window, release,
}
use hyrovi_proxy_manager.Security.Events.Window.Counts.{
  one_if, different, Counting, bump-Counting, release-Counting, length-different,
}

-- How many requests pass a test.
abbrev pub count : (Item → Bool) → List Item → ℕ
count p [] = 0
count p (x ∷ l) = one_if (p x) + count p l

abbrev pub paths : List Item → List Text
paths l = map (λ x. x.path) l

-- What is counted of a list of requests.
abbrev pub context_of : List Item → Context
context_of l = record {
  requests = length l;
  denied = count is_denied l;
  missing = count is_missing l;
  unique_paths = different (paths l);
  suspicious_paths = different (paths (filter is_suspicious l));
}

count_append :
    (p : Item → Bool) (l : List Item) (x : Item)
    → count p (l ++ (x ∷ [])) ≡ count p l + one_if (p x)
count_append p [] x = omega arith
count_append p (y ∷ l) x = omega (arith, count_append p l x)

paths_append : (l : List Item) (x : Item) → paths (l ++ (x ∷ [])) ≡ paths l ++ (x.path ∷ [])
paths_append [] x = refl
paths_append (y ∷ l) x = ap (λ r. y.path ∷ r) (paths_append l x)

pub filter_append :
    (p : Item → Bool) (l : List Item) (x : Item)
    → filter p (l ++ (x ∷ [])) ≡ (if p x then filter p l ++ (x ∷ []) else filter p l)
filter_append p [] x = refl
filter_append p (y ∷ l) x = elim (Bool-cases (p y)) [
  | inl e ↦ elim (Bool-cases (p x)) [
    | inl f ↦ rw e (rw f (ap (λ r. y ∷ r) (filter_append p l x ∙ rw f refl)))
    | inr f ↦ rw e (rw f (ap (λ r. y ∷ r) (filter_append p l x ∙ rw f refl)))
  ]
  | inr e ↦ rw e (filter_append p l x)
]

-- The counters of the requests in the window.
pub record Shows (live : List Item) (w : Window) : Type 0 where
  pub denied : w.denied ≡ count is_denied live
  pub missing : w.missing ≡ count is_missing live
  pub path_counts : Counting w.path_counts (paths live)
  pub suspicious : Counting w.suspicious_path_counts (paths (filter is_suspicious live))

pub add_to_window-Shows :
    (live : List Item) (w : Window) (x : Item)
    → Shows live w
    → Shows (live ++ (x ∷ [])) (add_to_window x w)
unfolding add_to_window
add_to_window-Shows live w x s = record {
  denied = ground (arith, count_append is_denied live x, s.denied);
  missing = ground (arith, count_append is_missing live x, s.missing);
  path_counts =
      rw (paths_append live x) (bump-Counting x.path w.path_counts (paths live) s.path_counts);
  suspicious = rw (filter_append is_suspicious live x) (elim (Bool-cases (is_suspicious x)) [
    | inl e ↦ rw e (
        rw (paths_append (filter is_suspicious live) x)
          (bump-Counting x.path w.suspicious_path_counts _ s.suspicious))
    | inr e ↦ rw e s.suspicious
  ]);
}

remove_from_window-Shows :
    (live : List Item) (w : Window) (x : Item)
    → Shows (x ∷ live) w
    → Shows live (remove_from_window x w)
unfolding remove_from_window
remove_from_window-Shows live w x s = record {
  denied = ground (arith, s.denied);
  missing = ground (arith, s.missing);
  path_counts = release-Counting x.path w.path_counts (paths live) s.path_counts;
  suspicious = fewer (is_suspicious x) s.suspicious;
}
  where
    fewer :
        (b : Bool)
        → Counting w.suspicious_path_counts
            (paths (if b then x ∷ filter is_suspicious live else filter is_suspicious live))
        → Counting
            (if b then release x.path w.suspicious_path_counts else w.suspicious_path_counts)
            (paths (filter is_suspicious live))
    fewer true c = release-Counting x.path w.suspicious_path_counts _ c
    fewer false c = c

pub Shows-context :
    (live : List Item) (w : Window) → Shows live w → context_of_window live w ≡ context_of live
Shows-context live w s i = record {
  requests = length live;
  denied = s.denied i;
  missing = s.missing i;
  unique_paths = length-different w.path_counts _ s.path_counts i;
  suspicious_paths = length-different w.suspicious_path_counts _ s.suspicious i;
}

pub slide-Shows :
    (now : ℕ) (live : List Item) (w : Window)
    → Shows live w
    → Shows (slide now live w).0 (slide now live w).1
unfolding slide
slide-Shows now [] w s = s
slide-Shows now (x ∷ live) w s = elim (Bool-cases (ltb (x.time + request_context_window_ms) now)) [
  | inl e ↦
      simp e (slide-Shows now live (remove_from_window x w) (remove_from_window-Shows live w x s))
  | inr e ↦ simp e s
]
