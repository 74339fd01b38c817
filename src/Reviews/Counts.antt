-- ===== src/Reviews/Counts.antt =====
-- The counters of `summarizeReviews` of backend/internal/security_rule_reviews.js.
use hyrovi_proxy_manager.Prelude.{
  ℕ, ◌+◌, ◌≡◌, refl, sym, false, inl, inr, Option, none, some, List, [], ◌∷◌, arith, if◌then◌else◌,
  length, filter, find?, Bool-cases,
}
use hyrovi_proxy_manager.Js.Value.{Value}
use hyrovi_proxy_manager.Reviews.{
  Verdict, confirmed_attack, expected, false_positive, other, Summary, Review, has_key, put_review,
  verdict_eq, summarize_reviews,
}

-- The counter of a verdict.
abbrev pub count_of : Verdict → Summary → ℕ
count_of confirmed_attack s = s.confirmed_attack
count_of expected s = s.expected
count_of false_positive s = s.false_positive
count_of (other t) s = 0

-- What a row, or the row that is replaced if there is one, adds to the counter of a verdict.
abbrev pub weight : Verdict → Review → ℕ
weight v r = if verdict_eq r.verdict v then 1 else 0

abbrev pub weight_if : Verdict → Option Review → ℕ
weight_if v none = 0
weight_if v (some r) = weight v r

verdict_eq-other : (v : Verdict) (t : Value) → verdict_eq v (other t) ≡ false
verdict_eq-other confirmed_attack t = refl
verdict_eq-other expected t = refl
verdict_eq-other false_positive t = refl
verdict_eq-other (other s) t = refl

filter-other :
    (t : Value) (l : List Review) → length (filter (λ r. verdict_eq r.verdict (other t)) l) ≡ 0
filter-other t [] = refl
filter-other t (r ∷ l) = rw (verdict_eq-other r.verdict t) (filter-other t l)

count_of-summarize_reviews :
    (v : Verdict) (l : List Review)
    → count_of v (summarize_reviews l) ≡ length (filter (λ r. verdict_eq r.verdict v) l)
unfolding summarize_reviews
count_of-summarize_reviews confirmed_attack l = refl
count_of-summarize_reviews expected l = refl
count_of-summarize_reviews false_positive l = refl
count_of-summarize_reviews (other t) l = sym (filter-other t l)

length-filter_cons :
    (v : Verdict) (r : Review) (l : List Review)
    → length (filter (λ x. verdict_eq x.verdict v) (r ∷ l))
      ≡ weight v r + length (filter (λ x. verdict_eq x.verdict v) l)
length-filter_cons v r l = ground arith

filter-put_review :
    (v : Verdict) (r : Review) (l : List Review)
    → length (filter (λ x. verdict_eq x.verdict v) (put_review r l))
        + weight_if v (find? (has_key r.rule_id r.request_id) l)
      ≡ length (filter (λ x. verdict_eq x.verdict v) l) + weight v r
unfolding put_review
filter-put_review v r [] = let head = length-filter_cons v r [] in omega (arith, head)
filter-put_review v r (x ∷ l) = elim (Bool-cases (has_key r.rule_id r.request_id x)) [
  | inl e ↦
      let new = length-filter_cons v r l in
      let old = length-filter_cons v x l in rw e (omega (arith, new, old))
  | inr e ↦
      let new = length-filter_cons v x (put_review r l) in
      let old = length-filter_cons v x l in
      let rest = filter-put_review v r l in rw e (omega (arith, new, old, rest))
]

-- A review that is put on file adds one to the counter of its verdict and, when it replaces a row, takes
-- one from the counter of that row's verdict; all other counters stay as they are.
pub summarize_reviews-put_review :
    (v : Verdict) (r : Review) (l : List Review)
    → count_of v (summarize_reviews (put_review r l))
        + weight_if v (find? (has_key r.rule_id r.request_id) l)
      ≡ count_of v (summarize_reviews l) + weight v r
summarize_reviews-put_review v r l =
    rw (count_of-summarize_reviews v (put_review r l), count_of-summarize_reviews v l)
      (filter-put_review v r l)
