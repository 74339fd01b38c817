-- ===== src/Reviews/Lookup.antt =====
-- What an upsert shows to a later listing.
use hyrovi_proxy_manager.Prelude.{
  ℕ, zero, suc, ◌≡◌, refl, ap, subst, false, inl, inr, Option, none, some, List, [], ◌∷◌, arith,
  take, filter, find?, Bool-cases, ltb, ◌==◌,
}
use hyrovi_proxy_manager.Prelude.Int.{ℤ, pos, negsuc}
use hyrovi_proxy_manager.Js.Text.{Text, codes, trim, trim_start, text_eq_refl}
use hyrovi_proxy_manager.Js.Value.{
  Value, undefined, null, bool, num, str, arr, obj, parse_int, to_text, trimmed, truthy,
}
use hyrovi_proxy_manager.Errors.{validation_error, ok, err, control}
use hyrovi_proxy_manager.Store.{Store, rows, file_call, rows_of, read_rows, write_rows}
use hyrovi_proxy_manager.Reviews.{
  Verdict, Review, max_reviews, normalize_id, normalize_verdict, has_key, put_review, review_for,
  is_full, allows, insert_review, newest_first, optional_id, limit_of, bounded_limit, upsert_review,
  list_reviews,
}
use hyrovi_proxy_manager.Reviews.Laws.{
  Unique, Others, same_key-Others, review_for_rule, review_for_request,
}

abbrev picked : Text → Text → List Review → List Review
picked k q l =
    filter (λ r. allows (some q) r.request_id) (filter (λ r. allows (some k) r.rule_id) l)

picked-Others : (k q : Text) (l : List Review) → Others k q l → picked k q l ≡ []
picked-Others k q [] o = refl
picked-Others k q (x ∷ l) (h, o) = ground (arith, picked-Others k q l o)

picked-put_review :
    (r : Review) (l : List Review)
    → Unique l
    → picked r.rule_id r.request_id (put_review r l) ≡ r ∷ []
unfolding put_review
picked-put_review r [] u = rw (text_eq_refl r.rule_id) (rw (text_eq_refl r.request_id) refl)
picked-put_review r (x ∷ l) (o, u) = elim (Bool-cases (has_key r.rule_id r.request_id x)) [
  | inl f ↦ ground (
    arith,
    text_eq_refl r.rule_id,
    text_eq_refl r.request_id,
    picked-Others r.rule_id r.request_id l (same_key-Others r x l f o),
  )
  | inr f ↦ ground (arith, f, picked-put_review r l u)
]

limit_of_positive : (o : Option ℤ) → (n : ℕ) × (limit_of o ≡ suc n)
limit_of_positive none = (4999, refl)
limit_of_positive (some (negsuc n)) = (0, refl)
limit_of_positive (some (pos zero)) = (4999, refl)
limit_of_positive (some (pos (suc n))) =
    let positive : (suc n == 0) ≡ false = ground arith in
    elim (Bool-cases (ltb max_reviews (suc n))) [
      | inl e ↦ (4999, rw (positive, e) refl)
      | inr e ↦ (n, rw (positive, e) refl)
    ]

bounded_limit_positive : (v : Value) → (n : ℕ) × (bounded_limit v ≡ suc n)
unfolding bounded_limit
bounded_limit_positive undefined = (4999, refl)
bounded_limit_positive null = limit_of_positive (parse_int null)
bounded_limit_positive (bool b) = limit_of_positive (parse_int (bool b))
bounded_limit_positive (num z) = limit_of_positive (parse_int (num z))
bounded_limit_positive (str s) = limit_of_positive (parse_int (str s))
bounded_limit_positive (arr vs) = limit_of_positive (parse_int (arr vs))
bounded_limit_positive (obj fs) = limit_of_positive (parse_int (obj fs))

normalize_id_falsy :
    (v : Value) → truthy v ≡ false → normalize_id v ≡ err (validation_error (codes "ID is invalid"))
unfolding normalize_id trimmed to_text trim trim_start
normalize_id_falsy v e = rw e refl

optional_id-eq-ok : (v : Value) {k : Text} → normalize_id v ≡ ok k → optional_id v ≡ ok (some k)
unfolding optional_id
optional_id-eq-ok v h = elim (Bool-cases (truthy v)) [
  | inl e ↦ rw e (rw h refl)
  | inr e ↦ let refused = normalize_id_falsy v e in cc
]

abbrev pub calm : List Review → Store Review
calm l = record { file = rows l; faults = [] }

take_nil : (n : ℕ) → take {A = Review} n [] ≡ []
take_nil zero = refl
take_nil (suc n) = refl

list_reviews-calm :
    (a b limit : Value) (k q : Text) (r : Review) (l : List Review)
    → optional_id a ≡ ok (some k)
    → optional_id b ≡ ok (some q)
    → picked k q l ≡ r ∷ []
    → (list_reviews a b limit (calm l)).0 ≡ ok (r ∷ [])
unfolding list_reviews control read_rows file_call rows_of newest_first insert_review
list_reviews-calm a b limit k q r l ha hb one =
    let (n, positive) = bounded_limit_positive limit in
    rw (ha, hb, one, positive) (rw (take_nil n) refl)

upsert_review-calm :
    (uuid : Text) (now : ℕ) (a b v : Value) (l : List Review) {k q : Text} {x : Verdict}
    → normalize_id a ≡ ok k
    → normalize_id b ≡ ok q
    → normalize_verdict v ≡ ok x
    → is_full l (find? (has_key k q) l) ≡ false
    → let r = review_for uuid now k q x (find? (has_key k q) l) in
      upsert_review uuid now a b v (calm l) ≡ (ok r, calm (put_review r l))
unfolding upsert_review control read_rows write_rows file_call rows_of
upsert_review-calm uuid now a b v l ha hb hv room = rw (ha, hb, hv, room) refl

picked_review :
    (uuid : Text) (now : ℕ) (k q : Text) (v : Verdict) (o : Option Review) (l : List Review)
    → Unique l
    → picked k q (put_review (review_for uuid now k q v o) l) ≡ review_for uuid now k q v o ∷ []
picked_review uuid now k q v o l u =
    let r = review_for uuid now k q v o in
    subst (λ i. picked i q (put_review r l) ≡ r ∷ []) (review_for_rule uuid now k q v o)
      (subst (λ j. picked r.rule_id j (put_review r l) ≡ r ∷ [])
        (review_for_request uuid now k q v o) (picked-put_review r l u))

-- When no call of the file system fails and the file holds an array with at most one row to a rule and
-- a request: an upsert whose arguments are valid and that finds room returns the review, and a listing
-- by its rule and request that comes next gives that review alone, whatever limit is asked for.
pub upsert_review-list_reviews :
    (uuid : Text) (now : ℕ) (a b v limit : Value) (l : List Review) {k q : Text} {x : Verdict}
    → normalize_id a ≡ ok k
    → normalize_id b ≡ ok q
    → normalize_verdict v ≡ ok x
    → is_full l (find? (has_key k q) l) ≡ false
    → Unique l
    → let r = review_for uuid now k q x (find? (has_key k q) l) in
      ((upsert_review uuid now a b v (calm l)).0 ≡ ok r)
      × ((list_reviews a b limit (upsert_review uuid now a b v (calm l)).1).0 ≡ ok (r ∷ []))
upsert_review-list_reviews uuid now a b v limit l {k} {q} {x} ha hb hv room u =
    let r = review_for uuid now k q x (find? (has_key k q) l) in
    let done = upsert_review-calm uuid now a b v l ha hb hv room in
    (
      ap (λ y. y.0) done,
      rw done (
          list_reviews-calm a b limit k q r (put_review r l) (optional_id-eq-ok a ha)
            (optional_id-eq-ok b hb) (picked_review uuid now k q x (find? (has_key k q) l) l u)),
    )
