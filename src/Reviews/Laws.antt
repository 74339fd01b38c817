-- ===== src/Reviews/Laws.antt =====
-- The rows of the file of backend/internal/security_rule_reviews.js.
use hyrovi_proxy_manager.Prelude.{
  ℕ, suc, ◌≤◌, ◌≡◌, refl, subst, Bool, true, false, inl, inr, Option, none, some, List, [], ◌∷◌,
  arith, length, filter, find?, All, All-filter, Bool-cases, Option-cases, length-filter-le,
}
use hyrovi_proxy_manager.Js.Text.{Text, text_eq_iff}
use hyrovi_proxy_manager.Js.Value.{Value}
use hyrovi_proxy_manager.Hoare.{
  Ensures, Any, Ensures-bind, Ensures-pure, Ensures-throw_if, Ensures-lift, Ensures-branch,
  Outcome-state,
}
use hyrovi_proxy_manager.Store.{Store, OnFile, read_rows-OnFile, write_rows-OnFile}
use hyrovi_proxy_manager.Reviews.{
  Verdict, Review, max_reviews, has_key, put_review, review_for, is_full, upsert_review,
  delete_review, delete_reviews_for_rule, Request, upsert, delete, delete_rule, step, serve,
}

-- No later row has the rule and the request of this one.
abbrev pub Others : Text → Text → List Review → Type 0
Others rule request = All (λ x. has_key rule request x ≡ false)

abbrev pub Unique : List Review → Type 0
Unique [] = Unit
Unique (r ∷ rest) = Others r.rule_id r.request_id rest × Unique rest

-- At most one row to a rule and a request, and at most 5000 rows.
abbrev pub Sound : List Review → Type 0
Sound l = Unique l × (length l ≤ max_reviews)

filter-Unique : (p : Review → Bool) (l : List Review) → Unique l → Unique (filter p l)
filter-Unique p [] u = tt
filter-Unique p (r ∷ l) (o, u) = elim (Bool-cases (p r)) [
  | inl e ↦ rw e (All-filter _ p l o, filter-Unique p l u)
  | inr e ↦ rw e (filter-Unique p l u)
]

-- A row of another rule or request than (k, q).
put-Others :
    (k q : Text) (r : Review) (l : List Review)
    → has_key k q r ≡ false
    → Others k q l
    → Others k q (put_review r l)
unfolding put_review
put-Others k q r [] e o = (e, tt)
put-Others k q r (x ∷ l) e (h, o) = elim (Bool-cases (has_key r.rule_id r.request_id x)) [
  | inl f ↦ rw f (e, o)
  | inr f ↦ rw f (h, put-Others k q r l e o)
]

has_key_sym :
    (r x : Review)
    → has_key r.rule_id r.request_id x ≡ false
    → has_key x.rule_id x.request_id r ≡ false
has_key_sym r x h = ground (
  arith,
  text_eq_iff x.rule_id r.rule_id,
  text_eq_iff r.rule_id x.rule_id,
  text_eq_iff x.request_id r.request_id,
  text_eq_iff r.request_id x.request_id,
)

pub same_key-Others :
    (r x : Review) (l : List Review)
    → has_key r.rule_id r.request_id x ≡ true
    → Others x.rule_id x.request_id l
    → Others r.rule_id r.request_id l
same_key-Others r x l h o =
    let rule : x.rule_id ≡ r.rule_id = ground (arith, text_eq_iff x.rule_id r.rule_id) in
    let request : x.request_id ≡ r.request_id =
      ground (arith, text_eq_iff x.request_id r.request_id) in
    subst (λ k. Others k r.request_id l) rule (subst (λ q. Others x.rule_id q l) request o)

put_review-Unique : (r : Review) (l : List Review) → Unique l → Unique (put_review r l)
unfolding put_review
put_review-Unique r [] u = (tt, tt)
put_review-Unique r (x ∷ l) (o, u) = elim (Bool-cases (has_key r.rule_id r.request_id x)) [
  | inl f ↦ rw f (same_key-Others r x l f o, u)
  | inr f ↦
      rw f (put-Others x.rule_id x.request_id r l (has_key_sym r x f) o, put_review-Unique r l u)
]

-- Only a row of a new rule and request makes the list longer.
length-put_review :
    (r : Review) (l : List Review)
    → length (put_review r l) ≡ elim (find? (has_key r.rule_id r.request_id) l) [
      | none ↦ suc (length l)
      | some _ ↦ length l
    ]
unfolding put_review
length-put_review r [] = refl
length-put_review r (x ∷ l) = elim (Bool-cases (has_key r.rule_id r.request_id x)) [
  | inl f ↦ rw f refl
  | inr f ↦ rw f (elim (Option-cases (find? (has_key r.rule_id r.request_id) l)) [
    | inl none_is ↦ ground (arith, length-put_review r l)
    | inr (o, some_is) ↦ ground (arith, length-put_review r l)
  ])
]

filter-Sound : (p : Review → Bool) (l : List Review) → Sound l → Sound (filter p l)
filter-Sound p l (u, few) = (filter-Unique p l u, omega (arith, length-filter-le p l))

pub review_for_rule :
    (uuid : Text) (now : ℕ) (k q : Text) (v : Verdict) (o : Option Review)
    → (review_for uuid now k q v o).rule_id ≡ k
unfolding review_for
review_for_rule uuid now k q v none = refl
review_for_rule uuid now k q v (some r) = refl

pub review_for_request :
    (uuid : Text) (now : ℕ) (k q : Text) (v : Verdict) (o : Option Review)
    → (review_for uuid now k q v o).request_id ≡ q
unfolding review_for
review_for_request uuid now k q v none = refl
review_for_request uuid now k q v (some r) = refl

put_review_few :
    (r : Review) (l : List Review) (o : Option Review)
    → find? (has_key r.rule_id r.request_id) l ≡ o
    → is_full l o ≡ false
    → length l ≤ max_reviews
    → length (put_review r l) ≤ max_reviews
put_review_few r l none e room few = rw (length-put_review r l) (rw e (ground arith))
put_review_few r l (some x) e room few = rw (length-put_review r l) (rw e (ground arith))

put_review-Sound :
    (uuid : Text) (now : ℕ) (k q : Text) (v : Verdict) (l : List Review)
    → is_full l (find? (has_key k q) l) ≡ false
    → Sound l
    → Sound (put_review (review_for uuid now k q v (find? (has_key k q) l)) l)
put_review-Sound uuid now k q v l room (u, few) =
    let o = find? (has_key k q) l in
    let r = review_for uuid now k q v o in
    let same : find? (has_key r.rule_id r.request_id) l ≡ o =
      rw (review_for_rule uuid now k q v o, review_for_request uuid now k q v o) refl in
    (put_review-Unique r l u, put_review_few r l o same room few)

empty-Sound : Sound []
empty-Sound = (tt, omega arith)

upsert_review-Sound :
    (uuid : Text) (now : ℕ) (rule request verdict : Value)
    → Ensures (OnFile Sound) (Any (OnFile Sound)) (upsert_review uuid now rule request verdict)
unfolding upsert_review
upsert_review-Sound uuid now rule request verdict = Ensures-bind _ (Ensures-lift _ _) (λ k _.
    Ensures-bind _ (Ensures-lift _ _) (λ q _. Ensures-bind _ (Ensures-lift _ _) (λ v _.
      Ensures-bind _ (read_rows-OnFile Sound _ empty-Sound) (λ l sound.
        Ensures-bind _ (Ensures-throw_if _ _ _) (λ _ room.
          Ensures-bind _ (write_rows-OnFile Sound _ (put_review-Sound uuid now k q v l room sound))
            (λ _ _. Ensures-pure _ _ tt))))))

delete_review-Sound :
    (rule request : Value)
    → Ensures (OnFile Sound) (Any (OnFile Sound)) (delete_review rule request)
unfolding delete_review
delete_review-Sound rule request = Ensures-bind _ (Ensures-lift _ _) (λ k _.
    Ensures-bind _ (Ensures-lift _ _) (λ q _.
      Ensures-bind _ (read_rows-OnFile Sound _ empty-Sound) (λ l sound.
        Ensures-branch _ _ (λ _. Ensures-pure _ _ tt)
          (λ _. write_rows-OnFile Sound _ (filter-Sound _ l sound)))))

delete_reviews_for_rule-Sound :
    (rule : Value) → Ensures (OnFile Sound) (Any (OnFile Sound)) (delete_reviews_for_rule rule)
unfolding delete_reviews_for_rule
delete_reviews_for_rule-Sound rule = Ensures-bind _ (Ensures-lift _ _) (λ k _.
    Ensures-bind _ (read_rows-OnFile Sound _ empty-Sound) (λ l sound.
      Ensures-branch _ _ (λ _. Ensures-pure _ _ tt)
        (λ _. write_rows-OnFile Sound _ (filter-Sound _ l sound))))

step-Sound : (r : Request) (s : Store Review) → OnFile Sound s → OnFile Sound (step r s)
unfolding step
step-Sound (upsert uuid now rule request verdict) s h =
    Outcome-state (OnFile Sound) (Any (OnFile Sound)) _
      ((upsert_review-Sound uuid now rule request verdict).run s h)
step-Sound (delete rule request) s h =
    Outcome-state (OnFile Sound) (Any (OnFile Sound)) _ ((delete_review-Sound rule request).run s h)
step-Sound (delete_rule rule) s h =
    Outcome-state (OnFile Sound) (Any (OnFile Sound)) _
      ((delete_reviews_for_rule-Sound rule).run s h)

-- Whatever requests change the review file, and whatever calls of the file system fail, a file with
-- at most one row to a rule and a request and at most 5000 rows stays so.
pub serve-Sound :
    (rs : List Request) (s : Store Review) → OnFile Sound s → OnFile Sound (serve rs s)
unfolding serve
serve-Sound [] s h = h
serve-Sound (r ∷ rs) s h = serve-Sound rs (step r s) (step-Sound r s h)
