-- ===== src/Reviews.antt =====
-- backend/internal/security_rule_reviews.js: the verdicts that an operator gives on the requests
-- which a detection rule hit. Instants are milliseconds; `uuid` is the identifier drawn.
pub mod Counts
pub mod Laws
pub mod Lookup
mod Tests
use hyrovi_proxy_manager.Prelude.{
  ℕ, suc, Bool, true, false, not, ◌&&◌, ◌||◌, Option, none, some, List, [], ◌∷◌, leb, ltb,
  if◌then◌else◌, length, take, filter, find?, all, ◌==◌,
}
use hyrovi_proxy_manager.Prelude.Int.{ℤ, pos, negsuc}
use hyrovi_proxy_manager.Js.Text.{
  Text, codes, text_eq, is_upper_unit, is_lower_unit, is_digit, includes_unit, is_empty, to_lower,
}
use hyrovi_proxy_manager.Js.Value.{Value, undefined, trimmed, truthy, parse_int}
use hyrovi_proxy_manager.Errors.{
  Error, validation_error, Result, ok, err, M, pure, throw, throw_if, branch, on_option, lift,
  ◌>>=◌, ◌>>◌,
}
use hyrovi_proxy_manager.Store.{Store, read_rows, write_rows}

-- A verdict that an operator gives, or another value that a row of the file holds.
pub data Verdict : Type 0 where
  confirmed_attack expected false_positive : Verdict
  other : Value → Verdict

pub record Review : Type 0 where
  pub id : Text
  pub rule_id : Text
  pub request_id : Text
  pub verdict : Verdict
  pub created_at : ℕ
  pub updated_at : ℕ

abbrev pub max_reviews : ℕ
max_reviews = 5000

abbrev pub invalid_state : Text
invalid_state = codes "Invalid HYROVI Sec rule-review state"

-- /^[A-Za-z0-9._:-]{1,160}$/
abbrev is_id_unit : ℕ → Bool
is_id_unit c = is_upper_unit c || is_lower_unit c || is_digit c || includes_unit (codes "._:-") c

pub normalize_id : Value → Result Text
unfolding trimmed includes_unit
normalize_id v =
    let id = trimmed v in
    if not (is_empty id) && leb (length id) 160 && all is_id_unit id
    then ok id
    else err (validation_error (codes "ID is invalid"))

pub normalize_verdict : Value → Result Verdict
unfolding trimmed to_lower text_eq
normalize_verdict v =
    let verdict = to_lower (trimmed v) in
    if text_eq verdict (codes "confirmed_attack")
    then ok confirmed_attack
    else if text_eq verdict (codes "expected")
    then ok expected
    else if text_eq verdict (codes "false_positive")
    then ok false_positive
    else err (
        validation_error
          (codes "Rule-hit verdict must be confirmed_attack, expected or false_positive"))

-- The entry of a rule and a request.
abbrev pub has_key : Text → Text → Review → Bool
has_key rule request r = text_eq r.rule_id rule && text_eq r.request_id request

-- reviews[index] = review, or reviews.push(review)
pub put_review : Review → List Review → List Review
put_review r [] = r ∷ []
put_review r (x ∷ rest) =
    if has_key r.rule_id r.request_id x then r ∷ rest else x ∷ put_review r rest

pub review_for : (uuid : Text) (now : ℕ) (rule request : Text) → Verdict → Option Review → Review
review_for uuid now rule request verdict none = record {
  id = uuid;
  rule_id = rule;
  request_id = request;
  verdict = verdict;
  created_at = now;
  updated_at = now;
}
review_for uuid now rule request verdict (some old) = record {
  id = old.id;
  rule_id = rule;
  request_id = request;
  verdict = verdict;
  created_at = old.created_at;
  updated_at = now;
}

abbrev pub is_full : List Review → Option Review → Bool
is_full reviews (some old) = false
is_full reviews none = leb max_reviews (length reviews)

pub upsert_review :
    (uuid : Text) (now : ℕ) (rule_id request_id verdict : Value) → M (Store Review) Review
upsert_review uuid now rule_id request_id verdict = do
  rule ← lift (normalize_id rule_id)
  request ← lift (normalize_id request_id)
  chosen ← lift (normalize_verdict verdict)
  reviews ← read_rows invalid_state
  throw_if (is_full reviews (find? (has_key rule request) reviews))
      (validation_error (codes "Rule-hit reviews are limited to 5000"))
  let review = review_for uuid now rule request chosen (find? (has_key rule request) reviews)
  write_rows (put_review review reviews)
  pure review

pub delete_review : (rule_id request_id : Value) → M (Store Review) (Unit {0})
delete_review rule_id request_id = do
  rule ← lift (normalize_id rule_id)
  request ← lift (normalize_id request_id)
  reviews ← read_rows invalid_state
  let next = filter (λ r. not (has_key rule request r)) reviews
  branch (length next == length reviews) (pure tt) (write_rows next)

pub delete_reviews_for_rule : Value → M (Store Review) (Unit {0})
delete_reviews_for_rule rule_id = do
  rule ← lift (normalize_id rule_id)
  reviews ← read_rows invalid_state
  let next = filter (λ r. not (text_eq r.rule_id rule)) reviews
  branch (length next == length reviews) (pure tt) (write_rows next)

-- `ruleId ? normalizeId(ruleId) : null`
pub optional_id : Value → Result (Option Text)
optional_id v =
    if truthy v then elim (normalize_id v) [ ok id ↦ ok (some id) | err e ↦ err e ] else ok none

-- Math.max(1, Math.min(5000, Number.parseInt(limit, 10) || 5000)), where limit = 5000 by default
abbrev pub limit_of : Option ℤ → ℕ
limit_of none = max_reviews
limit_of (some (negsuc n)) = 1
limit_of (some (pos n)) =
    if n == 0 then max_reviews else if ltb max_reviews n then max_reviews else n

pub bounded_limit : Value → ℕ
unfolding parse_int
bounded_limit undefined = max_reviews
bounded_limit v = limit_of (parse_int v)

abbrev pub allows : Option Text → Text → Bool
allows none id = true
allows (some wanted) id = text_eq id wanted

-- The stable sort by `updatedAt`, newest first.
pub insert_review : Review → List Review → List Review
insert_review r [] = r ∷ []
insert_review r (x ∷ rest) =
    if leb x.updated_at r.updated_at then r ∷ x ∷ rest else x ∷ insert_review r rest

pub newest_first : List Review → List Review
newest_first [] = []
newest_first (r ∷ rest) = insert_review r (newest_first rest)

pub list_reviews : (rule_id request_id limit : Value) → M (Store Review) (List Review)
list_reviews rule_id request_id limit = do
  rule ← lift (optional_id rule_id)
  request ← lift (optional_id request_id)
  reviews ← read_rows invalid_state
  pure (
      take (bounded_limit limit) (
        newest_first (
          filter (λ r. allows request r.request_id) (filter (λ r. allows rule r.rule_id) reviews))))

pub record Summary : Type 0 where
  pub total : ℕ
  pub confirmed_attack : ℕ
  pub expected : ℕ
  pub false_positive : ℕ

abbrev pub verdict_eq : Verdict → Verdict → Bool
verdict_eq confirmed_attack confirmed_attack = true
verdict_eq expected expected = true
verdict_eq false_positive false_positive = true
verdict_eq _ _ = false

pub summarize_reviews : List Review → Summary
summarize_reviews reviews = record {
  total = length reviews;
  confirmed_attack = length (filter (λ r. verdict_eq r.verdict confirmed_attack) reviews);
  expected = length (filter (λ r. verdict_eq r.verdict expected) reviews);
  false_positive = length (filter (λ r. verdict_eq r.verdict false_positive) reviews);
}

-- The requests that change the file, each with its identifier and instant.
pub data Request : Type 0 where
  upsert : Text → ℕ → Value → Value → Value → Request
  delete : Value → Value → Request
  delete_rule : Value → Request

pub step : Request → Store Review → Store Review
step (upsert uuid now rule request verdict) s = (upsert_review uuid now rule request verdict s).1
step (delete rule request) s = (delete_review rule request s).1
step (delete_rule rule) s = (delete_reviews_for_rule rule s).1

pub serve : List Request → Store Review → Store Review
serve [] s = s
serve (r ∷ rs) s = serve rs (step r s)
