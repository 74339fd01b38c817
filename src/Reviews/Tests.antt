-- ===== src/Reviews/Tests.antt =====
-- Runs on the review file, and the theorems at concrete inputs.
use hyrovi_proxy_manager.Prelude.{◌+◌, ◌≡◌, refl, true, false, [], ◌∷◌, arith}
use hyrovi_proxy_manager.Prelude.Int.{pos}
use hyrovi_proxy_manager.Js.Text.{codes, text_eq}
use hyrovi_proxy_manager.Js.Value.{Value, str, num, texts}
use hyrovi_proxy_manager.Errors.{ok}
use hyrovi_proxy_manager.Store.{rows, OnFile}
use hyrovi_proxy_manager.Reviews.{
  Review, expected, confirmed_attack, upsert, delete_rule, serve, normalize_id, normalize_verdict,
  review_for, put_review, upsert_review, list_reviews, summarize_reviews,
}
use hyrovi_proxy_manager.Reviews.Counts.{summarize_reviews-put_review}
use hyrovi_proxy_manager.Reviews.Laws.{Sound, serve-Sound}
use hyrovi_proxy_manager.Reviews.Lookup.{calm, upsert_review-list_reviews}

abbrev rule : Value
rule = str (codes " scan-1 ")

abbrev request : Value
request = str (codes "req:7")

abbrev old : Review
old = record {
  id = codes "u1";
  rule_id = codes "scan-1";
  request_id = codes "req:7";
  verdict = expected;
  created_at = 10;
  updated_at = 10;
}

upsert_review-list_reviews_example :
    ((upsert_review
        (codes "u2")
        20
        rule
        request
        (str (codes "Confirmed_Attack"))
        (calm (old ∷ []))).0
      ≡ ok (record old { verdict = confirmed_attack; updated_at = 20 }))
    × ((list_reviews rule request
          (num (pos 0))
          (upsert_review
            (codes "u2")
            20
            rule
            request
            (str (codes "Confirmed_Attack"))
            (calm (old ∷ []))).1).0
        ≡ ok (record old { verdict = confirmed_attack; updated_at = 20 } ∷ []))
unfolding texts normalize_id normalize_verdict review_for
upsert_review-list_reviews_example =
    upsert_review-list_reviews (codes "u2") 20 rule request (str (codes "Confirmed_Attack"))
      (num (pos 0)) (old ∷ []) refl refl refl refl (tt, tt)

serve-Sound_example : OnFile Sound (
    serve
      (upsert (codes "u1") 10 rule request (str (codes "expected"))
        ∷ upsert (codes "u2") 20 rule request (str (codes "false_positive"))
        ∷ delete_rule rule
        ∷ [])
      (record { file = rows (old ∷ []); faults = false ∷ true ∷ [] }))
serve-Sound_example =
    serve-Sound
      (upsert (codes "u1") 10 rule request (str (codes "expected"))
        ∷ upsert (codes "u2") 20 rule request (str (codes "false_positive"))
        ∷ delete_rule rule
        ∷ [])
      (record { file = rows (old ∷ []); faults = false ∷ true ∷ [] }) ((tt, tt), omega arith)

summarize_reviews-put_review_example :
    (summarize_reviews (put_review (record old { verdict = confirmed_attack }) (old ∷ []))).expected
      + 1
    ≡ 1
unfolding summarize_reviews text_eq
summarize_reviews-put_review_example =
    summarize_reviews-put_review expected (record old { verdict = confirmed_attack }) (old ∷ [])
