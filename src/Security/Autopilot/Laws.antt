-- ===== src/Security/Autopilot/Laws.antt =====
-- What the decisions of the autopilot depend on.
use hyrovi_proxy_manager.Prelude.{ℕ, ◌≡◌, Bool, true, false, not, &&-true, List, arith, some}
use hyrovi_proxy_manager.Security.Autopilot.{
  Response, observe, rate_limit, challenge, block, is_exempt, event_is_crawler_attack_candidate,
  event_is_auto_block_candidate, event_is_auto_rate_limit_candidate,
}
use hyrovi_proxy_manager.Js.Text.{Text}
use hyrovi_proxy_manager.Security.Events.{Event}
use hyrovi_proxy_manager.Security.Targets.{Net}

-- How strong a response is.
abbrev pub severity : Response → ℕ
severity observe = 0
severity rate_limit = 1
severity challenge = 2
severity block = 3

-- The same request at another risk.
abbrev pub with_risk : ℕ → Event → Event
with_risk n e = record e { automation_risk = some n }

not-true : {b : Bool} → not b ≡ true → b ≡ false
not-true {b} h = ground (arith, h)

-- The candidates for a response are never exempt.
module _ (net : Net) (trusted : List Text) (threshold : ℕ) (e : Event) where
  pub crawler_not_exempt :
      event_is_crawler_attack_candidate net trusted threshold e ≡ true
      → is_exempt net trusted e.ip ≡ false
  unfolding event_is_crawler_attack_candidate
  crawler_not_exempt h = not-true (&&-true _ _ (&&-true _ _ h).0).1

  pub auto_block_not_exempt :
      event_is_auto_block_candidate net trusted threshold e ≡ true
      → is_exempt net trusted e.ip ≡ false
  unfolding event_is_auto_block_candidate
  auto_block_not_exempt h = not-true (&&-true _ _ (&&-true _ _ h).0).1

  pub auto_rate_limit_not_exempt :
      event_is_auto_rate_limit_candidate net trusted threshold e ≡ true
      → is_exempt net trusted e.ip ≡ false
  unfolding event_is_auto_rate_limit_candidate
  auto_rate_limit_not_exempt h = not-true (&&-true _ _ (&&-true _ _ h).0).1
