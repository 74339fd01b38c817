-- ===== src/Security/Autopilot.antt =====
-- The autopilot of backend/internal/security.js: which kind of attack a request is, and how strongly
-- to answer it.
pub mod Laws
mod Tests
use hyrovi_proxy_manager.Prelude.{
  ℕ, zero, suc, ◌+◌, ◌*◌, min, Bool, true, false, not, ◌&&◌, ◌||◌, Option, none, some, List, [],
  ◌∷◌, map, filter, take, length, any, ltb, leb, if◌then◌else◌,
}
use hyrovi_proxy_manager.Js.Text.{Text, codes, text_eq, mem_text, starts_with}
use hyrovi_proxy_manager.Security.Events.{Event, Signal, has_signal, risk_for_response}
use hyrovi_proxy_manager.Security.Targets.{Net, is_private_or_loopback, is_trusted_source}
use hyrovi_proxy_manager.Js.Value.{arr, text_items}
use hyrovi_proxy_manager.Security.Rules.{
  RuleKey, critical_files, exploit, auth_abuse, crawler, ddos, recon, unusual_methods,
}
use hyrovi_proxy_manager.Security.Policy.{Profile, conservative, balanced, aggressive, Settings}

pub data Response : Type 0 where
  observe rate_limit challenge block : Response

pub record RuleMatch : Type 0 where
  pub key : RuleKey
  pub label : Text

pub rule_label : RuleKey → Text
rule_label critical_files = codes "critical file probe"
rule_label exploit = codes "exploit / injection probe"
rule_label auth_abuse = codes "authentication abuse burst"
rule_label crawler = codes "crawler / scanner attack"
rule_label ddos = codes "request burst / DDoS pattern"
rule_label recon = codes "reconnaissance / enumeration"
rule_label unusual_methods = codes "unusual HTTP method"

abbrev matched : RuleKey → Option RuleMatch
matched k = some (record { key = k; label = rule_label k })

pub protection_rule_for_event : Event → Option RuleMatch
unfolding text_eq
protection_rule_for_event e =
    if has_signal (codes "sensitive_file_probe") e
    then matched critical_files
    else if has_signal (codes "path_traversal") e || has_signal (codes "injection_probe") e
    then matched exploit
    else if has_signal (codes "auth_failure_burst") e
    then matched auth_abuse
    else if has_signal (codes "crawler_attack") e
    then matched crawler
    else if has_signal (codes "extreme_request_burst") e || has_signal (codes "request_burst") e
    then matched ddos
    else if has_signal (codes "reconnaissance_burst") e
        || has_signal (codes "path_enumeration") e
        || has_signal (codes "scanner_user_agent") e
        || has_signal (codes "cms_probe") e
    then matched recon
    else if has_signal (codes "unusual_method") e
    then matched unusual_methods
    else none

-- An entry of the action log; `at` is what Date.parse makes of its time.
pub record SecurityAction : Type 0 where
  pub kind : Text
  pub action : Text
  pub ip : Text
  pub at : Option ℕ

abbrev pub autopilot_repeat_window_ms : ℕ
autopilot_repeat_window_ms = 86_400_000

abbrev is_recent : ℕ → Option ℕ → Bool
is_recent now none = false
is_recent now (some t) = leb now (t + autopilot_repeat_window_ms)

pub recent_started_block_count : ℕ → Text → List SecurityAction → ℕ
unfolding text_eq
recent_started_block_count now ip log = length (
    filter
      (λ a.
        text_eq a.kind (codes "block")
        && text_eq a.action (codes "started")
        && text_eq a.ip ip
        && is_recent now a.at)
      log)

pub record Thresholds : Type 0 where
  pub for_rate_limit : ℕ
  pub for_challenge : ℕ
  pub for_block : ℕ

pub autopilot_thresholds : Profile → Thresholds
autopilot_thresholds conservative = record {
  for_rate_limit = 60;
  for_challenge = 82;
  for_block = 96;
}
autopilot_thresholds balanced = record { for_rate_limit = 48; for_challenge = 72; for_block = 90 }
autopilot_thresholds aggressive = record { for_rate_limit = 40; for_challenge = 62; for_block = 82 }

pub strong_ids : List Text
strong_ids =
    codes "crawler_attack"
    ∷ codes "extreme_request_burst"
    ∷ codes "auth_failure_burst"
    ∷ codes "reconnaissance_burst"
    ∷ codes "path_traversal"
    ∷ codes "injection_probe"
    ∷ codes "sensitive_file_probe"
    ∷ codes "scanner_user_agent"
    ∷ []

pub record Decision : Type 0 where
  pub profile : Profile
  pub rule : Option RuleKey
  pub classification : Text
  pub action : Response
  pub confidence : ℕ
  pub risk : ℕ
  pub strong_signals : ℕ
  pub signals : List Text
  pub repeat_blocks : ℕ
  pub previous_response : Response
  pub challenge_mature : Option Bool
  pub duration_multiplier : ℕ
  pub request_id : Option Text
  pub host : Text
  pub path : Text
  pub decided_at : ℕ

-- The response for a level of confidence.
pub chosen_response : Thresholds → (limited challenged mature : Bool) → ℕ → Response
chosen_response t limited challenged mature confidence =
    if challenged && not mature
    then challenge
    else if challenged && leb t.for_challenge confidence
    then block
    else if leb t.for_block confidence
    then block
    else if limited && leb t.for_rate_limit confidence
    then challenge
    else if leb t.for_challenge confidence
    then challenge
    else if leb t.for_rate_limit confidence
    then rate_limit
    else observe

-- The risk raised by the responses that run already, by strong signals and by repeated blocks.
pub confidence_of : (risk : ℕ) (limited challenged : Bool) (strong repeats : ℕ) → ℕ
confidence_of risk limited challenged strong repeats = min 100 (
    min 100 risk
    + (if challenged then 16 else if limited then 8 else 0)
    + min 8 (strong * 2)
    + min 12 (repeats * 4))

abbrev label_of : Option RuleMatch → Text
label_of none = codes "suspicious request"
label_of (some r) = r.label

abbrev key_of : Option RuleMatch → Option RuleKey
key_of none = none
key_of (some r) = some r.key

pub strong_count : Event → ℕ
unfolding text_eq strong_ids
strong_count e = length (filter (λ s. mem_text s.id strong_ids) e.signals)

pub autopilot_decision_for_event :
    Settings
    → (now : ℕ) → Option RuleMatch
    → (limited challenged mature : Bool) → List SecurityAction
    → Event
    → Decision
autopilot_decision_for_event policy now rule limited challenged mature log e =
    let strong = strong_count e in
    let repeats = recent_started_block_count now e.ip log in
    let confidence = confidence_of (risk_for_response e) limited challenged strong repeats in
    record {
      profile = policy.autopilot_profile;
      rule = key_of rule;
      classification = label_of rule;
      action =
          chosen_response (autopilot_thresholds policy.autopilot_profile) limited challenged mature
            confidence;
      confidence = confidence;
      risk = min 100 (risk_for_response e);
      strong_signals = strong;
      signals = take 20 (map (λ s. s.id) e.signals);
      repeat_blocks = repeats;
      previous_response = if challenged then challenge else if limited then rate_limit else observe;
      challenge_mature = if challenged then some mature else none;
      duration_multiplier = min 4 (1 + repeats);
      request_id = e.request_id;
      host = e.host;
      path = e.path;
      decided_at = now;
    }

module _ (net : Net) (trusted : List Text) where
  pub is_exempt : Text → Bool
  unfolding text_items
  is_exempt ip =
      is_private_or_loopback net ip || is_trusted_source net ip (arr (text_items trusted))

  -- The two tests that each candidate starts with.
  abbrev pub is_in_scope : ℕ → Event → Bool
  is_in_scope threshold e = leb threshold (risk_for_response e) && not (is_exempt e.ip)

  pub event_is_crawler_attack_candidate : ℕ → Event → Bool
  unfolding text_eq
  event_is_crawler_attack_candidate block_threshold e =
      is_in_scope (min block_threshold 80) e && has_signal (codes "crawler_attack") e

  pub event_is_auto_block_candidate : ℕ → Event → Bool
  unfolding text_eq
  event_is_auto_block_candidate block_threshold e =
      is_in_scope block_threshold e
      && (has_signal (codes "path_traversal") e
          || has_signal (codes "injection_probe") e
          || has_signal (codes "reconnaissance_burst") e
          || has_signal (codes "auth_failure_burst") e
          || (has_signal (codes "sensitive_file_probe") e
              && has_signal (codes "scanner_user_agent") e))

  pub event_is_auto_rate_limit_candidate : ℕ → Event → Bool
  unfolding text_eq starts_with
  event_is_auto_rate_limit_candidate threshold e =
      is_in_scope threshold e
      && (has_signal (codes "path_traversal") e
          || has_signal (codes "injection_probe") e
          || has_signal (codes "sensitive_file_probe") e
          || has_signal (codes "request_burst") e
          || has_signal (codes "auth_failure_burst") e
          || has_signal (codes "path_enumeration") e
          || has_signal (codes "reconnaissance_burst") e
          || (has_signal (codes "scanner_user_agent") e
              && (has_signal (codes "cms_probe") e
                  || has_signal (codes "access_denied") e
                  || has_signal (codes "not_found") e))
          || (has_signal (codes "unusual_method") e && has_signal (codes "access_denied") e)
          || any (λ s. starts_with s.id (codes "custom:soft:")) e.signals)
