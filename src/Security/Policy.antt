-- ===== src/Security/Policy.antt =====
-- The policies of backend/internal/security.js: the global one, and those of single hosts. A JSON value of any shape is normalised to a policy.
pub mod Bounds
pub mod Stored
mod Tests
use hyrovi_proxy_manager.Prelude.{
  ℕ, zero, suc, ◌+◌, ◌≤◌, ◌≡◌, refl, Bool, true, false, not, ◌&&◌, ◌||◌, Option, none, some, List,
  [], ◌∷◌, ◌++◌, map, any, all, take, filter, leb, ltb, ◌==◌, if◌then◌else◌, length, min, max,
}
use hyrovi_proxy_manager.Prelude.Int.{ℤ, pos, negsuc, clamp}
use hyrovi_proxy_manager.Js.Text.{
  Text, codes, text_eq, trim, is_empty, is_digit, dedupe, starts_with, to_lower, mem_text,
  includes_unit,
}
use hyrovi_proxy_manager.Js.Value.{
  Value, undefined, null, bool, num, arr, str, obj, items, Items, nil, cons, Fields, end, field,
  decimal, digits_value, trimmed, parse_int, prop, is_object,
}
use hyrovi_proxy_manager.Security.Endpoints.{
  Mode, observe, strict, EndpointRule, parse_mode, normalize_endpoint_rules,
}
use hyrovi_proxy_manager.Security.Targets.{Net, normalize_trusted_sources, number_or_zero}
use hyrovi_proxy_manager.Security.Rules.{
  Rules, default_rules, normalize_protection_rules, rules_value,
}

pub data Profile : Type 0 where
  conservative balanced aggressive : Profile

pub profile_text : Profile → Text
profile_text conservative = codes "conservative"
profile_text balanced = codes "balanced"
profile_text aggressive = codes "aggressive"

-- AUTOPILOT_PROFILES.has(v) ? v : "balanced"
pub parse_profile : Value → Profile
unfolding text_eq profile_text
parse_profile (str t) =
    if text_eq t (profile_text conservative)
    then conservative
    else if text_eq t (profile_text aggressive)
    then aggressive
    else balanced
parse_profile _ = balanced

-- The global policy without the policies of hosts.
pub record Settings : Type 0 where
  pub auto_block_enabled : Bool
  pub autopilot_profile : Profile
  pub archive_all_requests : Bool
  pub auto_rate_limit_threshold : ℕ
  pub auto_rate_limit_minutes : ℕ
  pub auto_block_threshold : ℕ
  pub auto_block_minutes : ℕ
  pub auto_escalation_hits : ℕ
  pub auto_escalation_window_minutes : ℕ
  pub auto_escalation_cooldown_seconds : ℕ
  pub event_retention_days : ℕ
  pub event_archive_min_risk : ℕ
  pub trusted_sources : List Text
  pub protection_rules : Rules

pub record HostPolicy : Type 0 where
  pub mode : Mode
  pub auto_rate_limit_threshold : ℕ
  pub auto_rate_limit_minutes : ℕ
  pub auto_block_threshold : ℕ
  pub auto_block_minutes : ℕ
  pub challenge_minutes : ℕ
  pub challenge_difficulty : ℕ
  pub protection_rules : Rules
  pub endpoint_rules : List EndpointRule

pub record Policy : Type 0 where
  pub settings : Settings
  pub host_policies : List (Text × HostPolicy)

abbrev pub default_settings : Settings
default_settings = record {
  auto_block_enabled = false;
  autopilot_profile = balanced;
  archive_all_requests = true;
  auto_rate_limit_threshold = 50;
  auto_rate_limit_minutes = 10;
  auto_block_threshold = 95;
  auto_block_minutes = 60;
  auto_escalation_hits = 3;
  auto_escalation_window_minutes = 15;
  auto_escalation_cooldown_seconds = 60;
  event_retention_days = 14;
  event_archive_min_risk = 20;
  trusted_sources = [];
  protection_rules = default_rules;
}

abbrev pub max_host_policies : ℕ
max_host_policies = 500

-- Number.parseInt(v, 10) || fallback
unfoldable pub int_or : Option ℤ → ℕ → ℤ
int_or none fallback = pos fallback
int_or (some (pos zero)) fallback = pos fallback
int_or (some z) fallback = z

-- Number.isInteger(n) ? n : fallback
pub int_else : Option ℤ → ℕ → ℤ
int_else none fallback = pos fallback
int_else (some z) fallback = z

abbrev pub bool_or : Value → Bool → Bool
bool_or (bool b) fallback = b
bool_or _ fallback = fallback

abbrev pub is_true : Value → Bool
is_true (bool b) = b
is_true _ = false

pub bounded : Text → Value → (fallback low high : ℕ) → ℕ
unfolding int_or parse_int
bounded name v fallback low high = clamp (int_or (parse_int (prop name v)) fallback) low high

pub bounded_else : Text → Value → (fallback low high : ℕ) → ℕ
unfolding int_else parse_int
bounded_else name v fallback low high = clamp (int_else (parse_int (prop name v)) fallback) low high

-- Everything of `normalizePolicy` but the policies of hosts.
pub normalize_settings : Net → Value → Settings
normalize_settings net v = record {
  auto_block_enabled = is_true (prop (codes "autoBlockEnabled") v);
  autopilot_profile = parse_profile (prop (codes "autopilotProfile") v);
  archive_all_requests = bool_or (prop (codes "archiveAllRequests") v) true;
  auto_rate_limit_threshold = bounded (codes "autoRateLimitThreshold") v 50 40 100;
  auto_rate_limit_minutes = bounded (codes "autoRateLimitMinutes") v 10 1 43_200;
  auto_block_threshold = bounded (codes "autoBlockThreshold") v 95 80 100;
  auto_block_minutes = bounded (codes "autoBlockMinutes") v 60 1 43_200;
  auto_escalation_hits = bounded (codes "autoEscalationHits") v 3 2 20;
  auto_escalation_window_minutes = bounded (codes "autoEscalationWindowMinutes") v 15 1 1440;
  auto_escalation_cooldown_seconds = bounded (codes "autoEscalationCooldownSeconds") v 60 5 3600;
  event_retention_days = bounded_else (codes "eventRetentionDays") v 14 1 90;
  event_archive_min_risk = bounded_else (codes "eventArchiveMinRisk") v 20 0 100;
  trusted_sources = normalize_trusted_sources net (prop (codes "trustedSources") v);
  protection_rules =
      normalize_protection_rules (prop (codes "protectionRules") v) default_rules false;
}

abbrev pub is_strict : Mode → Bool
is_strict strict = true
is_strict _ = false

abbrev pub mode_or_observe : Option Mode → Mode
mode_or_observe none = observe
mode_or_observe (some m) = m

-- Math.max of a natural number and a whole number
abbrev pub at_least : ℕ → ℤ → ℕ
at_least low (pos n) = max low n
at_least low (negsuc n) = low

pub difficulty_of : Bool → Value → ℕ
unfolding int_or parse_int
difficulty_of hard v =
    let usual = if hard then 16 else 14 in
    clamp
      (pos (
        at_least (if hard then 16 else 10)
          (int_or (parse_int (prop (codes "challengeDifficulty") v)) usual)))
      10 22

-- Thresholds and minutes of the global policy are never 0, so its fallbacks to the defaults are
-- not taken.
pub normalize_host_policy : Value → Settings → HostPolicy
normalize_host_policy v global =
    let mode = mode_or_observe (parse_mode (prop (codes "mode") v)) in
    let minutes =
      bounded (codes "autoRateLimitMinutes") v global.auto_rate_limit_minutes 1 43_200 in
    let threshold =
      if is_strict mode
      then min global.auto_rate_limit_threshold 45
      else global.auto_rate_limit_threshold in
    let block_threshold =
      if is_strict mode then min global.auto_block_threshold 90 else global.auto_block_threshold in
    record {
      mode = mode;
      auto_rate_limit_threshold = bounded (codes "autoRateLimitThreshold") v threshold 40 100;
      auto_rate_limit_minutes = minutes;
      auto_block_threshold = bounded (codes "autoBlockThreshold") v block_threshold 80 100;
      auto_block_minutes = bounded (codes "autoBlockMinutes") v global.auto_block_minutes 1 43_200;
      challenge_minutes = bounded (codes "challengeMinutes") v (min 30 (max 5 minutes)) 1 120;
      challenge_difficulty = difficulty_of (is_strict mode) v;
      protection_rules =
          normalize_protection_rules (prop (codes "protectionRules") v) global.protection_rules
            true;
      endpoint_rules = normalize_endpoint_rules (prop (codes "endpointRules") v);
    }

-- The entries of an object that `normalizeHostPolicies` keeps: /^\d+$/ and at least 1.
abbrev pub is_host_id : Text → Bool
is_host_id k = not (is_empty k) && all is_digit k && leb 1 (number_or_zero (digits_value none k))

pub host_entries : Settings → ℕ → Fields → List (Text × HostPolicy)
unfolding digits_value
host_entries global zero fs = []
host_entries global (suc n) end = []
host_entries global (suc n) (field k v rest) =
    let later = host_entries global n rest in
    if is_host_id k then (k, normalize_host_policy v global) ∷ later else later

pub normalize_host_policies : Value → Settings → List (Text × HostPolicy)
normalize_host_policies (obj fs) global = host_entries global max_host_policies fs
normalize_host_policies _ global = []

pub normalize_policy : Net → Value → Policy
normalize_policy net v =
    let settings = normalize_settings net v in
    record {
      settings = settings;
      host_policies = normalize_host_policies (prop (codes "hostPolicies") v) settings;
    }
