-- ===== src/Security/Policy/Stored.antt =====
-- The global policy that is written is the one that is read back.
use hyrovi_proxy_manager.Prelude.{ℕ, zero, suc, ◌≤◌, ◌≡◌, refl, false, arith}
use hyrovi_proxy_manager.Prelude.Int.{pos}
use hyrovi_proxy_manager.Js.Text.{Text, codes, text_eq}
use hyrovi_proxy_manager.Js.Value.{
  Value, bool, num, str, arr, obj, end, field, parse_int, prop, text_items,
}
use hyrovi_proxy_manager.Security.Targets.{Net, normalize_trusted_sources}
use hyrovi_proxy_manager.Security.Rules.{rules_value, default_rules}
use hyrovi_proxy_manager.Security.Rules.Laws.{normalize_protection_rules-rules_value}
use hyrovi_proxy_manager.Security.Policy.{
  Profile, conservative, balanced, aggressive, Settings, profile_text, parse_profile, int_or,
  int_else, bounded, bounded_else, normalize_settings,
}
use hyrovi_proxy_manager.Security.Policy.Bounds.{Between, InRange}

-- The object that JSON.stringify writes for the global policy.
pub settings_value : Settings → Value
unfolding text_items
settings_value s = obj (
    field (codes "autoBlockEnabled") (bool s.auto_block_enabled) (
      field (codes "autopilotProfile") (str (profile_text s.autopilot_profile)) (
        field (codes "archiveAllRequests") (bool s.archive_all_requests) (
          field (codes "autoRateLimitThreshold") (num (pos s.auto_rate_limit_threshold)) (
            field (codes "autoRateLimitMinutes") (num (pos s.auto_rate_limit_minutes)) (
              field (codes "autoBlockThreshold") (num (pos s.auto_block_threshold)) (
                field (codes "autoBlockMinutes") (num (pos s.auto_block_minutes)) (
                  field (codes "autoEscalationHits") (num (pos s.auto_escalation_hits)) (
                    field (codes "autoEscalationWindowMinutes")
                      (num (pos s.auto_escalation_window_minutes))
                      (field (codes "autoEscalationCooldownSeconds")
                        (num (pos s.auto_escalation_cooldown_seconds))
                        (field (codes "eventRetentionDays") (num (pos s.event_retention_days)) (
                          field (codes "eventArchiveMinRisk") (num (pos s.event_archive_min_risk)) (
                            field (codes "trustedSources") (arr (text_items s.trusted_sources)) (
                              field (codes "protectionRules") (rules_value s.protection_rules)
                                end))))))))))))))

-- A number in range is read back.
bounded_again :
    (name : Text) (v : Value) (n fallback low high : ℕ)
    → prop name v ≡ num (pos n)
    → 1 ≤ low
    → Between low high n
    → bounded name v fallback low high ≡ n
unfolding bounded parse_int int_or
bounded_again name v zero fallback low high e h r = absurd (omega arith)
bounded_again name v (suc n) fallback low high e h r = rw e (ground arith)

bounded_else_again :
    (name : Text) (v : Value) (n fallback low high : ℕ)
    → prop name v ≡ num (pos n)
    → Between low high n
    → bounded_else name v fallback low high ≡ n
unfolding bounded_else parse_int int_else
bounded_else_again name v n fallback low high e r = rw e (ground arith)

parse_profile-profile_text : (p : Profile) → parse_profile (str (profile_text p)) ≡ p
unfolding parse_profile profile_text text_eq
parse_profile-profile_text conservative = refl
parse_profile-profile_text balanced = refl
parse_profile-profile_text aggressive = refl

-- The settings with their trusted sources normalised once more.
abbrev pub sources_again : Net → Settings → Settings
sources_again net s = record {
  auto_block_enabled = s.auto_block_enabled;
  autopilot_profile = s.autopilot_profile;
  archive_all_requests = s.archive_all_requests;
  auto_rate_limit_threshold = s.auto_rate_limit_threshold;
  auto_rate_limit_minutes = s.auto_rate_limit_minutes;
  auto_block_threshold = s.auto_block_threshold;
  auto_block_minutes = s.auto_block_minutes;
  auto_escalation_hits = s.auto_escalation_hits;
  auto_escalation_window_minutes = s.auto_escalation_window_minutes;
  auto_escalation_cooldown_seconds = s.auto_escalation_cooldown_seconds;
  event_retention_days = s.event_retention_days;
  event_archive_min_risk = s.event_archive_min_risk;
  trusted_sources = normalize_trusted_sources net (arr (text_items s.trusted_sources));
  protection_rules = s.protection_rules;
}

-- The global settings of a policy, host policies not among them, when they are in range: written and
-- read again, they are the same settings with their trusted sources normalised once more.
pub normalize_settings-settings_value :
    (net : Net) (s : Settings)
    → InRange s
    → normalize_settings net (settings_value s) ≡ sources_again net s
unfolding normalize_settings settings_value text_eq
normalize_settings-settings_value net s r i = record {
  auto_block_enabled = s.auto_block_enabled;
  autopilot_profile = parse_profile-profile_text s.autopilot_profile i;
  archive_all_requests = s.archive_all_requests;
  auto_rate_limit_threshold =
      bounded_again (codes "autoRateLimitThreshold") (settings_value s) s.auto_rate_limit_threshold
        50 40 100 refl (omega arith) r.rate_limit_threshold i;
  auto_rate_limit_minutes =
      bounded_again (codes "autoRateLimitMinutes") (settings_value s) s.auto_rate_limit_minutes 10 1
        43_200 refl (omega arith) r.rate_limit_minutes i;
  auto_block_threshold =
      bounded_again (codes "autoBlockThreshold") (settings_value s) s.auto_block_threshold 95 80 100
        refl (omega arith) r.block_threshold i;
  auto_block_minutes =
      bounded_again (codes "autoBlockMinutes") (settings_value s) s.auto_block_minutes 60 1 43_200
        refl (omega arith) r.block_minutes i;
  auto_escalation_hits =
      bounded_again (codes "autoEscalationHits") (settings_value s) s.auto_escalation_hits 3 2 20
        refl (omega arith) r.escalation_hits i;
  auto_escalation_window_minutes =
      bounded_again (codes "autoEscalationWindowMinutes") (settings_value s)
        s.auto_escalation_window_minutes 15 1 1440 refl (omega arith) r.escalation_window i;
  auto_escalation_cooldown_seconds =
      bounded_again (codes "autoEscalationCooldownSeconds") (settings_value s)
        s.auto_escalation_cooldown_seconds 60 5 3600 refl (omega arith) r.escalation_cooldown i;
  event_retention_days =
      bounded_else_again (codes "eventRetentionDays") (settings_value s) s.event_retention_days 14 1
        90 refl r.retention i;
  event_archive_min_risk =
      bounded_else_again (codes "eventArchiveMinRisk") (settings_value s) s.event_archive_min_risk
        20 0 100 refl (omega arith, r.min_risk) i;
  trusted_sources = normalize_trusted_sources net (arr (text_items s.trusted_sources));
  protection_rules =
      normalize_protection_rules-rules_value s.protection_rules default_rules false
        (λ k. rw (r.decided k) refl) i;
}
