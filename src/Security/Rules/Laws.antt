-- ===== src/Security/Rules/Laws.antt =====
-- Stored rules are read back, and resolved rules leave nothing open.
use hyrovi_proxy_manager.Prelude.{
  ◌≡◌, refl, ap, ◌∙◌, Bool, true, false, not, ◌||◌, Option, none, some,
}
use hyrovi_proxy_manager.Js.Text.{text_eq}
use hyrovi_proxy_manager.Js.Value.{Value, str, prop}
use hyrovi_proxy_manager.Security.Rules.{
  RuleKey, crawler, ddos, critical_files, exploit, auth_abuse, recon, unusual_methods, Action,
  inherit, auto, observe, deny, rate_limit, challenge, block, key_text, action_text, find_action,
  parse_action, is_inherit, Rules, chosen_action, normalize_protection_rules, resolve_action,
  resolve_rules, rules_value, rule_fields, Decided,
}

parse_action-action_text : (a : Action) → parse_action (str (action_text a)) ≡ some a
unfolding parse_action find_action action_text text_eq
parse_action-action_text inherit = refl
parse_action-action_text auto = refl
parse_action-action_text observe = refl
parse_action-action_text deny = refl
parse_action-action_text rate_limit = refl
parse_action-action_text challenge = refl
parse_action-action_text block = refl

prop-rules_value :
    (rules : Rules) (k : RuleKey)
    → prop (key_text k) (rules_value rules) ≡ str (action_text (rules k))
unfolding rules_value rule_fields key_text text_eq
prop-rules_value rules crawler = refl
prop-rules_value rules ddos = refl
prop-rules_value rules critical_files = refl
prop-rules_value rules exploit = refl
prop-rules_value rules auth_abuse = refl
prop-rules_value rules recon = refl
prop-rules_value rules unusual_methods = refl

chosen_kept :
    (allow : Bool) (fallback a : Action)
    → (allow || not (is_inherit a)) ≡ true
    → chosen_action allow fallback (some a) ≡ a
unfolding chosen_action
chosen_kept allow fallback a h = rw h refl

-- Rules that are stored are read back as they are, whatever the fallback, if none is inherited or
-- inheritance is allowed.
pub normalize_protection_rules-rules_value :
    (rules fallback : Rules) (allow : Bool)
    → ((k : RuleKey) → (allow || not (is_inherit (rules k))) ≡ true)
    → normalize_protection_rules (rules_value rules) fallback allow ≡ rules
unfolding normalize_protection_rules
normalize_protection_rules-rules_value rules fallback allow h i k =
    (ap (λ v. chosen_action allow (fallback k) (parse_action v)) (prop-rules_value rules k)
        ∙ (ap (chosen_action allow (fallback k)) (parse_action-action_text (rules k))
            ∙ chosen_kept allow (fallback k) (rules k) (h k)))
      i

chosen-Decided :
    (fallback : Action) (o : Option Action)
    → is_inherit fallback ≡ false
    → is_inherit (chosen_action false fallback o) ≡ false
unfolding chosen_action
chosen-Decided fallback none h = h
chosen-Decided fallback (some inherit) h = h
chosen-Decided fallback (some auto) h = refl
chosen-Decided fallback (some observe) h = refl
chosen-Decided fallback (some deny) h = refl
chosen-Decided fallback (some rate_limit) h = refl
chosen-Decided fallback (some challenge) h = refl
chosen-Decided fallback (some block) h = refl

pub normalize_protection_rules-Decided :
    (v : Value) (fallback : Rules)
    → Decided fallback
    → Decided (normalize_protection_rules v fallback false)
unfolding normalize_protection_rules
normalize_protection_rules-Decided v fallback h k = chosen-Decided (fallback k) _ (h k)

resolve_action-Decided :
    (a fallback : Action)
    → is_inherit fallback ≡ false
    → is_inherit (resolve_action a fallback) ≡ false
resolve_action-Decided inherit fallback h = h
resolve_action-Decided auto fallback h = refl
resolve_action-Decided observe fallback h = refl
resolve_action-Decided deny fallback h = refl
resolve_action-Decided rate_limit fallback h = refl
resolve_action-Decided challenge fallback h = refl
resolve_action-Decided block fallback h = refl

pub resolve_rules-Decided :
    (rules fallback : Rules) → Decided fallback → Decided (resolve_rules rules fallback)
unfolding resolve_rules
resolve_rules-Decided rules fallback h k = resolve_action-Decided (rules k) (fallback k) (h k)
