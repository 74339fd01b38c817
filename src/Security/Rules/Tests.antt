-- ===== src/Security/Rules/Tests.antt =====
-- The validation of a concrete object of rules.
use hyrovi_proxy_manager.Prelude.{◌≡◌, refl, true, false, some}
use hyrovi_proxy_manager.Js.Text.{codes, text_eq}
use hyrovi_proxy_manager.Js.Value.{Value, str, obj, field, end, prop}
use hyrovi_proxy_manager.Errors.{ok}
use hyrovi_proxy_manager.Security.Rules.{
  exploit, deny, key_text, action_text, parse_key, parse_action, find_key, find_action, is_deny,
  is_pre_request, default_rules, normalize_protection_rules, check_rule, check_entries,
  validate_protection_rules_input,
}
use hyrovi_proxy_manager.Security.Rules.Validated.{
  validate_protection_rules_input-normalize_protection_rules,
}

abbrev input : Value
input = obj (
    field (codes "crawler") (str (codes "challenge"))
      (field (codes "exploit") (str (codes "deny")) end))

valid : validate_protection_rules_input false input ≡ ok tt
unfolding validate_protection_rules_input check_entries check_rule parse_key find_key parse_action
    find_action key_text action_text text_eq
valid = refl

named : parse_action (prop (key_text exploit) input) ≡ some deny
unfolding parse_action find_action key_text action_text text_eq
named = refl

validate_protection_rules_input-normalize_protection_rules_example :
    (normalize_protection_rules input default_rules false exploit ≡ deny)
    × (is_deny deny ≡ true → is_pre_request exploit ≡ true)
validate_protection_rules_input-normalize_protection_rules_example =
    validate_protection_rules_input-normalize_protection_rules false input default_rules exploit
      deny valid named
