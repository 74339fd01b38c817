-- ===== src/Security/Rules/Validated.antt =====
-- Rules that pass the validation are taken as they stand.
use hyrovi_proxy_manager.Prelude.{
  ◌≡◌, refl, sym, ap, ◌∙◌, Bool, true, not, ◌&&◌, ◌||◌, some, arith, Bool-cases, inl, inr,
}
use hyrovi_proxy_manager.Js.Text.{text_eq, text_eq→eq}
use hyrovi_proxy_manager.Js.Value.{
  Value, undefined, null, bool, num, str, arr, obj, Fields, end, field, prop, lookup_field,
}
use hyrovi_proxy_manager.Errors.{Result, ok, err}
use hyrovi_proxy_manager.Security.Rules.{
  RuleKey, crawler, ddos, critical_files, exploit, auth_abuse, recon, unusual_methods, Action,
  Rules, key_text, parse_key, find_key, parse_action, is_inherit, is_deny, is_pre_request, and_then,
  chosen_action, normalize_protection_rules, check_rule, check_entries,
  validate_protection_rules_input,
}

parse_key-key_text : (k : RuleKey) → parse_key (key_text k) ≡ some k
unfolding parse_key find_key key_text text_eq
parse_key-key_text crawler = refl
parse_key-key_text ddos = refl
parse_key-key_text critical_files = refl
parse_key-key_text exploit = refl
parse_key-key_text auth_abuse = refl
parse_key-key_text recon = refl
parse_key-key_text unusual_methods = refl

both_ok : (r s : Result (Unit {0})) → and_then r s ≡ ok tt → (r ≡ ok tt) × (s ≡ ok tt)
both_ok (ok tt) s h = (refl, h)
both_ok (err e) s h = cc

check_entries_lookup :
    (allow : Bool) (k : RuleKey) (a : Action) (fs : Fields)
    → check_entries allow fs ≡ ok tt
    → parse_action (lookup_field (key_text k) fs) ≡ some a
    → check_rule allow (some k) (some a) ≡ ok tt
unfolding check_entries parse_action
check_entries_lookup allow k a end h e = cc
check_entries_lookup allow k a (field j v fs) h e =
    let (here, later) =
      both_ok (check_rule allow (parse_key j) (parse_action v)) (check_entries allow fs) h in
    elim (Bool-cases (text_eq j (key_text k))) [
      | inl same ↦
          let key : parse_key j ≡ some k =
            ap parse_key (text_eq→eq j (key_text k) same) ∙ parse_key-key_text k in
          let value : parse_action v ≡ some a = simp same at e in
          sym (
            ap (λ x. check_rule allow x (parse_action v)) key
            ∙ ap (λ x. check_rule allow (some k) x) value)
          ∙ here
      | inr other ↦ check_entries_lookup allow k a fs later (simp other at e)
    ]

-- What the checks on an entry say.
check_rule-eq-ok :
    (allow : Bool) (k : RuleKey) (a : Action)
    → check_rule allow (some k) (some a) ≡ ok tt
    → ((allow || not (is_inherit a)) ≡ true) × (is_deny a ≡ true → is_pre_request k ≡ true)
unfolding check_rule
check_rule-eq-ok allow k a h = elim (Bool-cases (not allow && is_inherit a)) [
  | inl e ↦ let failed = simp e at h in cc
  | inr e ↦ elim (Bool-cases (is_deny a && not (is_pre_request k))) [
    | inl f ↦ let failed = simp (e, f) at h in cc
    | inr f ↦ (ground (arith, e), λ d. ground (arith, d, f))
  ]
]

-- When an object of rules passes the validation, each action that it names is the one that its
-- normalisation gives, whatever the fallback, and requests are denied only where they can be judged
-- before they are passed on.
pub validate_protection_rules_input-normalize_protection_rules :
    (allow : Bool) (v : Value) (fallback : Rules) (k : RuleKey) (a : Action)
    → validate_protection_rules_input allow v ≡ ok tt
    → parse_action (prop (key_text k) v) ≡ some a
    → (normalize_protection_rules v fallback allow k ≡ a)
      × (is_deny a ≡ true → is_pre_request k ≡ true)
unfolding validate_protection_rules_input normalize_protection_rules chosen_action
validate_protection_rules_input-normalize_protection_rules allow (obj fs) fallback k a h e =
    let (kept, deny_fits) = check_rule-eq-ok allow k a (check_entries_lookup allow k a fs h e) in
    (rw e (rw kept refl), deny_fits)
validate_protection_rules_input-normalize_protection_rules allow undefined fallback k a h e = cc
validate_protection_rules_input-normalize_protection_rules allow null fallback k a h e = cc
validate_protection_rules_input-normalize_protection_rules allow (bool b) fallback k a h e = cc
validate_protection_rules_input-normalize_protection_rules allow (num z) fallback k a h e = cc
validate_protection_rules_input-normalize_protection_rules allow (str s) fallback k a h e = cc
validate_protection_rules_input-normalize_protection_rules allow (arr vs) fallback k a h e = cc
