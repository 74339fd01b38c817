-- ===== src/Security/Policy/Tests.antt =====
-- Runs of the policies on concrete JSON.
use hyrovi_proxy_manager.Prelude.{true, false, [], ◌∷◌, ◌≡◌}
use hyrovi_proxy_manager.Prelude.Int.{pos}
use hyrovi_proxy_manager.Js.Text.{Text, codes}
use hyrovi_proxy_manager.Js.Value.{Value, str, num, bool, arr, obj, field, end, cons, nil}
use hyrovi_proxy_manager.Security.Targets.{Net}
use hyrovi_proxy_manager.Security.Endpoints.{normalize_endpoint_rules}
use hyrovi_proxy_manager.Security.Policy.{normalize_settings, normalize_policy}
use hyrovi_proxy_manager.Security.Policy.Bounds.{
  PolicyInRange, normalize_settings-InRange, normalize_policy-PolicyInRange,
}
use hyrovi_proxy_manager.Security.Policy.Stored.{
  settings_value, sources_again, normalize_settings-settings_value,
}
use hyrovi_proxy_manager.Security.Endpoints.Order.{
  Distinct, Longest, normalize_endpoint_rules-Distinct,
}

-- A network where every text is a public IPv4 address.
abbrev net : Net
net = record { is_ip = λ t. 4; parts = λ t. 8 ∷ 8 ∷ 8 ∷ 8 ∷ []; in_rule = λ a b ip. false }

abbrev rule : Text → Text → Value
rule path mode = obj (field (codes "pathPrefix") (str path) (field (codes "mode") (str mode) end))

-- "/a" stands twice, once as "a/".
abbrev rules : Value
rules = arr (
    cons (rule (codes "/a") (codes "strict")) (
      cons (rule (codes "a/") (codes "off"))
        (cons (rule (codes "/admin//x?y") (codes "protect")) nil)))

abbrev input : Value
input = obj (
    field (codes "autoBlockEnabled") (bool true) (
      field (codes "autoRateLimitThreshold") (num (pos 7)) (
        field (codes "hostPolicies")
          (obj (
            field (codes "12")
              (obj (
                field (codes "mode") (str (codes "strict"))
                  (field (codes "endpointRules") rules end)))
              end))
          end)))

normalize_policy-PolicyInRange_example : PolicyInRange (normalize_policy net input)
normalize_policy-PolicyInRange_example = normalize_policy-PolicyInRange net input

normalize_endpoint_rules-Distinct_example :
    Distinct (normalize_endpoint_rules rules) × Longest (normalize_endpoint_rules rules)
normalize_endpoint_rules-Distinct_example = normalize_endpoint_rules-Distinct rules

normalize_settings-settings_value_example :
    normalize_settings net (settings_value (normalize_settings net input))
    ≡ sources_again net (normalize_settings net input)
normalize_settings-settings_value_example =
    normalize_settings-settings_value net (normalize_settings net input)
      (normalize_settings-InRange net input)
