-- ===== src/Security/HostContext/Tests.antt =====
-- The policy in force for concrete requests.
use hyrovi_proxy_manager.Prelude.{true, false, List, [], ◌∷◌, ◌≡◌, refl, none, some, find?}
use hyrovi_proxy_manager.Js.Text.{Text, codes, text_eq, starts_with, includes_unit, trim}
use hyrovi_proxy_manager.Js.Value.{
  Value, str, bool, arr, obj, field, end, cons, nil, trimmed, to_text,
}
use hyrovi_proxy_manager.Security.Targets.{Net}
use hyrovi_proxy_manager.Security.Rules.{default_rules}
use hyrovi_proxy_manager.Security.Endpoints.{
  EndpointRule, strict, normalize_endpoint_rules, endpoint_loop, longest_first, insert_rule,
  normalize_endpoint_path_prefix, parse_mode, before_query, collapse_slashes, strip_slashes,
  mode_text,
}
use hyrovi_proxy_manager.Security.Policy.{Policy, normalize_policy}
use hyrovi_proxy_manager.Security.Policy.Bounds.{normalize_policy-PolicyInRange}
use hyrovi_proxy_manager.Security.Effective.{Host, Group, Effective, rule_applies, host_effective}
use hyrovi_proxy_manager.Security.HostContext.{create_host_policy_context, resolve}
use hyrovi_proxy_manager.Security.HostContext.InForce.{
  Enforced, EffectiveInRange, resolve-Enforced, resolve-EffectiveInRange,
}
use hyrovi_proxy_manager.Security.HostContext.Entry.{
  host_policy_entry, policy_of, host_policy_entry-host_effective,
}
use hyrovi_proxy_manager.Security.HostContext.Paths.{NoneLonger, endpoint_rule-NoneLonger}

abbrev net : Net
net = record { is_ip = λ t. 4; parts = λ t. 8 ∷ 8 ∷ 8 ∷ 8 ∷ []; in_rule = λ a b ip. false }

abbrev rule : Text → Text → Value
rule path mode = obj (field (codes "pathPrefix") (str path) (field (codes "mode") (str mode) end))

abbrev rules : Value
rules =
    arr (
      cons (rule (codes "/") (codes "observe")) (cons (rule (codes "/admin") (codes "strict")) nil))

abbrev policy : Policy
policy = normalize_policy net (
    obj (
      field (codes "autoBlockEnabled") (bool true) (
        field (codes "hostPolicies")
          (obj (
            field (codes "12")
              (obj (
                field (codes "mode") (str (codes "protect"))
                  (field (codes "endpointRules") rules end)))
              end))
          end)))

abbrev hosts : List Host
hosts = record { id = 12; domain_names = codes "www.example.org" ∷ codes "*.example.org" ∷ [] } ∷ []

abbrev groups : List Group
groups =
    record {
      id = codes "g";
      name = codes "all";
      host_ids = 12 ∷ [];
      security_mode = none;
      protection_rules = default_rules;
    }
    ∷ []

abbrev in_force : Effective
in_force =
    resolve policy (create_host_policy_context policy hosts groups) (codes "www.example.org")
      (codes "/admin/x")

resolve-Enforced_example : Enforced policy in_force
resolve-Enforced_example =
    resolve-Enforced policy hosts groups (codes "www.example.org") (codes "/admin/x")

resolve-EffectiveInRange_example : EffectiveInRange in_force
resolve-EffectiveInRange_example =
    resolve-EffectiveInRange policy (normalize_policy-PolicyInRange net _) hosts groups
      (codes "www.example.org") (codes "/admin/x")

abbrev admin : EndpointRule
admin = record { path_prefix = codes "/admin"; mode = strict }

found : find? (rule_applies (codes "/admin/x")) (normalize_endpoint_rules rules) ≡ some admin
unfolding normalize_endpoint_rules endpoint_loop longest_first insert_rule
    normalize_endpoint_path_prefix parse_mode before_query collapse_slashes strip_slashes mode_text
    rule_applies text_eq starts_with includes_unit trimmed trim to_text
found = refl

endpoint_rule-NoneLonger_example :
    (rule_applies (codes "/admin/x") admin ≡ true)
    × NoneLonger (codes "/admin/x") admin (normalize_endpoint_rules rules)
endpoint_rule-NoneLonger_example = endpoint_rule-NoneLonger rules (codes "/admin/x") admin found

host_policy_entry-host_effective_example :
    host_policy_entry policy groups (record { id = 12; domain_names = [] })
    ≡ policy_of (host_effective policy groups (record { id = 12; domain_names = [] }))
host_policy_entry-host_effective_example =
    host_policy_entry-host_effective policy groups (record { id = 12; domain_names = [] })
