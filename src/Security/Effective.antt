-- ===== src/Security/Effective.antt =====
-- The policy of a host in backend/internal/security.js: its own, that of its group or the global one, and
-- what a rule for a path makes of it.
use hyrovi_proxy_manager.Prelude.{
  ℕ, ◌==◌, Bool, true, false, not, ◌&&◌, ◌||◌, Option, none, some, List, [], ◌∷◌, ◌++◌, any, find?,
  min, max, if◌then◌else◌,
}
use hyrovi_proxy_manager.Js.Text.{Text, codes, text_eq, is_empty, starts_with}
use hyrovi_proxy_manager.Js.Value.{obj, field, end, str, decimal}
use hyrovi_proxy_manager.Security.Rules.{Rules, rule_keys, is_inherit, resolve_rules, rules_value}
use hyrovi_proxy_manager.Security.Endpoints.{
  Mode, observe, protect, strict, EndpointRule, mode_text,
}
use hyrovi_proxy_manager.Security.Policy.{HostPolicy, Settings, Policy, normalize_host_policy}

-- The columns of a proxy host that are read here, and of a group of hosts. A group whose mode is
-- `inherit` has none.
pub record Host : Type 0 where
  pub id : ℕ
  pub domain_names : List Text

pub record Group : Type 0 where
  pub id : Text
  pub name : Text
  pub host_ids : List ℕ
  pub security_mode : Option Mode
  pub protection_rules : Rules

pub data Source : Type 0 where
  from_host from_group from_global : Source

-- The policy in force for a request.
pub record Effective : Type 0 where
  pub proxy_host_id : Option ℕ
  pub mode : Mode
  pub auto_block_enabled : Bool
  pub auto_rate_limit_threshold : ℕ
  pub auto_rate_limit_minutes : ℕ
  pub auto_block_threshold : ℕ
  pub auto_block_minutes : ℕ
  pub challenge_minutes : ℕ
  pub challenge_difficulty : ℕ
  pub protection_rules : Rules
  pub endpoint_rules : List EndpointRule
  pub endpoint_rule_path : Option Text
  pub inherited : Bool
  pub policy_source : Source
  pub group : Option Group

unfoldable pub group_for_host_id : List Group → ℕ → Option Group
group_for_host_id groups id = find? (λ g. any (λ k. k == id) g.host_ids) groups

unfoldable pub group_has_protection_overrides : Group → Bool
group_has_protection_overrides g = any (λ k. not (is_inherit (g.protection_rules k))) rule_keys

unfoldable pub effective_global_mode : Settings → Mode
effective_global_mode policy = if policy.auto_block_enabled then protect else observe

-- ["protect", "strict"].includes(mode)
abbrev pub is_enforcing : Mode → Bool
is_enforcing protect = true
is_enforcing strict = true
is_enforcing _ = false

abbrev mode_or : Option Mode → Mode → Mode
mode_or none m = m
mode_or (some m) n = m

abbrev pub is_some_mode : Option Mode → Bool
is_some_mode none = false
is_some_mode (some m) = true

unfoldable pub build_group_host_policy : Option Group → Settings → Option HostPolicy
build_group_host_policy none policy = none
build_group_host_policy (some g) policy =
    if is_some_mode g.security_mode || group_has_protection_overrides g
    then some (
        normalize_host_policy
          (obj (
            field (codes "mode")
              (str (mode_text (mode_or g.security_mode (effective_global_mode policy))))
              (field (codes "protectionRules") (rules_value g.protection_rules) end)))
          policy)
    else none

unfoldable pub find_policy : Text → List (Text × HostPolicy) → Option HostPolicy
unfolding text_eq
find_policy k [] = none
find_policy k ((j, p) ∷ rest) = if text_eq j k then some p else find_policy k rest

-- policy.hostPolicies[String(host.id)]
unfoldable pub explicit_policy : Policy → ℕ → Option HostPolicy
unfolding decimal
explicit_policy policy id = find_policy (decimal id) policy.host_policies

unfoldable pub rule_applies : Text → EndpointRule → Bool
unfolding text_eq starts_with
rule_applies path r =
    text_eq r.path_prefix (codes "/")
    || text_eq path r.path_prefix
    || starts_with path (r.path_prefix ++ codes "/")

abbrev is_strict : Mode → Bool
is_strict strict = true
is_strict _ = false

-- An empty path counts as "/".
abbrev pub path_or_root : Text → Text
path_or_root path = if is_empty path then codes "/" else path

module _ (policy : Policy) where
  unfoldable pub global_effective : Effective
  global_effective = record {
    proxy_host_id = none;
    mode = effective_global_mode policy.settings;
    auto_block_enabled = policy.settings.auto_block_enabled;
    auto_rate_limit_threshold = policy.settings.auto_rate_limit_threshold;
    auto_rate_limit_minutes = policy.settings.auto_rate_limit_minutes;
    auto_block_threshold = policy.settings.auto_block_threshold;
    auto_block_minutes = policy.settings.auto_block_minutes;
    challenge_minutes = min 30 (max 5 policy.settings.auto_rate_limit_minutes);
    challenge_difficulty = 14;
    protection_rules = policy.settings.protection_rules;
    endpoint_rules = [];
    endpoint_rule_path = none;
    inherited = true;
    policy_source = from_global;
    group = none;
  }

  -- The rules that a host falls back on.
  unfoldable pub group_rules : Option HostPolicy → Rules
  group_rules none = policy.settings.protection_rules
  group_rules (some p) = resolve_rules p.protection_rules policy.settings.protection_rules

  unfoldable pub own_effective : Host → Option Group → HostPolicy → Rules → Source → Effective
  own_effective host g p rules source = record {
    proxy_host_id = some host.id;
    mode = p.mode;
    auto_block_enabled = policy.settings.auto_block_enabled && is_enforcing p.mode;
    auto_rate_limit_threshold = p.auto_rate_limit_threshold;
    auto_rate_limit_minutes = p.auto_rate_limit_minutes;
    auto_block_threshold = p.auto_block_threshold;
    auto_block_minutes = p.auto_block_minutes;
    challenge_minutes = p.challenge_minutes;
    challenge_difficulty = p.challenge_difficulty;
    protection_rules = rules;
    endpoint_rules = p.endpoint_rules;
    endpoint_rule_path = none;
    inherited = false;
    policy_source = source;
    group = g;
  }

  abbrev pub chosen_effective :
      Host → Option Group → Option HostPolicy → Option HostPolicy → Effective
  chosen_effective host g (some p) of_group =
      own_effective host g p (resolve_rules p.protection_rules (group_rules of_group)) from_host
  chosen_effective host g none (some p) = own_effective host g p (group_rules (some p)) from_group
  chosen_effective host g none none = record global_effective {
    proxy_host_id = some host.id;
    group = g;
  }

  -- `hostEffective` of one round of the loop over the hosts.
  unfoldable pub host_effective : List Group → Host → Effective
  host_effective groups host =
      let g = group_for_host_id groups host.id in
      chosen_effective host g (explicit_policy policy host.id)
        (build_group_host_policy g policy.settings)

  unfoldable pub with_rule : Effective → EndpointRule → Effective
  with_rule e r = record {
    proxy_host_id = e.proxy_host_id;
    mode = r.mode;
    auto_block_enabled = policy.settings.auto_block_enabled && is_enforcing r.mode;
    auto_rate_limit_threshold =
        if is_strict r.mode
        then min e.auto_rate_limit_threshold 45
        else e.auto_rate_limit_threshold;
    auto_rate_limit_minutes = e.auto_rate_limit_minutes;
    auto_block_threshold =
        if is_strict r.mode then min e.auto_block_threshold 90 else e.auto_block_threshold;
    auto_block_minutes = e.auto_block_minutes;
    challenge_minutes = e.challenge_minutes;
    challenge_difficulty =
        if is_strict r.mode then max e.challenge_difficulty 16 else e.challenge_difficulty;
    protection_rules = e.protection_rules;
    endpoint_rules = e.endpoint_rules;
    endpoint_rule_path = some r.path_prefix;
    inherited = false;
    policy_source = e.policy_source;
    group = e.group;
  }

  abbrev ruled : Effective → Option EndpointRule → Effective
  ruled e none = e
  ruled e (some r) = with_rule e r

  unfoldable pub apply_endpoint_rule : Effective → Text → Effective
  apply_endpoint_rule e path = ruled e (find? (rule_applies (path_or_root path)) e.endpoint_rules)
