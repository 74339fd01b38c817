-- ===== src/Security/HostContext/Entry.antt =====
-- The policy of a host as it is listed and as Nginx is configured with it: hostPolicyEntry,
-- defaultEffectiveHostPolicy and renderHostProtectionConfig of backend/internal/security.js.
use hyrovi_proxy_manager.Prelude.{
  ◌≡◌, refl, Bool, true, false, not, ◌||◌, Option, none, some, List, [], ◌∷◌, ◌++◌, min, max,
  if◌then◌else◌,
}
use hyrovi_proxy_manager.Js.Text.{Text, codes, join}
use hyrovi_proxy_manager.Security.Rules.{
  Action, deny, block, auto, critical_files, exploit, unusual_methods, resolve_rules,
}
use hyrovi_proxy_manager.Security.Policy.{HostPolicy, Settings, Policy}
use hyrovi_proxy_manager.Security.Effective.{
  Host, Group, Effective, is_enforcing, effective_global_mode, explicit_policy,
  build_group_host_policy, group_for_host_id, group_rules, global_effective, own_effective,
  host_effective, chosen_effective,
}

pub default_effective_host_policy : Settings → HostPolicy
unfolding effective_global_mode
default_effective_host_policy policy = record {
  mode = effective_global_mode policy;
  auto_rate_limit_threshold = policy.auto_rate_limit_threshold;
  auto_rate_limit_minutes = policy.auto_rate_limit_minutes;
  auto_block_threshold = policy.auto_block_threshold;
  auto_block_minutes = policy.auto_block_minutes;
  challenge_minutes = min 30 (max 5 policy.auto_rate_limit_minutes);
  challenge_difficulty = 14;
  protection_rules = policy.protection_rules;
  endpoint_rules = [];
}

abbrev entry_of : Policy → Option HostPolicy → Option HostPolicy → HostPolicy
entry_of policy (some p) of_group = record p {
  protection_rules = resolve_rules p.protection_rules (group_rules policy of_group);
}
entry_of policy none (some p) = record p { protection_rules = group_rules policy (some p) }
entry_of policy none none = default_effective_host_policy policy.settings

-- `effective` of the entry.
pub host_policy_entry : Policy → List Group → Host → HostPolicy
host_policy_entry policy groups host =
    entry_of policy (explicit_policy policy host.id)
      (build_group_host_policy (group_for_host_id groups host.id) policy.settings)

pub pre_request_action_enabled : Action → Bool
pre_request_action_enabled deny = true
pre_request_action_enabled block = true
pre_request_action_enabled auto = true
pre_request_action_enabled _ = false

abbrev lines_if : Bool → List Text → List Text
lines_if b l = if b then l else []

abbrev or_none_line : List Text → List Text
or_none_line [] = codes "# No pre-request deny rules are enabled." ∷ []
or_none_line (l ∷ ls) = l ∷ ls

pub render_host_protection_config : HostPolicy → (enforcement_enabled : Bool) → Text
unfolding join
render_host_protection_config e enabled =
    let head = codes "# Managed by HYROVI Sec. Do not edit manually." in
    if not enabled || not (is_enforcing e.mode)
    then join (codes "\n")
        (head ∷ codes "# Pre-request protection is inactive for this host." ∷ [] ∷ [])
    else join (codes "\n") (
        head
        ∷ (or_none_line (
              lines_if (pre_request_action_enabled (e.protection_rules critical_files)) (
                codes "# Critical files / repositories"
                ∷ codes
                    "if ($uri ~* \"(^|/)(\\.env|\\.git|\\.svn|\\.hg)(/|$)|/etc/passwd|/proc/self\") { return 403; }"
                ∷ [])
              ++ lines_if (pre_request_action_enabled (e.protection_rules exploit)) (
                  codes "# Traversal and injection-style URI probes"
                  ∷ codes
                      "if ($request_uri ~* \"\\.\\./|%2e%2e|%252e%252e|<script|%3cscript|union(%20|\\+)select|sleep\\(|benchmark\\(\") { return 403; }"
                  ∷ [])
              ++ lines_if (pre_request_action_enabled (e.protection_rules unusual_methods)) (
                  codes "# Methods that ordinary reverse-proxy applications should not receive"
                  ∷ codes "if ($request_method ~* \"^(TRACE|TRACK|CONNECT)$\") { return 405; }"
                  ∷ []))
            ++ ([] ∷ [])))

-- The part of a policy in force that an entry has.
abbrev pub policy_of : Effective → HostPolicy
policy_of e = record {
  mode = e.mode;
  auto_rate_limit_threshold = e.auto_rate_limit_threshold;
  auto_rate_limit_minutes = e.auto_rate_limit_minutes;
  auto_block_threshold = e.auto_block_threshold;
  auto_block_minutes = e.auto_block_minutes;
  challenge_minutes = e.challenge_minutes;
  challenge_difficulty = e.challenge_difficulty;
  protection_rules = e.protection_rules;
  endpoint_rules = e.endpoint_rules;
}

-- The policy that a host is listed and configured with is the one that the monitor applies to the
-- requests of the host, before the rules for paths.
pub host_policy_entry-host_effective :
    (policy : Policy) (groups : List Group) (host : Host)
    → host_policy_entry policy groups host ≡ policy_of (host_effective policy groups host)
unfolding host_policy_entry host_effective own_effective global_effective
    default_effective_host_policy
host_policy_entry-host_effective policy groups host =
    same (explicit_policy policy host.id)
      (build_group_host_policy (group_for_host_id groups host.id) policy.settings)
  where
    same :
        (p q : Option HostPolicy)
        → entry_of policy p q
          ≡ policy_of (chosen_effective policy host (group_for_host_id groups host.id) p q)
    same (some p) q = refl
    same none (some q) = refl
    same none none = refl
