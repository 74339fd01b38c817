-- ===== src/Security/HostContext.antt =====
-- createHostPolicyContext of backend/internal/security.js: the policies in force by the names of their
-- hosts, and the one that a request finds.
pub mod Bound
pub mod InForce
pub mod Paths
pub mod Entry
mod Tests
use hyrovi_proxy_manager.Prelude.{
  ℕ, zero, suc, ◌≤◌, ◌==◌, Bool, true, false, not, ◌&&◌, ◌||◌, Option, none, some, List, [], ◌∷◌,
  ◌++◌, any, find?, drop, length, leb, min, max, if◌then◌else◌,
}
use hyrovi_proxy_manager.Js.Text.{
  Text, codes, text_eq, is_empty, trim, to_lower, starts_with, ends_with,
}
use hyrovi_proxy_manager.Js.Value.{obj, field, end, str, decimal}
use hyrovi_proxy_manager.Security.Rules.{
  RuleKey, Rules, Action, deny, auto, rule_keys, is_inherit, resolve_rules, rules_value,
  critical_files, exploit, unusual_methods,
}
use hyrovi_proxy_manager.Security.Rules
use hyrovi_proxy_manager.Security.Endpoints.{
  Mode, observe, protect, strict, EndpointRule, mode_text,
}
use hyrovi_proxy_manager.Security.Effective.{
  Host, Group, Effective, host_effective, global_effective, apply_endpoint_rule,
}
use hyrovi_proxy_manager.Security.Policy.{HostPolicy, Settings, Policy, normalize_host_policy}

-- One dot at the end goes.
abbrev drop_last_dot : Text → Text
drop_last_dot [] = []
drop_last_dot (c ∷ []) = if c == b'.' then [] else c ∷ []
drop_last_dot (c ∷ d ∷ s) = c ∷ drop_last_dot (d ∷ s)

pub normalize_hostname : Text → Text
unfolding trim to_lower
normalize_hostname s = drop_last_dot (to_lower (trim s))

-- The names of the hosts, and the suffixes of those that start with "*.".
pub record HostContext : Type 0 where
  pub exact : List (Text × Effective)
  pub wildcards : List (Text × Effective)

-- Map.prototype.set, and get.
pub set_exact : Text → Effective → List (Text × Effective) → List (Text × Effective)
unfolding text_eq
set_exact k e [] = (k, e) ∷ []
set_exact k e ((j, f) ∷ rest) =
    let later = set_exact k e rest in if text_eq j k then (j, e) ∷ rest else (j, f) ∷ later

pub get_exact : Text → List (Text × Effective) → Option Effective
unfolding text_eq
get_exact k [] = none
get_exact k ((j, e) ∷ rest) = if text_eq j k then some e else get_exact k rest

pub add_domain : Effective → Text → HostContext → HostContext
unfolding starts_with
add_domain e domain c =
    let name = normalize_hostname domain in
    if is_empty name
    then c
    else if starts_with name (codes "*.")
    then record c { wildcards = c.wildcards ++ ((drop 1 name, e) ∷ []) }
    else record c { exact = set_exact name e c.exact }

pub add_domains : Effective → List Text → HostContext → HostContext
add_domains e [] c = c
add_domains e (d ∷ ds) c = add_domains e ds (add_domain e d c)

pub add_hosts : Policy → List Group → List Host → HostContext → HostContext
add_hosts policy groups [] c = c
add_hosts policy groups (h ∷ hs) c =
    add_hosts policy groups hs (add_domains (host_effective policy groups h) h.domain_names c)

-- The stable sort by length, longest first.
pub insert_wildcard : Text × Effective → List (Text × Effective) → List (Text × Effective)
insert_wildcard w [] = w ∷ []
insert_wildcard w (x ∷ rest) =
    let later = insert_wildcard w rest in
    if leb (length x.0) (length w.0) then w ∷ x ∷ rest else x ∷ later

pub sort_wildcards : List (Text × Effective) → List (Text × Effective)
sort_wildcards [] = []
sort_wildcards (w ∷ rest) = insert_wildcard w (sort_wildcards rest)

pub create_host_policy_context : Policy → List Host → List Group → HostContext
create_host_policy_context policy hosts groups =
    let c = add_hosts policy groups hosts (record { exact = []; wildcards = [] }) in
    record { exact = c.exact; wildcards = sort_wildcards c.wildcards }

pub wildcard_fits : Text → Text × Effective → Bool
unfolding text_eq ends_with
wildcard_fits name w = ends_with name w.0 && not (text_eq name (drop 1 w.0))

abbrev pub wildcard_effective : Policy → Option (Text × Effective) → Effective
wildcard_effective policy none = global_effective policy
wildcard_effective policy (some w) = w.1

abbrev pub base_effective : Policy → HostContext → Text → Option Effective → Effective
base_effective policy c name none =
    wildcard_effective policy (find? (wildcard_fits name) c.wildcards)
base_effective policy c name (some e) = e

pub resolve : Policy → HostContext → Text → Text → Effective
resolve policy c hostname path =
    let name = normalize_hostname hostname in
    apply_endpoint_rule policy (base_effective policy c name (get_exact name c.exact)) path
