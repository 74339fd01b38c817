-- ===== src/Security/Policy/Bounds.antt =====
-- Whatever JSON a policy is read from, its numbers are in range.
use hyrovi_proxy_manager.Prelude.{
  ℕ, zero, suc, ◌+◌, ◌≤◌, ◌≡◌, refl, Bool, true, false, Option, none, some, List, [], ◌∷◌, arith,
  if◌then◌else◌, All, length, take, Bool-cases, inl, inr, length-append, length-take-le,
}
use hyrovi_proxy_manager.Prelude.Int.{ℤ, pos, negsuc, clamp, clamp_bounds}
use hyrovi_proxy_manager.Js.Text.{Text, codes}
use hyrovi_proxy_manager.Js.Value.{
  Value, undefined, null, bool, num, str, arr, obj, items, Fields, end, field, parse_int, prop,
  is_object,
}
use hyrovi_proxy_manager.Security.Targets.{Net}
use hyrovi_proxy_manager.Security.Rules.{Decided, default_rules}
use hyrovi_proxy_manager.Security.Rules.Laws.{normalize_protection_rules-Decided}
use hyrovi_proxy_manager.Security.Endpoints.{
  Mode, EndpointRule, normalize_endpoint_rules, endpoint_loop, longest_first, insert_rule,
  max_endpoint_rules_per_host, add_rule, normalize_endpoint_path_prefix, parse_mode,
}
use hyrovi_proxy_manager.Security.Policy.{
  Settings, HostPolicy, Policy, bounded, bounded_else, difficulty_of, int_or, is_strict,
  normalize_settings, normalize_host_policy, host_entries, normalize_host_policies,
  normalize_policy, max_host_policies, is_host_id, at_least,
}

abbrev pub Between : ℕ → ℕ → ℕ → Type 0
Between low high n = (low ≤ n) × (n ≤ high)

pub record InRange (s : Settings) : Type 0 where
  pub rate_limit_threshold : Between 40 100 s.auto_rate_limit_threshold
  pub rate_limit_minutes : Between 1 43_200 s.auto_rate_limit_minutes
  pub block_threshold : Between 80 100 s.auto_block_threshold
  pub block_minutes : Between 1 43_200 s.auto_block_minutes
  pub escalation_hits : Between 2 20 s.auto_escalation_hits
  pub escalation_window : Between 1 1440 s.auto_escalation_window_minutes
  pub escalation_cooldown : Between 5 3600 s.auto_escalation_cooldown_seconds
  pub retention : Between 1 90 s.event_retention_days
  pub min_risk : s.event_archive_min_risk ≤ 100
  pub decided : Decided s.protection_rules

pub record HostInRange (p : HostPolicy) : Type 0 where
  pub rate_limit_threshold : Between 40 100 p.auto_rate_limit_threshold
  pub rate_limit_minutes : Between 1 43_200 p.auto_rate_limit_minutes
  pub block_threshold : Between 80 100 p.auto_block_threshold
  pub block_minutes : Between 1 43_200 p.auto_block_minutes
  pub minutes : Between 1 120 p.challenge_minutes
  pub difficulty : Between 10 22 p.challenge_difficulty
  pub strict_difficulty : is_strict p.mode ≡ true → 16 ≤ p.challenge_difficulty
  pub few_rules : length p.endpoint_rules ≤ max_endpoint_rules_per_host

bounded-Between :
    (name : Text) (v : Value) (fallback low high : ℕ)
    → low ≤ high
    → Between low high (bounded name v fallback low high)
unfolding bounded
bounded-Between name v fallback low high h = clamp_bounds _ low high h

bounded_else-Between :
    (name : Text) (v : Value) (fallback low high : ℕ)
    → low ≤ high
    → Between low high (bounded_else name v fallback low high)
unfolding bounded_else
bounded_else-Between name v fallback low high h = clamp_bounds _ low high h

pub normalize_settings-InRange : (net : Net) (v : Value) → InRange (normalize_settings net v)
unfolding normalize_settings
normalize_settings-InRange net v = record {
  rate_limit_threshold = bounded-Between _ _ _ 40 100 (omega arith);
  rate_limit_minutes = bounded-Between _ _ _ 1 43_200 (omega arith);
  block_threshold = bounded-Between _ _ _ 80 100 (omega arith);
  block_minutes = bounded-Between _ _ _ 1 43_200 (omega arith);
  escalation_hits = bounded-Between _ _ _ 2 20 (omega arith);
  escalation_window = bounded-Between _ _ _ 1 1440 (omega arith);
  escalation_cooldown = bounded-Between _ _ _ 5 3600 (omega arith);
  retention = bounded_else-Between _ _ _ 1 90 (omega arith);
  min_risk = (bounded_else-Between _ _ _ 0 100 (omega arith)).1;
  decided = normalize_protection_rules-Decided _ default_rules (λ k. refl);
}

length-insert_rule :
    (r : EndpointRule) (l : List EndpointRule) → length (insert_rule r l) ≡ suc (length l)
unfolding insert_rule
length-insert_rule r [] = refl
length-insert_rule r (x ∷ l) = ground (arith, length-insert_rule r l)

length-longest_first : (l : List EndpointRule) → length (longest_first l) ≡ length l
unfolding longest_first
length-longest_first [] = refl
length-longest_first (r ∷ l) =
    omega (arith, length-insert_rule r (longest_first l), length-longest_first l)

length-add_rule :
    (p : Option Text) (m : Option Mode) (rules : List EndpointRule)
    → length (add_rule p m rules) ≤ suc (length rules)
length-add_rule none m rules = omega arith
length-add_rule (some p) none rules = omega arith
length-add_rule (some p) (some m) rules =
    ground (arith, length-append rules (record { path_prefix = p; mode = m } ∷ []))

-- A round adds one rule at most.
length-endpoint_loop :
    (vs : List Value) (rules : List EndpointRule)
    → length (endpoint_loop vs rules) ≤ length vs + length rules
unfolding endpoint_loop
length-endpoint_loop [] rules = omega arith
length-endpoint_loop (v ∷ vs) rules = elim (Bool-cases (is_object v)) [
  | inl e ↦ rw e (
      let path = normalize_endpoint_path_prefix (prop (codes "pathPrefix") v) in
      let mode = parse_mode (prop (codes "mode") v) in
      omega (
        arith,
        length-endpoint_loop vs (add_rule path mode rules),
        length-add_rule path mode rules,
      ))
  | inr e ↦ rw e (omega (arith, length-endpoint_loop vs rules))
]

normalize_endpoint_rules_few :
    (v : Value) → length (normalize_endpoint_rules v) ≤ max_endpoint_rules_per_host
unfolding normalize_endpoint_rules
normalize_endpoint_rules_few (arr vs) =
    let l = take max_endpoint_rules_per_host (items vs) in
    omega (
      arith,
      length-longest_first (endpoint_loop l []),
      length-endpoint_loop l [],
      length-take-le max_endpoint_rules_per_host (items vs),
    )
normalize_endpoint_rules_few undefined = omega arith
normalize_endpoint_rules_few null = omega arith
normalize_endpoint_rules_few (bool b) = omega arith
normalize_endpoint_rules_few (num z) = omega arith
normalize_endpoint_rules_few (str s) = omega arith
normalize_endpoint_rules_few (obj fs) = omega arith

difficulty_of-Between : (hard : Bool) (v : Value) → Between 10 22 (difficulty_of hard v)
unfolding difficulty_of
difficulty_of-Between hard v =
    clamp_bounds
      (pos (
        at_least (if hard then 16 else 10)
          (int_or (parse_int (prop (codes "challengeDifficulty") v)) (if hard then 16 else 14))))
      10 22 (omega arith)

sixteen : (z : ℤ) → 16 ≤ clamp (pos (at_least 16 z)) 10 22
sixteen (pos n) = ground arith
sixteen (negsuc n) = ground arith

difficulty_of_strict : (hard : Bool) (v : Value) → hard ≡ true → 16 ≤ difficulty_of hard v
unfolding difficulty_of
difficulty_of_strict true v h =
    sixteen (int_or (parse_int (prop (codes "challengeDifficulty") v)) 16)
difficulty_of_strict false v h = cc

pub normalize_host_policy-HostInRange :
    (v : Value) (global : Settings) → HostInRange (normalize_host_policy v global)
unfolding normalize_host_policy
normalize_host_policy-HostInRange v global = record {
  rate_limit_threshold = bounded-Between _ _ _ 40 100 (omega arith);
  rate_limit_minutes = bounded-Between _ _ _ 1 43_200 (omega arith);
  block_threshold = bounded-Between _ _ _ 80 100 (omega arith);
  block_minutes = bounded-Between _ _ _ 1 43_200 (omega arith);
  minutes = bounded-Between _ _ _ 1 120 (omega arith);
  difficulty = difficulty_of-Between _ _;
  strict_difficulty = difficulty_of_strict _ _;
  few_rules = normalize_endpoint_rules_few _;
}

host_entries-HostInRange :
    (global : Settings) (n : ℕ) (fs : Fields)
    → All (λ e. HostInRange e.1) (host_entries global n fs)
unfolding host_entries
host_entries-HostInRange global zero fs = tt
host_entries-HostInRange global (suc n) end = tt
host_entries-HostInRange global (suc n) (field k v rest) = elim (Bool-cases (is_host_id k)) [
  | inl e ↦
      rw e (normalize_host_policy-HostInRange v global, host_entries-HostInRange global n rest)
  | inr e ↦ rw e (host_entries-HostInRange global n rest)
]

length-host_entries :
    (global : Settings) (n : ℕ) (fs : Fields) → length (host_entries global n fs) ≤ n
unfolding host_entries
length-host_entries global zero fs = omega arith
length-host_entries global (suc n) end = omega arith
length-host_entries global (suc n) (field k v rest) =
    ground (arith, length-host_entries global n rest)

pub record PolicyInRange (p : Policy) : Type 0 where
  pub settings : InRange p.settings
  pub hosts : All (λ e. HostInRange e.1) p.host_policies
  pub few : length p.host_policies ≤ max_host_policies

-- Whatever JSON value a policy is read from: each number is in its range, no rule of the global
-- policy is inherited, each host's numbers are in range, a strict host asks for at least 16 bits of
-- work, and there are at most 500 hosts and at most 50 rules to a host.
pub normalize_policy-PolicyInRange :
    (net : Net) (v : Value) → PolicyInRange (normalize_policy net v)
unfolding normalize_policy normalize_host_policies
normalize_policy-PolicyInRange net v = record {
  settings = normalize_settings-InRange net v;
  hosts = in_range (prop (codes "hostPolicies") v);
  few = few (prop (codes "hostPolicies") v);
}
  where
    in_range :
        (h : Value)
        → All (λ e. HostInRange e.1) (normalize_host_policies h (normalize_settings net v))
    in_range (obj fs) = host_entries-HostInRange _ _ fs
    in_range undefined = tt
    in_range null = tt
    in_range (bool b) = tt
    in_range (num z) = tt
    in_range (str s) = tt
    in_range (arr vs) = tt

    few :
        (h : Value)
        → length (normalize_host_policies h (normalize_settings net v)) ≤ max_host_policies
    few (obj fs) = length-host_entries _ _ fs
    few undefined = omega arith
    few null = omega arith
    few (bool b) = omega arith
    few (num z) = omega arith
    few (str s) = omega arith
    few (arr vs) = omega arith
