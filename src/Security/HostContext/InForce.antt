-- ===== src/Security/HostContext/InForce.antt =====
-- The policy in force for a request: when it is enforced, and between which bounds its numbers lie.
use hyrovi_proxy_manager.Prelude.{
  ◌≤◌, ◌≡◌, refl, Bool, true, false, ◌&&◌, Option, none, some, List, [], ◌∷◌, All, arith,
  Bool-cases, Option-cases, inl, inr, subst, some_cancel, ◌||◌, if◌then◌else◌,
}
use hyrovi_proxy_manager.Js.Text.{Text, text_eq}
use hyrovi_proxy_manager.Js.Value.{decimal}
use hyrovi_proxy_manager.Security.Rules.{Rules}
use hyrovi_proxy_manager.Security.Endpoints.{observe, protect, EndpointRule}
use hyrovi_proxy_manager.Security.Policy.{HostPolicy, Policy, is_strict}
use hyrovi_proxy_manager.Security.Policy.Bounds.{
  Between, HostInRange, PolicyInRange, normalize_host_policy-HostInRange,
}
use hyrovi_proxy_manager.Security.Effective.{
  Host, Group, Effective, is_enforcing, effective_global_mode, find_policy, explicit_policy,
  build_group_host_policy, group_for_host_id, global_effective, host_effective, own_effective,
  with_rule, is_some_mode, group_has_protection_overrides, Source,
}
use hyrovi_proxy_manager.Security.HostContext.{create_host_policy_context, resolve}
use hyrovi_proxy_manager.Security.HostContext.Bound.{resolve-Bound}

module _ (policy : Policy) where
  abbrev pub Enforced : Effective → Type 0
  Enforced e = e.auto_block_enabled ≡ policy.settings.auto_block_enabled && is_enforcing e.mode

  global-Enforced : Enforced (global_effective policy)
  unfolding global_effective effective_global_mode
  global-Enforced = ground arith

  host-Enforced : (groups : List Group) (h : Host) → Enforced (host_effective policy groups h)
  unfolding host_effective own_effective global_effective effective_global_mode
  host-Enforced groups h = elim (Option-cases (explicit_policy policy h.id)) [
    | inl e ↦
        elim (Option-cases
          (build_group_host_policy (group_for_host_id groups h.id) policy.settings)) [
            | inl f ↦ rw e (rw f (ground arith))
            | inr (p, f) ↦ rw e (rw f refl)
          ]
    | inr (p, e) ↦ rw e refl
  ]

  rule-Enforced : (e : Effective) (r : EndpointRule) → Enforced e → Enforced (with_rule policy e r)
  unfolding with_rule
  rule-Enforced e r h = refl

  -- For every request, whatever hosts, groups and policies there are: automatic responses are on exactly
  -- when they are on globally and the mode that is in force for the host and the path enforces.
  pub resolve-Enforced :
      (hosts : List Host) (groups : List Group) (name path : Text)
      → Enforced (resolve policy (create_host_policy_context policy hosts groups) name path)
  resolve-Enforced hosts groups name path =
      resolve-Bound Enforced policy groups global-Enforced (host-Enforced groups) rule-Enforced
        hosts name path

-- The numbers of a policy in force, and the work that a strict mode asks for.
pub record EffectiveInRange (e : Effective) : Type 0 where
  pub rate_limit_threshold : Between 40 100 e.auto_rate_limit_threshold
  pub rate_limit_minutes : Between 1 43_200 e.auto_rate_limit_minutes
  pub block_threshold : Between 80 100 e.auto_block_threshold
  pub block_minutes : Between 1 43_200 e.auto_block_minutes
  pub minutes : Between 1 120 e.challenge_minutes
  pub difficulty : Between 10 22 e.challenge_difficulty
  pub strict_difficulty : is_strict e.mode ≡ true → 16 ≤ e.challenge_difficulty

module _ (policy : Policy) (sound : PolicyInRange policy) where
  protect_or_observe : (b : Bool) → is_strict (if b then protect else observe) ≡ false
  protect_or_observe true = refl
  protect_or_observe false = refl

  global-InRange : EffectiveInRange (global_effective policy)
  unfolding global_effective effective_global_mode
  global-InRange = record {
    rate_limit_threshold = sound.settings.rate_limit_threshold;
    rate_limit_minutes = sound.settings.rate_limit_minutes;
    block_threshold = sound.settings.block_threshold;
    block_minutes = sound.settings.block_minutes;
    minutes = omega arith;
    difficulty = omega arith;
    strict_difficulty =
        λ h. ground (arith, protect_or_observe policy.settings.auto_block_enabled, h);
  }

  own-InRange :
      (h : Host) (g : Option Group) (p : HostPolicy) (rules : Rules) (source : Source)
      → HostInRange p
      → EffectiveInRange (own_effective policy h g p rules source)
  unfolding own_effective
  own-InRange h g p rules source i = record {
    rate_limit_threshold = i.rate_limit_threshold;
    rate_limit_minutes = i.rate_limit_minutes;
    block_threshold = i.block_threshold;
    block_minutes = i.block_minutes;
    minutes = i.minutes;
    difficulty = i.difficulty;
    strict_difficulty = i.strict_difficulty;
  }

  find_policy-HostInRange :
      (k : Text) (l : List (Text × HostPolicy)) {p : HostPolicy}
      → All (λ e. HostInRange e.1) l
      → find_policy k l ≡ some p
      → HostInRange p
  unfolding find_policy
  find_policy-HostInRange k [] h f = cc
  find_policy-HostInRange k ((j, q) ∷ l) {p} (i, h) f = elim (Bool-cases (text_eq j k)) [
    | inl c ↦ let same : q ≡ p = ground (arith, f, c) in subst {A = HostPolicy} HostInRange same i
    | inr c ↦
        let later : find_policy k l ≡ some p = ground (arith, f, c) in
        find_policy-HostInRange k l h later
  ]

  group-HostInRange :
      (g : Option Group) {p : HostPolicy}
      → build_group_host_policy g policy.settings ≡ some p
      → HostInRange p
  unfolding build_group_host_policy
  group-HostInRange none f = cc
  group-HostInRange (some g) {p} f =
      elim (Bool-cases (is_some_mode g.security_mode || group_has_protection_overrides g)) [
        | inl c ↦
            subst {A = HostPolicy} HostInRange (some_cancel (simp c at f))
              (normalize_host_policy-HostInRange _ _)
        | inr c ↦ ground (arith, f, c)
      ]

  host-InRange :
      (groups : List Group) (h : Host) → EffectiveInRange (host_effective policy groups h)
  unfolding host_effective explicit_policy
  host-InRange groups h = elim (Option-cases (find_policy (decimal h.id) policy.host_policies)) [
    | inl e ↦
        elim (Option-cases
          (build_group_host_policy (group_for_host_id groups h.id) policy.settings)) [
            | inl f ↦ rw e (
                rw f (record {
                  rate_limit_threshold = global-InRange.rate_limit_threshold;
                  rate_limit_minutes = global-InRange.rate_limit_minutes;
                  block_threshold = global-InRange.block_threshold;
                  block_minutes = global-InRange.block_minutes;
                  minutes = global-InRange.minutes;
                  difficulty = global-InRange.difficulty;
                  strict_difficulty = global-InRange.strict_difficulty;
                }))
            | inr (p, f) ↦ rw e (rw f (own-InRange h _ p _ _ (group-HostInRange _ f)))
          ]
    | inr (p, e) ↦ rw e (own-InRange h _ p _ _ (find_policy-HostInRange _ _ sound.hosts e))
  ]

  rule-InRange :
      (e : Effective) (r : EndpointRule)
      → EffectiveInRange e
      → EffectiveInRange (with_rule policy e r)
  unfolding with_rule
  rule-InRange e r i =
      let (a, b) = i.rate_limit_threshold in
      let (c, d) = i.block_threshold in
      let (l, u) = i.difficulty in
      record {
        rate_limit_threshold = ground (arith, a, b);
        rate_limit_minutes = i.rate_limit_minutes;
        block_threshold = ground (arith, c, d);
        block_minutes = i.block_minutes;
        minutes = i.minutes;
        difficulty = ground (arith, l, u);
        strict_difficulty = λ h. ground (arith, h);
      }

  -- Under a policy in range, for every request the numbers of the policy in force are in range, and a
  -- strict mode asks for at least 16 bits of work.
  pub resolve-EffectiveInRange :
      (hosts : List Host) (groups : List Group) (name path : Text)
      → EffectiveInRange (resolve policy (create_host_policy_context policy hosts groups) name path)
  resolve-EffectiveInRange hosts groups name path =
      resolve-Bound EffectiveInRange policy groups global-InRange (host-InRange groups) rule-InRange
        hosts name path
