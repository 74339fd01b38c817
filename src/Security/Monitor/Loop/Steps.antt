-- ===== src/Security/Monitor/Loop/Steps.antt =====
-- What a round of the monitor may do: an invariant is shown on the additions to its lists, each where
-- its guards hold.
use hyrovi_proxy_manager.Prelude.{
  ℕ, ◌≡◌, refl, Bool, true, false, not, ◌&&◌, ◌||◌, Option, none, some, List, [], ◌∷◌, arith, any,
  Bool-cases, Option-cases, inl, inr,
}
use hyrovi_proxy_manager.Js.Text.{Text, codes, mem_text, text_eq}
use hyrovi_proxy_manager.Security.Events.{Event, event_time}
use hyrovi_proxy_manager.Security.Rules.{Action, auto}
use hyrovi_proxy_manager.Security.Rules
use hyrovi_proxy_manager.Security.Autopilot.Laws.{
  crawler_not_exempt, auto_block_not_exempt, auto_rate_limit_not_exempt,
}
use hyrovi_proxy_manager.Security.Autopilot.{
  RuleMatch, Decision, protection_rule_for_event, event_is_crawler_attack_candidate,
  event_is_auto_block_candidate, event_is_auto_rate_limit_candidate,
}
use hyrovi_proxy_manager.Security.Responses.{Restriction}
use hyrovi_proxy_manager.Security.Escalation.{States, Strike, register_escalation_strike}
use hyrovi_proxy_manager.Security.Effective.{Effective}
use hyrovi_proxy_manager.Security.HostContext.{resolve}
use hyrovi_proxy_manager.Security.Monitor.{
  Start, Round, is_some, get_limit, contains, challenge_grace_expired, existing_challenge,
  active_rate_limit, queue_challenge, queue_block, queue_rate_limit, or_limit,
}
use hyrovi_proxy_manager.Security.Monitor.Loop.{
  settings, exempt, act_on_rule, challenge_or_block, after_strike, while_limited, soft_stage,
  candidate_stage, rule_round, judge, monitor_event, monitor_events, or_candidates,
}

abbrev IfSome : (Round → Type 0) → Option Round → Type 0
IfSome P none = Unit
IfSome P (some s) = P s

none_both : (o p : Option Restriction) → or_limit o p ≡ none → o ≡ none
none_both none p h = refl
none_both (some r) p h = cc

module _ (start : Start) where
  -- The invariant, and the four ways in which a round changes.
  pub record Kept (P : Round → Type 0) : Type 0 where
    pub with_states : (s : Round) (states : States) → P s → P (record s { escalations = states })
    pub with_block :
        (e : Event) (minutes : ℕ) (source reason : Text) (d : Option Decision) (s : Round)
        → exempt start e ≡ false
        → mem_text e.ip s.blocked_ips ≡ false
        → P s
        → P (queue_block start e minutes source reason d s)
    pub with_challenge :
        (e : Event) (eff : Effective) (source reason : Text) (d : Option Decision) (s : Round)
        → exempt start e ≡ false
        → mem_text e.ip s.challenged_ips ≡ false
        → P s
        → P (queue_challenge start e eff source reason d s)
    pub with_rate_limit :
        (e : Event) (minutes : ℕ) (source reason : Text) (d : Option Decision) (states : Bool)
        (s : Round)
        → exempt start e ≡ false
        → get_limit e.ip s.rate_limit_by_ip ≡ none
        → P s
        → P (queue_rate_limit start e minutes source reason d states s)

  module _ (P : Round → Type 0) (kept : Kept P) (e : Event) (spare : exempt start e ≡ false)
      (eff : Effective) where
    challenge_or_block_kept :
        (name reason : Text) (s : Round)
        → mem_text e.ip s.blocked_ips ≡ false
        → P s
        → P (challenge_or_block start name reason eff e s)
    unfolding challenge_or_block
    challenge_or_block_kept name reason s b p =
        elim (Bool-cases (is_some eff.proxy_host_id && not (mem_text e.ip s.challenged_ips))) [
          | inl f ↦ simp f (kept.with_challenge e eff _ _ none s spare (ground (arith, f)) p)
          | inr f ↦
              elim (Bool-cases
                (is_some eff.proxy_host_id && not (challenge_grace_expired start e))) [
                  | inl g ↦ simp f (simp g p)
                  | inr g ↦ elim (Bool-cases (is_some (existing_challenge e.ip start.challenges))) [
                    | inl h ↦ simp f (simp g (simp h (kept.with_block e _ _ _ none s spare b p)))
                    | inr h ↦ simp f (simp g (simp h (kept.with_block e _ _ _ none s spare b p)))
                  ]
                ]
        ]

    after_strike_kept :
        (k : Strike) (s : Round)
        → mem_text e.ip s.blocked_ips ≡ false
        → P s
        → P (after_strike start eff e k s)
    after_strike_kept k s b p = elim (Bool-cases k.escalated) [
      | inl f ↦ simp f (challenge_or_block_kept _ _ s b p)
      | inr f ↦ simp f p
    ]

    while_limited_kept :
        (limit : Restriction) (s : Round)
        → mem_text e.ip s.blocked_ips ≡ false
        → P s
        → P (while_limited start eff e limit s)
    unfolding while_limited
    while_limited_kept limit s b p =
        elim (Bool-cases (text_eq limit.source (codes "auto-rate-limit"))) [
          | inl f ↦
              let x =
                register_escalation_strike (settings start) limit e.ip (event_time start.now e)
                  s.escalations in
              simp f (
                after_strike_kept x.0 (record s { escalations = x.1 }) b (kept.with_states s x.1 p))
          | inr f ↦ simp f p
        ]

    soft_stage_kept :
        (o : Option Restriction) (s : Round)
        → (o ≡ none → get_limit e.ip s.rate_limit_by_ip ≡ none)
        → mem_text e.ip s.blocked_ips ≡ false
        → P s
        → P (soft_stage start eff e o s)
    soft_stage_kept none s n b p = elim (Bool-cases (mem_text e.ip s.rate_limited_ips)) [
      | inl h ↦ simp h p
      | inr h ↦ simp h (kept.with_rate_limit e _ _ _ none true s spare (n refl) p)
    ]
    soft_stage_kept (some limit) s n b p = while_limited_kept limit s b p

    active_none :
        (s : Round) → active_rate_limit start e s ≡ none → get_limit e.ip s.rate_limit_by_ip ≡ none
    unfolding active_rate_limit
    active_none s h = none_both _ _ h

    act_on_rule_kept :
        (m : RuleMatch) (d : Option Decision) (a : Action) (s : Round)
        → mem_text e.ip s.blocked_ips ≡ false
        → P s
        → IfSome P (act_on_rule start eff e m d a s)
    unfolding act_on_rule
    act_on_rule_kept m d Rules.observe s b p = p
    act_on_rule_kept m d Rules.deny s b p = p
    act_on_rule_kept m d Rules.inherit s b p = tt
    act_on_rule_kept m d auto s b p = tt
    act_on_rule_kept m d Rules.block s b p = kept.with_block e _ _ _ d s spare b p
    act_on_rule_kept m d Rules.challenge s b p =
        elim (Bool-cases (is_some eff.proxy_host_id && not (mem_text e.ip s.challenged_ips))) [
          | inl f ↦ simp f (kept.with_challenge e eff _ _ d s spare (ground (arith, f)) p)
          | inr f ↦ simp f p
        ]
    act_on_rule_kept m d Rules.rate_limit s b p =
        elim (Option-cases (active_rate_limit start e s)) [
          | inl f ↦ simp f (kept.with_rate_limit e _ _ _ d _ s spare (active_none s f) p)
          | inr (r, f) ↦ simp f p
        ]

  module _ (P : Round → Type 0) (kept : Kept P) (e : Event) (eff : Effective) where
    candidate_stage_kept :
        (s : Round) → mem_text e.ip s.blocked_ips ≡ false → P s → P (candidate_stage start eff e s)
    unfolding candidate_stage
    candidate_stage_kept s b p =
        elim (Bool-cases (
          event_is_crawler_attack_candidate start.net (settings start).trusted_sources
            eff.auto_block_threshold e)) [
              | inl f ↦ simp f (kept.with_block e _ _ _ none s (crawler_not_exempt _ _ _ e f) b p)
              | inr f ↦
                  elim (Bool-cases (
                    event_is_auto_block_candidate start.net (settings start).trusted_sources
                      eff.auto_block_threshold e)) [
                        | inl g ↦ simp f (
                            simp g (
                              challenge_or_block_kept P kept e (auto_block_not_exempt _ _ _ e g) eff
                                _ _ s b p))
                        | inr g ↦
                            elim (Bool-cases (
                              event_is_auto_rate_limit_candidate start.net
                                (settings start).trusted_sources eff.auto_rate_limit_threshold e)) [
                                  | inl h ↦
                                      let spare = auto_rate_limit_not_exempt _ _ _ e h in
                                      simp f (
                                        simp g (
                                          simp h (
                                            soft_stage_kept P kept e spare eff _ s
                                              (active_none P kept e spare eff s) b p)))
                                  | inr h ↦ simp f (simp g (simp h p))
                                ]
                      ]
            ]

    rule_round_kept :
        (o : Option RuleMatch) (s : Round)
        → mem_text e.ip s.blocked_ips ≡ false
        → P s
        → IfSome P (rule_round start eff e o s)
    rule_round_kept none s b p = tt
    rule_round_kept (some m) s b p = elim (Bool-cases (exempt start e)) [
      | inl f ↦ simp f tt
      | inr f ↦ simp f (act_on_rule_kept P kept e f eff m _ _ s b p)
    ]

    judge_kept : (s : Round) → mem_text e.ip s.blocked_ips ≡ false → P s → P (judge start eff e s)
    unfolding judge
    judge_kept s b p = after _ (rule_round_kept (protection_rule_for_event e) s b p)
      where
        after : (o : Option Round) → IfSome P o → P (or_candidates start eff e o s)
        after none h = candidate_stage_kept s b p
        after (some t) h = h

  -- What is kept by each of the four changes is kept by the monitor's loop.
  pub monitor_events_kept :
      (P : Round → Type 0)
      → Kept P
      → (es : List Event) (s : Round) → P s
      → P (monitor_events start es s)
  unfolding monitor_events monitor_event
  monitor_events_kept P kept [] s p = p
  monitor_events_kept P kept (e ∷ es) s p =
      monitor_events_kept P kept es _
        (elim (Bool-cases (
          not (eff e).auto_block_enabled
          || mem_text e.ip s.blocked_ips
          || any (λ b. contains start b e.ip) start.blocks)) [
            | inl f ↦ simp f p
            | inr f ↦ simp f (judge_kept P kept e (eff e) s (ground (arith, f)) p)
          ])
    where
      eff : Event → Effective
      eff e = resolve start.policy start.context e.host e.path
