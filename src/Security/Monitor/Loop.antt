-- ===== src/Security/Monitor/Loop.antt =====
-- The loop of monitorThreats over the new requests, and what becomes of the lists after it.
pub mod Steps
use hyrovi_proxy_manager.Prelude.{
  ℕ, zero, suc, ◌+◌, ◌*◌, Bool, true, false, not, ◌&&◌, ◌||◌, Option, none, some, List, [], ◌∷◌,
  ◌++◌, any, filter, map, min, if◌then◌else◌,
}
use hyrovi_proxy_manager.Js.Text.{Text, codes, text_eq, mem_text, join}
use hyrovi_proxy_manager.Js.Value.{arr, text_items, decimal}
use hyrovi_proxy_manager.Security.Targets.{is_private_or_loopback, is_trusted_source}
use hyrovi_proxy_manager.Security.Events.{Event, event_time}
use hyrovi_proxy_manager.Security.Rules.{Action, auto, key_text, action_text}
use hyrovi_proxy_manager.Security.Rules
use hyrovi_proxy_manager.Security.Endpoints.{mode_text}
use hyrovi_proxy_manager.Security.Policy.{Settings, profile_text}
use hyrovi_proxy_manager.Security.Autopilot.{
  Response, observe, rate_limit, challenge, block, RuleMatch, Decision, protection_rule_for_event,
  autopilot_decision_for_event, is_exempt, event_is_crawler_attack_candidate,
  event_is_auto_block_candidate, event_is_auto_rate_limit_candidate,
}
use hyrovi_proxy_manager.Security.Responses.{Restriction}
use hyrovi_proxy_manager.Security.Escalation.{Strike, register_escalation_strike}
use hyrovi_proxy_manager.Security.Effective.{Effective}
use hyrovi_proxy_manager.Security.HostContext.{resolve}
use hyrovi_proxy_manager.Security.Monitor.{
  Start, Round, is_some, contains, challenge_grace_expired, existing_challenge, active_rate_limit,
  queue_challenge, queue_block, queue_rate_limit, add_text,
}

pub response_action : Response → Action
response_action observe = Rules.observe
response_action rate_limit = Rules.rate_limit
response_action challenge = Rules.challenge
response_action block = Rules.block

abbrev previous_text : Response → Text
previous_text observe = codes "none"
previous_text r = action_text (response_action r)

pub action_reason : RuleMatch → Action → Option Decision → Text
unfolding decimal
action_reason m a none = codes "Protection rule " ++ key_text m.key ++ codes "=" ++ action_text a
action_reason m a (some d) =
    codes "Autopilot "
    ++ profile_text d.profile
    ++ codes " "
    ++ decimal d.confidence
    ++ codes "% confidence -> "
    ++ action_text a
    ++ codes "; previous "
    ++ previous_text d.previous_response
    ++ codes "; repeats24h "
    ++ decimal d.repeat_blocks

pub rule_reason : RuleMatch → Action → Option Decision → Effective → Event → Text
unfolding decimal
rule_reason m a d eff e =
    action_reason m a d
    ++ codes " ("
    ++ mode_text eff.mode
    ++ codes "): "
    ++ m.label
    ++ codes "; risk "
    ++ decimal e.risk
    ++ codes "; host "
    ++ e.host

-- "...; risk 95; host example.org; path_traversal, not_found"
pub attack_reason : (what : Text) → Effective → (label : Text) → Event → Text
unfolding decimal join
attack_reason what eff label e =
    what
    ++ codes " ("
    ++ mode_text eff.mode
    ++ codes ")"
    ++ label
    ++ decimal e.risk
    ++ codes "; host "
    ++ e.host
    ++ codes "; "
    ++ join (codes ", ") (map (λ s. s.id) e.signals)

abbrev multiplier : Option Decision → ℕ
multiplier none = 1
multiplier (some d) = d.duration_multiplier

abbrev rule_source : RuleMatch → Option Decision → Text → Text
rule_source m none suffix = codes "policy-" ++ key_text m.key ++ suffix
rule_source m (some d) suffix = codes "autopilot-" ++ key_text m.key ++ suffix

module _ (start : Start) where
  abbrev pub settings : Settings
  settings = start.policy.settings

  abbrev pub exempt : Event → Bool
  exempt e = is_exempt start.net settings.trusted_sources e.ip

  -- The autopilot decides where the rule says `auto`.
  pub decision_for : RuleMatch → Action → Event → Round → Option Decision
  decision_for m auto e s = some (
      autopilot_decision_for_event settings start.now (some m)
        (is_some (active_rate_limit start e s)) (is_some (existing_challenge e.ip start.challenges))
        (challenge_grace_expired start e) start.actions e)
  decision_for m a e s = none

  abbrev pub action_of : Action → Option Decision → Action
  action_of configured none = configured
  action_of configured (some d) = response_action d.action

  -- A configured or decided action: the state after it, or none when the loop goes on below.
  pub act_on_rule : Effective → Event → RuleMatch → Option Decision → Action → Round → Option Round
  act_on_rule eff e m d Rules.observe s = some s
  act_on_rule eff e m d Rules.deny s = some s
  act_on_rule eff e m d Rules.block s = some (
      queue_block start e (min 43_200 (eff.auto_block_minutes * multiplier d))
        (rule_source m d (codes "-block")) (rule_reason m Rules.block d eff e) d s)
  act_on_rule eff e m d Rules.challenge s = some (
      if is_some eff.proxy_host_id && not (mem_text e.ip s.challenged_ips)
      then queue_challenge start e eff (rule_source m d (codes "-challenge"))
          (rule_reason m Rules.challenge d eff e) d s
      else s)
  act_on_rule eff e m d Rules.rate_limit s = some (
      if is_some (active_rate_limit start e s)
      then s
      else queue_rate_limit start e (min 43_200 (eff.auto_rate_limit_minutes * multiplier d))
          (rule_source m d (codes "-rate-limit")) (rule_reason m Rules.rate_limit d eff e) d
          (is_some d) s)
  act_on_rule eff e m d Rules.inherit s = none
  act_on_rule eff e m d auto s = none

  -- The end that strong candidates and escalations share: a challenge first, and a block for a source
  -- that let it pass.
  pub challenge_or_block : (name reason : Text) → Effective → Event → Round → Round
  challenge_or_block name reason eff e s =
      if is_some eff.proxy_host_id && not (mem_text e.ip s.challenged_ips)
      then queue_challenge start e eff (name ++ codes "-challenge") reason none s
      else if is_some eff.proxy_host_id && not (challenge_grace_expired start e)
      then s
      else if is_some (existing_challenge e.ip start.challenges)
      then queue_block start e eff.auto_block_minutes (name ++ codes "-after-challenge")
          (codes "Challenge failed/ignored; " ++ reason) none s
      else queue_block start e eff.auto_block_minutes name reason none s

  abbrev pub after_strike : Effective → Event → Strike → Round → Round
  after_strike eff e k s =
      if k.escalated
      then challenge_or_block (codes "auto-escalation")
          (attack_reason
            (codes "Escalated after "
              ++ decimal k.state.strikes
              ++ codes " attack strikes during soft restriction")
            eff (codes "; latest risk ") e)
          eff e s
      else s

  -- A source under a rate limit: only the monitor's own limits escalate.
  pub while_limited : Effective → Event → Restriction → Round → Round
  unfolding text_eq decimal
  while_limited eff e limit s =
      if text_eq limit.source (codes "auto-rate-limit")
      then (let (strike, states) =
            register_escalation_strike settings limit e.ip (event_time start.now e) s.escalations in
          after_strike eff e strike (record s { escalations = states }))
      else s

  abbrev pub soft_stage : Effective → Event → Option Restriction → Round → Round
  soft_stage eff e (some limit) s = while_limited eff e limit s
  soft_stage eff e none s =
      if mem_text e.ip s.rate_limited_ips
      then s
      else queue_rate_limit start e eff.auto_rate_limit_minutes (codes "auto-rate-limit")
          (attack_reason (codes "Auto soft restriction") eff (codes ": risk ") e) none true s

  -- The candidates, from the strongest to the weakest.
  pub candidate_stage : Effective → Event → Round → Round
  candidate_stage eff e s =
      if event_is_crawler_attack_candidate start.net settings.trusted_sources
        eff.auto_block_threshold e
      then queue_block start e eff.auto_block_minutes (codes "auto-crawler-block")
          (attack_reason (codes "Crawler/scanner attack blocked") eff (codes ": risk ") e) none s
      else if event_is_auto_block_candidate start.net settings.trusted_sources
          eff.auto_block_threshold e
      then challenge_or_block (codes "auto-response")
          (attack_reason (codes "High-confidence attack") eff (codes ": risk ") e) eff e s
      else if event_is_auto_rate_limit_candidate start.net settings.trusted_sources
          eff.auto_rate_limit_threshold e
      then soft_stage eff e (active_rate_limit start e s) s
      else s

  abbrev pub or_candidates : Effective → Event → Option Round → Round → Round
  or_candidates eff e none s = candidate_stage eff e s
  or_candidates eff e (some t) s = t

  abbrev pub rule_round : Effective → Event → Option RuleMatch → Round → Option Round
  rule_round eff e none s = none
  rule_round eff e (some m) s =
      if exempt e
      then none
      else (let configured = eff.protection_rules m.key in
          let d = decision_for m configured e s in act_on_rule eff e m d (action_of configured d) s)

  pub judge : Effective → Event → Round → Round
  judge eff e s = or_candidates eff e (rule_round eff e (protection_rule_for_event e) s) s

  pub monitor_event : Event → Round → Round
  monitor_event e s =
      let eff = resolve start.policy start.context e.host e.path in
      if not eff.auto_block_enabled
        || mem_text e.ip s.blocked_ips
        || any (λ b. contains start b e.ip) start.blocks
      then s
      else judge eff e s

  pub monitor_events : List Event → Round → Round
  monitor_events [] s = s
  monitor_events (e ∷ es) s = monitor_events es (monitor_event e s)

  -- A block takes the place of the rate limits that cover it.
  abbrev pub is_superseded : List Restriction → Restriction → Bool
  is_superseded added r = any (λ b. contains start r b.ip) added

  pub next_rate_limits : Round → List Restriction
  next_rate_limits s =
      filter (λ r. not (is_superseded s.block_additions r)) start.rate_limits
      ++ filter (λ r. not (is_superseded s.block_additions r)) s.rate_limit_additions

  -- When the challenges could not be created, their sources are blocked.
  pub fall_back : List Restriction → Round → Round
  unfolding text_eq
  fall_back [] s = s
  fall_back (b ∷ bs) s = fall_back bs (
      if mem_text b.ip s.blocked_ips then s else record s {
        block_additions = s.block_additions ++ (b ∷ []);
        blocked_ips = add_text b.ip s.blocked_ips;
      })
