-- ===== src/Security/Escalation/Tests.antt =====
-- Strikes of one source at concrete times.
use hyrovi_proxy_manager.Prelude.{ℕ, List, true, [], ◌∷◌, ◌≡◌, refl, none, some, arith}
use hyrovi_proxy_manager.Js.Text.{Text, codes, text_eq}
use hyrovi_proxy_manager.Security.Policy.{default_settings}
use hyrovi_proxy_manager.Security.Responses.{Restriction, until}
use hyrovi_proxy_manager.Security.Escalation.{
  States, find_state, create_escalation_state, register_escalation_strike, current_state,
  state_in_window, count_strike, cooldown_reference, parse_timestamp,
}
use hyrovi_proxy_manager.Security.Escalation.Timing.{IsDue, after, register_escalation_strike-IsDue}
use hyrovi_proxy_manager.Security.Escalation.Reached.{attack, attack-escalated}

abbrev source : Text
source = codes "8.8.8.8"

abbrev limit : Restriction
limit = record {
  id = codes "l1";
  ip = source;
  reason = codes "Auto soft restriction";
  source = codes "auto-rate-limit";
  decision = none;
  created_at = some 1_700_000_001_000;
  expires_at = until 1_700_000_601_000;
}

abbrev states : States
states = (source, create_escalation_state limit) ∷ []

found : find_state source states ≡ some (create_escalation_state limit)
unfolding find_state text_eq
found = refl

-- A strike right after the rate limit, since a last strike of null reads as the epoch.
first_at_once :
    (register_escalation_strike default_settings limit source 1_700_000_001_001 states).0.counted
    ≡ true
unfolding register_escalation_strike find_state current_state state_in_window count_strike
    cooldown_reference parse_timestamp create_escalation_state text_eq
first_at_once = refl

-- The third attack, two cooldowns after the first, is the third strike.
attack-escalated_example :
    (register_escalation_strike default_settings limit source 1_700_000_121_001 (
      attack default_settings limit source
        (1_700_000_001_001 ∷ 1_700_000_061_001 ∷ [])
        states)).0.escalated
    ≡ true
attack-escalated_example =
    attack-escalated default_settings limit source (1_700_000_001_001 ∷ 1_700_000_061_001 ∷ [])
      1_700_000_001_000 1_700_000_121_001 states refl found
      (omega arith, omega arith, (omega arith, omega arith, (omega arith, omega arith, tt)))

abbrev history : List ℕ
history = 1_700_000_061_001 ∷ 1_700_000_001_001 ∷ []

raised :
    (register_escalation_strike default_settings limit source 1_700_000_121_001
      (after default_settings limit source states history)).0.escalated
    ≡ true
unfolding after attack
raised = attack-escalated_example

register_escalation_strike-IsDue_example :
    IsDue default_settings
      (1_700_000_121_001 ∷ history)
      (register_escalation_strike default_settings limit source 1_700_000_121_001
        (after default_settings limit source states history)).0
unfolding find_state text_eq create_escalation_state
register_escalation_strike-IsDue_example =
    register_escalation_strike-IsDue default_settings limit source states history 1_700_000_121_001
      refl raised
