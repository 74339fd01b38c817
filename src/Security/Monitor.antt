-- ===== src/Security/Monitor.antt =====
-- One round of the monitor of backend/internal/security.js (monitorThreats): each new request is judged
-- by the policy in force for it, and may add a block, a challenge or a rate limit.
pub mod Loop
pub mod Spared
pub mod Once
mod Tests
use hyrovi_proxy_manager.Prelude.{
  ℕ, zero, suc, ◌+◌, ◌*◌, Bool, true, false, not, ◌&&◌, ◌||◌, Option, none, some, List, [], ◌∷◌,
  ◌++◌, any, find?, filter, take, leb, min, map, if◌then◌else◌,
}
use hyrovi_proxy_manager.Js.Text.{Text, codes, text_eq, mem_text, is_empty, trim, join}
use hyrovi_proxy_manager.Js.Value.{str, decimal}
use hyrovi_proxy_manager.Security.Targets.{Net, response_target_contains_ip}
use hyrovi_proxy_manager.Security.Events.{Event, event_time}
use hyrovi_proxy_manager.Security.Rules.{RuleKey, key_text}
use hyrovi_proxy_manager.Security.Endpoints.{mode_text}
use hyrovi_proxy_manager.Security.Policy.{Settings, Policy}
use hyrovi_proxy_manager.Security.Autopilot.{SecurityAction, Decision}
use hyrovi_proxy_manager.Security.Responses.{
  Restriction, create_block_record, create_rate_limit_record,
}
use hyrovi_proxy_manager.Security.Escalation.{
  States, delete_state, set_state, create_escalation_state,
}
use hyrovi_proxy_manager.Security.Effective.{Effective}
use hyrovi_proxy_manager.Security.HostContext.{HostContext}

-- The challenges that are in force, as far as they are read here.
pub record Challenged : Type 0 where
  pub ip : Text
  pub created_at : Option ℕ

pub record ChallengeRequest : Type 0 where
  pub ip : Text
  pub duration_minutes : ℕ
  pub difficulty : ℕ
  pub reason : Text
  pub source : Text
  pub decision : Option Decision

-- What a round starts from; `new_id n` is the n-th value of randomUUID.
pub record Start : Type 0 where
  pub net : Net
  pub policy : Policy
  pub context : HostContext
  pub blocks : List Restriction
  pub rate_limits : List Restriction
  pub challenges : List Challenged
  pub actions : List SecurityAction
  pub now : ℕ
  pub new_id : ℕ → Text

-- The variables of a round. Sets are lists, and maps lists of pairs.
pub record Round : Type 0 where
  pub blocked_ips : List Text
  pub rate_limited_ips : List Text
  pub rate_limit_by_ip : List (Text × Restriction)
  pub challenged_ips : List Text
  pub escalations : States
  pub block_additions : List Restriction
  pub rate_limit_additions : List Restriction
  pub challenge_requests : List ChallengeRequest
  pub challenge_fallback_blocks : List Restriction
  pub challenge_removals : List Text
  pub drawn : ℕ

abbrev pub challenge_grace_ms : ℕ
challenge_grace_ms = 30_000

abbrev pub add_text : Text → List Text → List Text
add_text t l = if mem_text t l then l else l ++ (t ∷ [])

pub get_limit : Text → List (Text × Restriction) → Option Restriction
unfolding text_eq
get_limit ip [] = none
get_limit ip ((k, r) ∷ rest) = if text_eq k ip then some r else get_limit ip rest

pub set_limit : Text → Restriction → List (Text × Restriction) → List (Text × Restriction)
unfolding text_eq
set_limit ip r [] = (ip, r) ∷ []
set_limit ip r ((k, q) ∷ rest) =
    let later = set_limit ip r rest in if text_eq k ip then (k, r) ∷ rest else (k, q) ∷ later

-- new Map(list): the last entry of a key counts.
pub limits_by_ip : List Restriction → List (Text × Restriction) → List (Text × Restriction)
limits_by_ip [] l = l
limits_by_ip (r ∷ rest) l = limits_by_ip rest (set_limit r.ip r l)

pub existing_challenge : Text → List Challenged → Option Challenged
unfolding text_eq
existing_challenge ip [] = none
existing_challenge ip (c ∷ rest) =
    let later = existing_challenge ip rest in
    elim later [ none ↦ if text_eq c.ip ip then some c else none | some d ↦ some d ]

abbrev pub is_some {ℓ} : {A : Type ℓ} → Option A → Bool
is_some none = false
is_some (some a) = true

abbrev pub or_limit : Option Restriction → Option Restriction → Option Restriction
or_limit none other = other
or_limit (some r) other = some r

module _ (start : Start) where
  pub contains : Restriction → Text → Bool
  contains r ip = response_target_contains_ip start.net (str r.ip) ip

  pub challenge_grace_expired : Event → Bool
  challenge_grace_expired e = elim (existing_challenge e.ip start.challenges) [
    | none ↦ false
    | some c ↦ elim c.created_at [
      | none ↦ false
      | some t ↦ leb (t + challenge_grace_ms) (event_time start.now e)
    ]
  ]

  pub active_rate_limit : Event → Round → Option Restriction
  active_rate_limit e s =
      or_limit (get_limit e.ip s.rate_limit_by_ip) (find? (λ r. contains r e.ip) start.rate_limits)

  pub start_round : States → Round
  start_round escalations = record {
    blocked_ips = map (λ b. b.ip) start.blocks;
    rate_limited_ips = map (λ r. r.ip) start.rate_limits;
    rate_limit_by_ip = limits_by_ip start.rate_limits [];
    challenged_ips = map (λ c. c.ip) start.challenges;
    escalations = escalations;
    block_additions = [];
    rate_limit_additions = [];
    challenge_requests = [];
    challenge_fallback_blocks = [];
    challenge_removals = [];
    drawn = 0;
  }

  pub queue_challenge : Event → Effective → (source reason : Text) → Option Decision → Round → Round
  queue_challenge e eff source reason decision s = record {
    blocked_ips = s.blocked_ips;
    rate_limited_ips = s.rate_limited_ips;
    rate_limit_by_ip = s.rate_limit_by_ip;
    challenged_ips = add_text e.ip s.challenged_ips;
    escalations = delete_state e.ip s.escalations;
    block_additions = s.block_additions;
    rate_limit_additions = s.rate_limit_additions;
    challenge_requests =
        s.challenge_requests
        ++ (record {
          ip = e.ip;
          duration_minutes = eff.challenge_minutes;
          difficulty = eff.challenge_difficulty;
          reason = reason;
          source = source;
          decision = decision;
        }
            ∷ []);
    challenge_fallback_blocks =
        s.challenge_fallback_blocks
        ++ (create_block_record (start.new_id s.drawn) start.now e.ip eff.auto_block_minutes
              (source ++ codes "-fallback") (codes "Challenge unavailable; " ++ reason) decision
            ∷ []);
    challenge_removals = s.challenge_removals;
    drawn = suc s.drawn;
  }

  pub queue_block : Event → (minutes : ℕ) → (source reason : Text) → Option Decision → Round → Round
  queue_block e minutes source reason decision s = record {
    blocked_ips = add_text e.ip s.blocked_ips;
    rate_limited_ips = s.rate_limited_ips;
    rate_limit_by_ip = s.rate_limit_by_ip;
    challenged_ips = s.challenged_ips;
    escalations = delete_state e.ip s.escalations;
    block_additions =
        s.block_additions
        ++ (create_block_record (start.new_id s.drawn) start.now e.ip minutes source reason decision
            ∷ []);
    rate_limit_additions = s.rate_limit_additions;
    challenge_requests = s.challenge_requests;
    challenge_fallback_blocks = s.challenge_fallback_blocks;
    challenge_removals =
        if is_some (existing_challenge e.ip start.challenges)
        then add_text e.ip s.challenge_removals
        else s.challenge_removals;
    drawn = suc s.drawn;
  }

  -- `with_state` tells whether an escalation state starts with the rate limit.
  pub queue_rate_limit :
      Event
      → (minutes : ℕ) → (source reason : Text) → Option Decision
      → (with_state : Bool) → Round
      → Round
  queue_rate_limit e minutes source reason decision with_state s =
      let entry =
        create_rate_limit_record (start.new_id s.drawn) start.now e.ip minutes source reason
          decision in
      record {
        blocked_ips = s.blocked_ips;
        rate_limited_ips = add_text e.ip s.rate_limited_ips;
        rate_limit_by_ip = set_limit e.ip entry s.rate_limit_by_ip;
        challenged_ips = s.challenged_ips;
        escalations =
            if with_state
            then set_state e.ip (create_escalation_state entry) s.escalations
            else s.escalations;
        block_additions = s.block_additions;
        rate_limit_additions = s.rate_limit_additions ++ (entry ∷ []);
        challenge_requests = s.challenge_requests;
        challenge_fallback_blocks = s.challenge_fallback_blocks;
        challenge_removals = s.challenge_removals;
        drawn = suc s.drawn;
      }
