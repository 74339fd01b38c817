-- ===== src/Security/Escalation.antt =====
-- The escalation of backend/internal/security.js: the strikes that are counted while a source is
-- rate limited, and their file.
pub mod Timing
pub mod Reached
mod Tests
use hyrovi_proxy_manager.Prelude.{
  ℕ, zero, suc, ◌+◌, ◌*◌, Bool, true, false, not, ◌&&◌, ◌||◌, Option, none, some, List, [], ◌∷◌,
  ltb, leb, if◌then◌else◌,
}
use hyrovi_proxy_manager.Prelude.Int.{clamp}
use hyrovi_proxy_manager.Js.Text.{Text, codes, text_eq}
use hyrovi_proxy_manager.Js.Value.{
  Value, undefined, null, obj, str, Fields, end, field, prop, parse_int, is_object,
}
use hyrovi_proxy_manager.Security.Policy.{Settings, int_or}
use hyrovi_proxy_manager.Security.Responses.{Restriction}

-- A time field: null, a value that is no time, or the text of an instant.
pub data Stamp : Type 0 where
  missing : Stamp
  invalid : Stamp
  at : ℕ → Stamp

-- `parseTimestamp`: `new Date(null)` is the epoch, and not an invalid date.
pub parse_timestamp : Stamp → Option ℕ
parse_timestamp missing = some 0
parse_timestamp invalid = none
parse_timestamp (at t) = some t

-- The time of a restriction, whose text may be no time.
abbrev pub created_stamp : Option ℕ → Stamp
created_stamp none = invalid
created_stamp (some t) = at t

pub record EscalationState : Type 0 where
  pub rate_limit_id : Text
  pub ip : Text
  pub strikes : ℕ
  pub window_started_at : Stamp
  pub last_response_at : Stamp
  pub last_strike_at : Stamp
  pub updated_at : Stamp

-- The object of states, by address, in the order in which JavaScript keeps its entries.
abbrev pub States : Type 0
States = List (Text × EscalationState)

pub find_state : Text → States → Option EscalationState
unfolding text_eq
find_state ip [] = none
find_state ip ((k, s) ∷ rest) = if text_eq k ip then some s else find_state ip rest

pub set_state : Text → EscalationState → States → States
unfolding text_eq
set_state ip s [] = (ip, s) ∷ []
set_state ip s ((k, t) ∷ rest) =
    let later = set_state ip s rest in if text_eq k ip then (k, s) ∷ rest else (k, t) ∷ later

pub delete_state : Text → States → States
unfolding text_eq
delete_state ip [] = []
delete_state ip ((k, t) ∷ rest) =
    let later = delete_state ip rest in if text_eq k ip then later else (k, t) ∷ later

-- Without a time of its own, a state starts when its rate limit did.
pub create_escalation_state : Restriction → EscalationState
create_escalation_state limit = record {
  rate_limit_id = limit.id;
  ip = limit.ip;
  strikes = 0;
  window_started_at = created_stamp limit.created_at;
  last_response_at = created_stamp limit.created_at;
  last_strike_at = missing;
  updated_at = created_stamp limit.created_at;
}

abbrev pub window_ms : Settings → ℕ
window_ms policy = policy.auto_escalation_window_minutes * 60_000

abbrev pub cooldown_ms : Settings → ℕ
cooldown_ms policy = policy.auto_escalation_cooldown_seconds * 1000

-- The last restriction of an address: new Map(list) keeps the last entry of a key.
abbrev last_of : Text → List Restriction → Option Restriction → Option Restriction
last_of ip [] found = found
last_of ip (r ∷ rest) found = last_of ip rest (if text_eq r.ip ip then some r else found)

abbrev pub or_time : Option ℕ → Option ℕ → Option ℕ
or_time none other = other
or_time (some t) other = some t

-- `parseTimestamp(v)?.toISOString() || other`
abbrev stamp_or : Option ℕ → Stamp → Stamp
stamp_or none other = other
stamp_or (some t) other = at t

abbrev is_text : Text → Value → Bool
is_text t (str s) = text_eq s t
is_text t _ = false

-- What is stored is read as JSON, and `parse` is what `Date` reads from a value that is there.
module _ (parse : Value → Option ℕ) (policy : Settings) (now : ℕ) where
  pub parse_stored : Value → Option ℕ
  parse_stored undefined = none
  parse_stored null = some 0
  parse_stored v = parse v

  pub kept_state : Text → Value → Restriction → ℕ → EscalationState
  unfolding parse_int int_or
  kept_state ip v active started = record {
    rate_limit_id = active.id;
    ip = ip;
    strikes = clamp (int_or (parse_int (prop (codes "strikes") v)) 0) 0 1000;
    window_started_at = at started;
    last_response_at =
        stamp_or (parse_stored (prop (codes "lastResponseAt") v)) (created_stamp active.created_at);
    last_strike_at = stamp_or (parse_stored (prop (codes "lastStrikeAt") v)) missing;
    updated_at = stamp_or (parse_stored (prop (codes "updatedAt") v)) (at started);
  }

  -- One entry of the loop of `pruneEscalationStates`.
  pub prune_entry : Text → Value → Option Restriction → Option EscalationState
  unfolding text_eq
  prune_entry ip v none = none
  prune_entry ip v (some active) = elim (parse_stored (prop (codes "windowStartedAt") v)) [
    | none ↦ none
    | some started ↦
        if is_object v
          && is_text active.id (prop (codes "rateLimitId") v)
          && not (ltb (started + window_ms policy) now)
        then some (kept_state ip v active started)
        else none
  ]

  pub prune_fields : List Restriction → Fields → States
  unfolding text_eq
  prune_fields limits end = []
  prune_fields limits (field ip v rest) =
      let later = prune_fields limits rest in
      elim (prune_entry ip v (last_of ip limits none)) [ none ↦ later | some s ↦ (ip, s) ∷ later ]

  pub prune_escalation_states : Value → List Restriction → States
  prune_escalation_states (obj fs) limits = prune_fields limits fs
  prune_escalation_states _ limits = []

pub record Strike : Type 0 where
  pub counted : Bool
  pub escalated : Bool
  pub state : EscalationState

-- A window that starts with this request.
abbrev pub new_window : Restriction → ℕ → EscalationState
new_window limit time = record {
  rate_limit_id = limit.id;
  ip = limit.ip;
  strikes = 0;
  window_started_at = at time;
  last_response_at = missing;
  last_strike_at = missing;
  updated_at = at time;
}

-- The old state while its window lasts, by the start of the window.
pub state_in_window : Settings → Restriction → ℕ → EscalationState → Option ℕ → EscalationState
unfolding text_eq
state_in_window policy limit time s none = new_window limit time
state_in_window policy limit time s (some w) =
    if not (text_eq s.rate_limit_id limit.id) || ltb (w + window_ms policy) time
    then new_window limit time
    else s

-- The state that a request at `time` is counted in.
pub current_state : Settings → Restriction → ℕ → Option EscalationState → EscalationState
current_state policy limit time none = new_window limit time
current_state policy limit time (some s) =
    state_in_window policy limit time s (parse_timestamp s.window_started_at)

abbrev pub is_cooling : Settings → ℕ → Option ℕ → Bool
is_cooling policy time none = false
is_cooling policy time (some r) = ltb time (r + cooldown_ms policy)

-- The time that the cooldown is counted from. A last strike of null gives the epoch, so the last
-- response is used only when the last strike is no time.
pub cooldown_reference : EscalationState → Option ℕ
cooldown_reference s =
    or_time (parse_timestamp s.last_strike_at) (parse_timestamp s.last_response_at)

pub count_strike : Settings → ℕ → EscalationState → Strike
count_strike policy time s =
    if is_cooling policy time (cooldown_reference s)
    then record { counted = false; escalated = false; state = s }
    else record {
      counted = true;
      escalated = leb policy.auto_escalation_hits (suc s.strikes);
      state = record {
        rate_limit_id = s.rate_limit_id;
        ip = s.ip;
        strikes = suc s.strikes;
        window_started_at = s.window_started_at;
        last_response_at = s.last_response_at;
        last_strike_at = at time;
        updated_at = at time;
      };
    }

-- `time` is the time of the request, and `ip` its address.
pub register_escalation_strike : Settings → Restriction → Text → ℕ → States → Strike × States
register_escalation_strike policy limit ip time states =
    let strike =
      count_strike policy time (current_state policy limit time (find_state ip states)) in
    (strike, set_state ip strike.state states)
