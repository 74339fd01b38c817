-- ===== src/Security/Enforcement/Operations.antt =====
-- The operations on blocks and rate limits: addBlockUnsafe, addRateLimitUnsafe, unblockIp,
-- unrateLimitIp and the listings.
pub mod Sound
pub mod Listed
mod Tests
use hyrovi_proxy_manager.Prelude.{
  ℕ, zero, suc, ◌+◌, ◌*◌, Bool, true, false, not, Option, none, some, List, [], ◌∷◌, ◌++◌, filter,
  find?, take, if◌then◌else◌,
}
use hyrovi_proxy_manager.Prelude.Int.{clamp}
use hyrovi_proxy_manager.Js.Text.{Text, codes, text_eq, trim, is_empty}
use hyrovi_proxy_manager.Js.Value.{Value, parse_int}
use hyrovi_proxy_manager.Errors.{
  Error, validation_error, item_not_found_error, Result, ok, err, M, pure, throw, on_option, ◌>>=◌,
  ◌>>◌,
}
use hyrovi_proxy_manager.Security.Targets.{normalize_trusted_source}
use hyrovi_proxy_manager.Security.Policy.{int_or}
use hyrovi_proxy_manager.Security.Responses.{
  Restriction, create_block_record, create_rate_limit_record,
}
use hyrovi_proxy_manager.Security.Autopilot.{Decision}
use hyrovi_proxy_manager.Security.Enforcement.{
  Kind, blocks, rate_limits, World, Env, commit_rows, purge_expired, record_action, synchronize,
}

abbrev pub default_minutes : Kind → ℕ
default_minutes blocks = 60
default_minutes rate_limits = 10

abbrev create_for :
    Kind
    → (id : Text) (now : ℕ) (ip : Text) (minutes : ℕ) (source reason : Text) → Option Decision
    → Restriction
create_for blocks = create_block_record
create_for rate_limits = create_rate_limit_record

module _ (env : Env) (kind : Kind) (now : ℕ) where
  -- Number.parseInt(durationMinutes, 10) || default, within 1 and 43200.
  pub minutes_of : Value → ℕ
  unfolding int_or parse_int
  minutes_of v = clamp (int_or (parse_int v) (default_minutes kind)) 1 43_200

  pub new_row : (target : Text) → (duration : Value) → (reason source : Text) → World → Restriction
  new_row target duration reason source w =
      create_for kind (env.new_id w.drawn) now target (minutes_of duration) source reason none

  -- randomUUID in the new row.
  pub draw_row : (target : Text) → (duration : Value) → (reason source : Text) → M World Restriction
  draw_row target duration reason source w =
      pure (new_row target duration reason source w) (record w { drawn = suc w.drawn })

  pub put_row : List Restriction → Restriction → M World Restriction
  put_row l r = do
    commit_rows env kind now l (l ++ (r ∷ []))
    record_action (codes "started") r
    pure r

  pub add_target :
      (duration : Value) → (reason source : Text) → (target : Text) → M World Restriction
  unfolding text_eq
  add_target duration reason source target = do
    l ← purge_expired env kind now
    on_option (find? (λ r. text_eq r.ip target) l)
        (do r ← draw_row target duration reason source; put_row l r) (λ r. pure r)

  -- addBlockUnsafe and addRateLimitUnsafe
  pub add_restriction : (ip duration : Value) → (reason source : Text) → M World Restriction
  add_restriction ip duration reason source =
      on_option (normalize_trusted_source env.net ip)
        (throw (validation_error (codes "Invalid IP address or CIDR")))
        (add_target duration reason source)

  -- unblockIp and unrateLimitIp, without the escalation state that the latter clears.
  pub remove_restriction : Text → M World (Unit {0})
  unfolding text_eq
  remove_restriction id = do
    l ← purge_expired env kind now
    on_option (find? (λ r. text_eq r.id id) l) (throw (item_not_found_error (some id))) (λ r. do
      commit_rows env kind now l (filter (λ x. not (text_eq x.id id)) l)
      record_action (codes "removed") r)

-- What a request asks for, and at what instant; withSecurityConfigMutation runs them one by one.
pub data Request : Type 0 where
  add : (ip duration : Value) → (reason source : Text) → Request
  remove : Text → Request
  list refresh : Request

pub step : Env → Kind → ℕ → Request → World → World
step env kind now (add ip duration reason source) w =
    (add_restriction env kind now ip duration reason source w).1
step env kind now (remove id) w = (remove_restriction env kind now id w).1
step env kind now list w = (purge_expired env kind now w).1
step env kind now refresh w = (synchronize env kind now w).1

pub serve : Env → Kind → List (ℕ × Request) → World → World
serve env kind [] w = w
serve env kind ((now, r) ∷ rest) w = serve env kind rest (step env kind now r w)
