-- ===== src/Challenge.antt =====
-- backend/internal/security_challenge.js: proof-of-work challenges for single source addresses,
-- their state file, and the Nginx geo file that follows it.
-- An instant is a number of milliseconds; `none` in `expires_at` is a date that does not parse.
-- One call reads the clock once. Each file or process call fails as `faults` says, and succeeds
-- beyond its end; a write replaces its file whole or leaves it (`writeTextAtomic`).
use hyrovi_proxy_manager.Prelude.{
  ℕ, zero, suc, ◌+◌, ◌-◌, ◌*◌, ◌/◌, ◌≤◌, ◌<◌, ◌≡◌, Bool, true, false, not, ◌&&◌, ◌||◌, Option, none,
  some, List, [], ◌∷◌, ◌++◌, map, leb, ltb, ◌==◌, if◌then◌else◌, length, take, filter, find?, all,
}
use hyrovi_proxy_manager.Prelude.Int.{ℤ, pos, negsuc, clamp}
use hyrovi_proxy_manager.Js.Text.{Text, codes, text_eq, trim, to_lower, mem_text, join, is_digit}
use hyrovi_proxy_manager.Js.Value.{
  Value, undefined, null, bool, num, str, arr, obj, items, Items, nil, cons, to_text, or_value,
  prop, trimmed, parse_int, digits_value, decimal,
}
use hyrovi_proxy_manager.Errors.{
  Error, io_error, validation_error, item_not_found_error, M, pure, throw, throw_if, branch, catch,
  ◌>>=◌, ◌>>◌,
}
use mathlib.Core.List.{reverse}
pub mod Proof
pub mod Operations
pub mod Commit
pub mod Invariant

pub record Challenge : Type 0 where
  pub id : Text
  pub ip : Text
  pub nonce : Text
  pub difficulty : ℕ
  pub attempts : ℕ
  pub max_attempts : ℕ
  pub reason : Text
  pub source : Text
  pub decision : Value
  pub created_at : ℕ
  pub expires_at : Option ℕ

-- What `challenges.json` holds: no file, no JSON, JSON that is no array, or an array.
pub data ChallengesFile : Type 0 where
  absent unparsable not_array : ChallengesFile
  entries : List Challenge → ChallengesFile

-- `loaded` is the geo text of the configuration that Nginx runs; `draws` counts random draws.
pub record World : Type 0 where
  pub file : ChallengesFile
  pub geo : Option Text
  pub loaded : Text
  pub faults : List Bool
  pub draws : ℕ

-- Node's `net.isIP` and `sha256`, its random identifiers by draw, and the environment variable
-- HYROVI_SEC_EMERGENCY_BYPASS.
pub record Env : Type 0 where
  pub is_ip : Text → Bool
  pub sha256 : Text → List ℕ
  pub random_uuid : ℕ → Text
  pub random_hex : ℕ → Text
  pub bypass : Text

abbrev pub max_challenges : ℕ
max_challenges = 5000

abbrev pub default_duration_minutes : ℕ
default_duration_minutes = 10

abbrev pub default_difficulty : ℕ
default_difficulty = 14

abbrev pub max_verify_counter : ℕ
max_verify_counter = 50_000_000

abbrev pub max_verify_attempts : ℕ
max_verify_attempts = 25

pub emergency_bypass_enabled : Env → Bool
emergency_bypass_enabled env =
    mem_text (to_lower (trim env.bypass)) (codes "1" ∷ codes "true" ∷ codes "yes" ∷ codes "on" ∷ [])

-- The next call of the outside world.
pub attempt : Text → M World (Unit {0})
unfolding throw_if
attempt label w = elim w.faults [
  | [] ↦ throw_if false (io_error label) w
  | b ∷ bs ↦ throw_if b (io_error label) (record w { faults = bs })
]

pub array_or_empty : ChallengesFile → List Challenge
array_or_empty absent = []
array_or_empty unparsable = []
array_or_empty not_array = []
array_or_empty (entries cs) = cs

pub read_challenges_unsafe : M World (List Challenge)
unfolding attempt array_or_empty
read_challenges_unsafe = do
  attempt (codes "read challenges.json")
  λ w. pure (array_or_empty w.file) w

abbrev pub text_or_empty : Option Text → Text
text_or_empty none = []
text_or_empty (some t) = t

pub read_geo : M World Text
unfolding attempt
read_geo = do attempt (codes "read challenged-ips.geo"); λ w. pure (text_or_empty w.geo) w

pub write_geo : Text → M World (Unit {0})
unfolding attempt
write_geo t = do
  attempt (codes "write challenged-ips.geo")
  λ w. pure tt (record w { geo = some t })

pub write_challenges : List Challenge → M World (Unit {0})
unfolding attempt
write_challenges cs = do
  attempt (codes "write challenges.json")
  λ w. pure tt (record w { file = entries cs })

-- `internalNginx.reload`: Nginx takes the new configuration, or keeps the one that it runs.
pub reload : M World (Unit {0})
unfolding attempt
reload = do
  attempt (codes "nginx -s reload")
  λ w. pure tt (record w { loaded = text_or_empty w.geo })

-- The rollback of a failed reload: the old text back, one more reload, and the first error.
pub restore_geo : Text → Error → M World (Unit {0})
unfolding write_geo reload
restore_geo previous e = do write_geo previous; catch reload (λ _. pure tt); throw e

-- The branch where the texts differ.
pub replace_geo : Text → Text → M World Bool
unfolding write_geo reload
replace_geo previous next = do write_geo next; catch reload (restore_geo previous); pure true

abbrev expires_after : Option ℕ → ℕ → Bool
expires_after none now = false
expires_after (some t) now = ltb now t

module _ (env : Env) (now : ℕ) where
  pub is_active : Challenge → Bool
  is_active c = env.is_ip c.ip && expires_after c.expires_at now

  pub active_challenges : List Challenge → List Challenge
  unfolding is_active
  active_challenges cs = filter is_active cs

  geo_line : Challenge → Text
  geo_line c = c.ip ++ codes " 1;"

  pub render_geo : List Challenge → Text
  unfolding active_challenges geo_line emergency_bypass_enabled
  render_geo cs =
      let head =
        codes "# Managed by HYROVI Sec. Do not edit manually."
        ∷ codes "# Exact source IPs currently required to solve a HYROVI Sec challenge."
        ∷ [] in
      let lines =
        if emergency_bypass_enabled env
        then codes "# EMERGENCY BYPASS ACTIVE: challenge state is preserved but not enforced." ∷ []
        else map geo_line (active_challenges cs) in
      join (codes "\n") (head ++ lines) ++ codes "\n"

  pub apply_geo : List Challenge → M World Bool
  apply_geo cs = do
    previous ← read_geo
    let next = render_geo cs
    branch (text_eq previous next) (pure false) (replace_geo previous next)

  pub commit_state : List Challenge → List Challenge → M World (Unit {0})
  unfolding write_challenges
  commit_state previous next = do
    _ ← apply_geo next
    catch (write_challenges next)
        (λ e. do _ ← catch (apply_geo previous) (λ _. pure false); throw e)

  pub purge_expired_unsafe : M World (List Challenge)
  purge_expired_unsafe = do
    challenges ← read_challenges_unsafe
    let active = active_challenges challenges
    branch (length active == length challenges) (do _ ← apply_geo active; pure active)
        (do commit_state challenges active; pure active)
