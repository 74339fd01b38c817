-- ===== src/Challenge/Operations.antt =====
-- backend/internal/security_challenge.js: the operations on challenges. `withMutation` runs them one
-- after another, so each is a function of the state that the one before left.
mod Tests
pub mod Invariant
pub mod Proven
pub mod Verify
use hyrovi_proxy_manager.Prelude.{
  ℕ, zero, suc, ◌+◌, ◌-◌, ◌*◌, ◌≡◌, Bool, true, false, not, ◌&&◌, ◌||◌, Option, none, some, List,
  [], ◌∷◌, ◌++◌, map, leb, ltb, ◌==◌, if◌then◌else◌, length, take, filter, find?, all,
}
use hyrovi_proxy_manager.Prelude.Int.{ℤ, pos, negsuc, clamp}
use hyrovi_proxy_manager.Js.Text.{Text, codes, text_eq, trim, is_digit, starts_with, includes_unit}
use hyrovi_proxy_manager.Js.Value.{
  Value, undefined, null, bool, num, str, arr, obj, items, to_text, or_value, prop, trimmed,
  parse_int, digits_value, decimal,
}
use hyrovi_proxy_manager.Errors.{
  Error, Result, ok, err, validation_error, item_not_found_error, M, pure, throw, throw_if, branch,
  on_option, branch, on_option, ◌>>=◌, ◌>>◌, lift,
}
use mathlib.Core.List.{reverse}
use hyrovi_proxy_manager.Challenge.Proof.{leading_zero_bits}
use hyrovi_proxy_manager.Challenge.{
  Challenge, World, Env, max_challenges, default_duration_minutes, default_difficulty,
  max_verify_counter, max_verify_attempts, commit_state, purge_expired_unsafe, write_challenges,
}

-- Number.parseInt(v, 10) || d
abbrev pub int_or : Option ℤ → ℕ → ℤ
int_or none d = pos d
int_or (some (pos zero)) d = pos d
int_or (some (pos (suc n))) d = pos (suc n)
int_or (some (negsuc n)) d = negsuc n

abbrev pub minutes_of : Value → ℕ
minutes_of v = clamp (int_or (parse_int v) default_duration_minutes) 1 120

abbrev pub difficulty_of : Value → ℕ
difficulty_of v = clamp (int_or (parse_int v) default_difficulty) 10 22

unfoldable pub normalize_reason : Value → Text
unfolding to_text trim
normalize_reason v =
    take 300 (trim (to_text (or_value v (str (codes "HYROVI Sec adaptive challenge")))))

-- decision && typeof decision === "object" ? decision : null
abbrev object_or_null : Value → Value
object_or_null (obj fs) = obj fs
object_or_null (arr vs) = arr vs
object_or_null _ = null

invalid_ip : Error
invalid_ip = validation_error (codes "A valid IPv4 or IPv6 address is required")

abbrev pub ip_is : Text → Challenge → Bool
ip_is ip c = text_eq c.ip ip

abbrev pub id_is : Text → Challenge → Bool
id_is id c = text_eq c.id id

-- `a === b` where `b` is a text
abbrev pub is_text : Value → Text → Bool
is_text (str s) t = text_eq s t
is_text _ t = false

-- The outcome of the loop over the requested items.
pub record Progress : Type 0 where
  pub next : List Challenge
  pub by_ip : List Challenge
  pub result : List Challenge
  pub changed : Bool

-- Array.isArray(items) ? items : []
abbrev pub array_items : Value → List Value
array_items (arr vs) = items vs
array_items _ = []

abbrev given_is : Value → Text → Bool
given_is v t = if is_text v t then not (text_eq t []) else false

-- /^\d{1,8}$/
abbrev is_short_number : Text → Bool
is_short_number s = leb 1 (length s) && leb (length s) 8 && all is_digit s

abbrev number_of : Option ℕ → Option ℤ
number_of none = none
number_of (some n) = some (pos n)

abbrev pub counter_number : Value → Option ℤ
counter_number (num z) = some z
counter_number (str s) = if is_short_number s then number_of (digits_value none s) else none
counter_number _ = none

-- The bound makes every accepted counter a safe integer.
abbrev pub in_counter_range : Option ℤ → Result ℕ
in_counter_range (some (pos n)) =
    if ltb max_verify_counter n
    then err (validation_error (codes "Invalid challenge counter"))
    else ok n
in_counter_range _ = err (validation_error (codes "Invalid challenge counter"))

pub normalize_counter : Value → Result ℕ
unfolding digits_value
normalize_counter v = in_counter_range (counter_number v)

-- The text that both sides hash.
pub proof_input : Challenge → ℕ → Text
proof_input c n = c.id ++ (codes ":" ++ (c.nonce ++ (codes ":" ++ decimal n)))

pub record Verification : Type 0 where
  pub verified : Bool
  pub attempts_remaining : ℕ

abbrev pub count_attempt : Text → Challenge → Challenge
count_attempt id c = if id_is id c then record c { attempts = suc c.attempts } else c

pub passes : Env → Challenge → ℕ → Bool
unfolding proof_input
passes env c n = leb c.difficulty (leading_zero_bits (env.sha256 (proof_input c n)))

module _ (env : Env) (now : ℕ) where
  pub create_challenge_record : Value → Text → M World Challenge
  unfolding normalize_reason invalid_ip
  create_challenge_record item ip = do
    throw_if (not (env.is_ip ip)) invalid_ip
    λ w.
        pure
          (record {
            id = env.random_uuid w.draws;
            ip = ip;
            nonce = env.random_hex w.draws;
            difficulty = difficulty_of (prop (codes "difficulty") item);
            attempts = 0;
            max_attempts = max_verify_attempts;
            reason = normalize_reason (prop (codes "reason") item);
            source =
                take 80 (to_text (or_value (prop (codes "source") item) (str (codes "manual"))));
            decision = object_or_null (prop (codes "decision") item);
            created_at = now;
            expires_at = some (now + minutes_of (prop (codes "durationMinutes") item) * 60_000);
          })
          (record w { draws = suc w.draws })

  -- One new challenge, unless the list is full.
  pub add_challenge : Value → Text → Progress → M World Progress
  add_challenge item ip p = do
    throw_if (leb max_challenges (length p.next))
        (validation_error (codes "Active challenges are limited to 5000"))
    challenge ← create_challenge_record item ip
    pure (record {
      next = p.next ++ challenge ∷ [];
      by_ip = challenge ∷ p.by_ip;
      result = p.result ++ challenge ∷ [];
      changed = true;
    })

  -- One round of the loop of `challengeIps`; the newest entry of the map is first in `by_ip`.
  pub challenge_item : Value → Progress → M World Progress
  unfolding invalid_ip
  challenge_item item p = do
    let ip = trimmed (prop (codes "ip") item)
    throw_if (not (env.is_ip ip)) invalid_ip
    on_option (find? (ip_is ip) p.by_ip) (add_challenge item ip p)
        (λ existing. pure (record p { result = p.result ++ existing ∷ [] }))

  pub challenge_loop : List Value → Progress → M World Progress
  challenge_loop [] p = pure p
  challenge_loop (item ∷ rest) p = do p' ← challenge_item item p; challenge_loop rest p'

  pub challenge_ips : Value → M World (List Challenge)
  challenge_ips requested = do
    challenges ← purge_expired_unsafe env now
    p ←
        challenge_loop (array_items requested)
          (record { next = challenges; by_ip = reverse challenges; result = []; changed = false })
    branch p.changed (commit_state env now challenges p.next) (pure tt)
    pure p.result

  -- `id` and `ip` may be left out (undefined).
  pub remove_challenge : Value → Value → M World (Option Challenge)
  remove_challenge id ip = do
    challenges ← purge_expired_unsafe env now
    on_option (find? (λ c. given_is id c.id || given_is ip c.ip) challenges) (pure none) (λ removed.
        do
          commit_state env now challenges (filter (λ c. not (id_is removed.id c)) challenges)
          pure (some removed))

  pub get_challenge_for_ip : Text → M World (Option Challenge)
  get_challenge_for_ip ip = do
    challenges ← purge_expired_unsafe env now
    pure (find? (ip_is ip) challenges)

  -- The digest decides: the challenge is removed, or one more attempt is counted.
  pub settle : List Challenge → Challenge → ℕ → M World Verification
  settle challenges c n =
      branch (passes env c n)
        (do
          commit_state env now challenges (filter (λ e. not (id_is c.id e)) challenges)
          pure (record { verified = true; attempts_remaining = c.max_attempts - c.attempts }))
        (do
          write_challenges (map (count_attempt c.id) challenges)
          pure (record { verified = false; attempts_remaining = c.max_attempts - c.attempts - 1 }))

  pub verify_found : List Challenge → Challenge → Value → M World Verification
  verify_found challenges c counter = do
    n ← lift (normalize_counter counter)
    throw_if (leb c.max_attempts c.attempts)
        (validation_error (codes "Challenge verification attempt limit reached"))
    settle challenges c n

  pub verify : Text → Value → Value → M World Verification
  verify ip id counter = do
    challenges ← purge_expired_unsafe env now
    on_option (find? (λ c. text_eq c.ip ip && is_text id c.id) challenges)
        (throw (item_not_found_error (some (codes "challenge"))))
        (λ c. verify_found challenges c counter)
