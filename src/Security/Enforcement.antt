-- ===== src/Security/Enforcement.antt =====
-- Blocks and rate limits of backend/internal/security.js in force: the JSON file of their rows, the
-- text that Nginx includes, and the operations that move both. The code has each function twice, for
-- blocks and for rate limits; `Kind` tells which.
pub mod Operations
use hyrovi_proxy_manager.Prelude.{
  ℕ, zero, suc, ◌==◌, Bool, true, false, not, Option, none, some, List, [], ◌∷◌, ◌++◌, map, filter,
  take, length, ltb, if◌then◌else◌, any,
}
use hyrovi_proxy_manager.Js.Text.{Text, codes, text_eq, join, trim, to_lower, mem_text}
use hyrovi_proxy_manager.Js.Value.{str}
use hyrovi_proxy_manager.Errors.{
  Error, io_error, Result, ok, err, M, pure, throw, throw_if, branch, catch, lift, ◌>>=◌, ◌>>◌,
}
use hyrovi_proxy_manager.Security.Targets.{Net, normalize_trusted_source}
use hyrovi_proxy_manager.Security.Responses.{Restriction, Expiry, never, unreadable, until}

pub data Kind : Type 0 where
  blocks rate_limits : Kind

-- The file of rows: missing, no JSON, JSON of another shape, or an array.
pub data RowsFile : Type 0 where
  absent unparsable not_array : RowsFile
  rows : List Restriction → RowsFile

-- `loaded` is the text that Nginx runs with, `log` the action log, and `drawn` counts random draws.
pub record World : Type 0 where
  pub file : RowsFile
  pub conf : Option Text
  pub loaded : Text
  pub log : List (Text × Restriction)
  pub faults : List Bool
  pub drawn : ℕ

-- node:net, randomUUID by draw, and HYROVI_SEC_EMERGENCY_BYPASS.
pub record Env : Type 0 where
  pub net : Net
  pub new_id : ℕ → Text
  pub bypass : Text

pub emergency_bypass_enabled : Env → Bool
unfolding trim to_lower text_eq
emergency_bypass_enabled env =
    mem_text (to_lower (trim env.bypass)) (codes "1" ∷ codes "true" ∷ codes "yes" ∷ codes "on" ∷ [])

-- The next call of the outside world.
pub attempt : Text → M World (Unit {0})
unfolding throw_if
attempt label w = elim w.faults [
  | [] ↦ throw_if false (io_error label) w
  | b ∷ bs ↦ throw_if b (io_error label) (record w { faults = bs })
]

pub rows_of : RowsFile → Result (List Restriction)
rows_of absent = ok []
rows_of unparsable = err (io_error (codes "SyntaxError"))
rows_of not_array = ok []
rows_of (rows l) = ok l

pub read_rows : M World (List Restriction)
unfolding lift
read_rows = do attempt (codes "readFile"); λ w. lift (rows_of w.file) w

pub write_rows : List Restriction → M World (Unit {0})
write_rows l = do attempt (codes "writeJsonAtomic"); λ w. pure tt (record w { file = rows l })

abbrev pub text_or_empty : Option Text → Text
text_or_empty none = []
text_or_empty (some t) = t

pub read_conf : M World Text
read_conf = do attempt (codes "readFile"); λ w. pure (text_or_empty w.conf) w

pub write_conf : Text → M World (Unit {0})
write_conf t = do attempt (codes "writeTextAtomic"); λ w. pure tt (record w { conf = some t })

-- internalNginx.reload: Nginx takes the new text, or keeps the one that it runs with.
pub reload : M World (Unit {0})
reload = do
  attempt (codes "nginx -s reload")
  λ w. pure tt (record w { loaded = text_or_empty w.conf })

-- `recordResponseAction` never throws.
pub record_action : Text → Restriction → M World (Unit {0})
record_action action r =
    catch
      (do
        attempt (codes "appendFile")
        λ w. pure tt (record w { log = w.log ++ ((action, r) ∷ []) }))
      (λ _. pure tt)

pub record_actions : Text → List Restriction → M World (Unit {0})
record_actions action [] = pure tt
record_actions action (r ∷ l) = do record_action action r; record_actions action l

abbrev pub is_active : ℕ → Restriction → Bool
is_active now r = elim r.expires_at [ never ↦ true | unreadable ↦ false | until t ↦ ltb now t ]

pub active_blocks : ℕ → List Restriction → List Restriction
active_blocks now l = filter (is_active now) l

-- .replace(/[\r\n]/g, " ")
abbrev one_line : Text → Text
one_line t = map (λ c. if c == 10 then 32 else if c == 13 then 32 else c) t

abbrev entry_lines : Kind → Restriction → Text → List Text
entry_lines blocks r target =
    (codes "# " ++ r.id ++ codes " | " ++ take 160 (one_line r.reason))
    ∷ (codes "deny " ++ target ++ codes ";")
    ∷ []
entry_lines rate_limits r target = (codes "# " ++ r.id) ∷ (target ++ codes " 1;") ∷ []

abbrev target_lines : Kind → Restriction → Option Text → List Text
target_lines kind r none = []
target_lines kind r (some t) = entry_lines kind r t

abbrev head_lines : Kind → List Text
head_lines blocks =
    codes "# Managed by HYROVI Sec. Do not edit manually."
    ∷ codes
        "# Query strings, cookies, authorization headers and request bodies are never written here."
    ∷ []
head_lines rate_limits =
    codes "# Managed by HYROVI Sec. Do not edit manually."
    ∷ codes "# Only exact source IPs listed here receive a rate-limit key."
    ∷ []

abbrev bypass_line : Kind → Text
bypass_line blocks =
    codes "# EMERGENCY BYPASS ACTIVE: stored blocks are preserved but not enforced."
bypass_line rate_limits =
    codes "# EMERGENCY BYPASS ACTIVE: stored rate limits are preserved but not enforced."

module _ (env : Env) (kind : Kind) where
  pub body_lines : List Restriction → List Text
  body_lines [] = []
  body_lines (r ∷ l) =
      target_lines kind r (normalize_trusted_source env.net (str r.ip)) ++ body_lines l

  -- renderBlockConfig and renderRateLimitGeo
  pub render : ℕ → List Restriction → Text
  unfolding join
  render now l =
      join (codes "\n") (
        head_lines kind
        ++ (if emergency_bypass_enabled env
            then bypass_line kind ∷ []
            else body_lines (active_blocks now l)))
      ++ codes "\n"

  pub restore_conf : Text → Error → M World (Unit {0})
  restore_conf previous e = do write_conf previous; catch reload (λ _. pure tt); throw e

  pub replace_conf : Text → Text → M World Bool
  replace_conf previous next = do write_conf next; catch reload (restore_conf previous); pure true

  -- applyBlockConfig and applyRateLimitConfig
  pub apply_config : ℕ → List Restriction → M World Bool
  unfolding text_eq
  apply_config now l = do
    attempt (codes "mkdir")
    previous ← read_conf
    let next = render now l
    branch (text_eq previous next) (pure false) (replace_conf previous next)

  -- commitBlockState and commitRateLimitState
  pub commit_rows : ℕ → List Restriction → List Restriction → M World (Unit {0})
  commit_rows now previous next = do
    _ ← apply_config now next
    catch (write_rows next)
        (λ e. do _ ← catch (apply_config now previous) (λ _. pure false); throw e)

  -- The rows whose id is none of the active ones.
  abbrev expired_of : List Restriction → List Restriction → List Restriction
  expired_of l active = filter (λ r. not (any (λ a. text_eq a.id r.id) active)) l

  -- The branch where some rows have expired.
  pub purge_rows : ℕ → List Restriction → M World (List Restriction)
  unfolding text_eq
  purge_rows now l = do
    let active = active_blocks now l
    commit_rows now l active
    record_actions (codes "expired") (expired_of l active)
    pure active

  -- purgeExpiredUnsafe and purgeExpiredRateLimitsUnsafe
  pub purge_expired : ℕ → M World (List Restriction)
  purge_expired now = do
    l ← read_rows
    let active = active_blocks now l
    branch (length active == length l) (pure active) (purge_rows now l)

  -- synchronizeBlockConfigUnsafe and synchronizeRateLimitConfigUnsafe
  pub synchronize : ℕ → M World (List Restriction)
  synchronize now = do
    l ← read_rows
    let active = active_blocks now l
    branch (length active == length l) (do _ ← apply_config now active; pure active)
        (do commit_rows now l active; pure active)
