-- ===== src/Account/Token.antt =====
-- backend/internal/token.js, the tokens of backend/models/token.js, parseDatePeriod of
-- backend/lib/helpers.js, and `init` of backend/lib/access.js, which opens a session from a token.
-- `now` is in milliseconds for a date, and in seconds for a token.
pub mod Fresh
pub mod Login
pub mod SecondFactor
mod Tests
use hyrovi_proxy_manager.Prelude.{
  ℕ, suc, Bool, true, false, not, ◌&&◌, ◌||◌, Option, none, some, List, [], ◌∷◌, ◌++◌, length,
  find?, all, ltb, ◌==◌, if◌then◌else◌, ◌≡◌,
}
use hyrovi_proxy_manager.Js.Text.{
  Text, codes, text_eq, mem_text, to_lower, trim, is_empty, is_digit,
}
use hyrovi_proxy_manager.Errors.{
  Error, io_error, auth_error, permission_error, token_revoked_error, Result, ok, err, M, pure,
  throw, throw_if, branch, on_option, lift, catch, ◌>>=◌, ◌>>◌,
}
use hyrovi_proxy_manager.Account.{
  User, Auth, World, Payload, Env, query, draw, find_auth, is_enabled,
}
use hyrovi_proxy_manager.Account.TwoFactor.{verify_for_login}

-- The lines of a text, for the flag m of a regular expression.
abbrev ends_line : ℕ → Bool
ends_line c = (c == 10) || (c == 13) || (c == 8232) || (c == 8233)

abbrev add_unit : ℕ → List Text → List Text
add_unit c [] = (c ∷ []) ∷ []
add_unit c (l ∷ ls) = (c ∷ l) ∷ ls

pub lines : Text → List Text
lines [] = [] ∷ []
lines (c ∷ s) = let rest = lines s in if ends_line c then [] ∷ rest else add_unit c rest

-- The digits at the front of a line, and what is left.
pub span_digits : Text → Text × Text
span_digits [] = ([], [])
span_digits (c ∷ s) =
    let rest = span_digits s in if is_digit c then (c ∷ rest.0, rest.1) else ([], c ∷ s)

abbrev period_units : List Text
period_units =
    codes "y"
    ∷ codes "Q"
    ∷ codes "M"
    ∷ codes "w"
    ∷ codes "d"
    ∷ codes "h"
    ∷ codes "m"
    ∷ codes "s"
    ∷ codes "ms"
    ∷ []

-- The count and the unit of the first line /^([0-9]+)(y|Q|M|w|d|h|m|s|ms)$/
pub line_period : List Text → Option (Text × Text)
line_period [] = none
line_period (l ∷ ls) =
    let rest = line_period ls in
    if not (is_empty (span_digits l).0) && mem_text (span_digits l).1 period_units
    then some (span_digits l)
    else rest

pub parse_date_period : Text → Option (Text × Text)
parse_date_period expression = line_period (lines expression)

-- A full token with its date of expiry, or the challenge that asks for a second factor.
pub data Answer : Type 0 where
  signed : (token expires : Text) → Answer
  challenge : Text → Answer

abbrev pub challenge_scope : Text
challenge_scope = codes "2fa-challenge"

abbrev pub user_scope : Text
user_scope = codes "user"

abbrev pub invalid_auth : Error
invalid_auth = auth_error (codes "Invalid email or password")

-- `value || fallback`
abbrev pub or_text : Option Text → Text → Text
or_text none t = t
or_text (some s) t = if is_empty s then t else s

-- .where("email", email).andWhere("is_deleted", 0).andWhere("is_disabled", 0)
abbrev pub logs_in_as : Text → User → Bool
logs_in_as email u = text_eq u.email email && not u.is_deleted && not u.is_disabled

abbrev pub is_active : ℕ → User → Bool
is_active id u = (u.id == id) && not u.is_deleted && not u.is_disabled

-- What `Token.load` makes of the old scope "all".
pub scope_of : List Text → List Text
scope_of scope = if mem_text (codes "all") scope then user_scope ∷ [] else scope

pub find_user : (User → Bool) → M World (Option User)
find_user p = do query; λ w. pure (find? p w.users) w

abbrev invalid_expiry : Text → Error
invalid_expiry expiry = auth_error (codes "Invalid expiry time: " ++ expiry)

-- `self.hasScope` of a loaded token.
abbrev pub has_scope : Text → List Text → Bool
has_scope name scope = mem_text name scope

abbrev pub admin_scope : Text
admin_scope = codes "admin"

-- The user and the scope of a fresh token: only an admin may ask for another scope, and the scopes
-- of machines have no user.
pub fresh_scope : Payload → Option Text → ℕ × List Text
fresh_scope p none = (p.user_id, p.scope)
fresh_scope p (some wanted) =
    if not (is_empty wanted) && has_scope admin_scope p.scope
    then (
      (if text_eq wanted (codes "job-board") || text_eq wanted (codes "worker")
          then 0
          else p.user_id),
      wanted ∷ [],
    )
    else (p.user_id, p.scope)

-- The last line of `getFreshToken` names a variable that the module does not have.
abbrev pub no_such_variable : Error
no_such_variable = io_error (codes "ReferenceError: error is not defined")

-- Every scope of the token is a role of the user, or `user`.
abbrev pub roles_cover : List Text → List Text → Bool
roles_cover scope roles = all (λ s. mem_text s (roles ++ (user_scope ∷ []))) scope

pub is_stale : ℕ → Option Auth → Bool
is_stale issued none = false
is_stale issued (some a) = elim a.meta.password_changed_at [
  | none ↦ false
  | some changed ↦ not (changed == 0) && ltb issued changed
]

abbrev pub invalid_challenge : Error
invalid_challenge = auth_error (codes "Invalid challenge token")

abbrev pub head_is_challenge : List Text → Bool
head_is_challenge [] = false
head_is_challenge (s ∷ rest) = text_eq s challenge_scope

abbrev pub hide_error : Result Payload → Result Payload
hide_error (ok p) = ok p
hide_error (err e) = err (auth_error (codes "Invalid or expired challenge token"))

module _ (env : Env) (now : ℕ) where
  -- `Token.create`: signed with a fresh `jti`.
  pub create_token : (user : ℕ) (scope : List Text) (expires_in : Text) → M World Text
  create_token user scope expires_in = do
    d ← draw
    lift (env.sign d (record { user_id = user; scope = scope; issued_at = now }) expires_in)

  -- `Token.load`; the verification of the package and its errors are `verify_jwt`.
  pub load_token : Text → Result Payload
  load_token token =
      if is_empty token || text_eq token (codes "null")
      then err (auth_error (codes "Empty token"))
      else elim (env.verify_jwt now token) [
        | err e ↦ err e
        | ok p ↦ ok (record p { scope = scope_of p.scope })
      ]

  -- A full token, when the expiry reads as a period.
  pub full_token : (user : ℕ) (scope : List Text) (expiry : Text) → M World Answer
  full_token user scope expiry =
      on_option (parse_date_period expiry) (throw (invalid_expiry expiry)) (λ period. do
        token ← create_token user scope expiry
        pure (signed token (env.date_after now period.0 period.1)))

  pub get_token_from_email : (identity secret : Text) (scope expiry : Option Text) → M World Answer
  get_token_from_email identity secret scope expiry = do
    found ← find_user (logs_in_as (trim (to_lower identity)))
    on_option found (throw invalid_auth) (λ user. do
      row ← find_auth user.id
      on_option row (throw invalid_auth) (λ auth. do
        throw_if (not (env.compare_hash secret auth.secret)) invalid_auth
        throw_if
            (not (text_eq (or_text scope user_scope) user_scope)
              && not (mem_text (or_text scope user_scope) user.roles))
            (auth_error (codes "Invalid scope: " ++ or_text scope user_scope))
        has2fa ← is_enabled user.id
        branch has2fa
            (do
              token ← create_token user.id (challenge_scope ∷ []) (codes "5m")
              pure (challenge token))
            (full_token user.id (or_text scope user_scope ∷ []) (or_text expiry (codes "1d")))))

  pub verify_2fa : (challenge_token code : Text) (expiry : Option Text) → M World Answer
  verify_2fa challenge_token code expiry = do
    p ← lift (hide_error (load_token challenge_token))
    throw_if (not (head_is_challenge p.scope)) invalid_challenge
    throw_if (p.user_id == 0) invalid_challenge
    valid ← verify_for_login env p.user_id code
    throw_if (not valid) (auth_error (codes "Invalid verification code"))
    full_token p.user_id (user_scope ∷ []) (or_text expiry (codes "1d"))

  -- `getFreshToken`, where `p` is the token of the session.
  pub get_fresh_token : Payload → (scope expiry : Option Text) → M World Answer
  get_fresh_token p scope expiry =
      branch (p.user_id == 0) (throw no_such_variable)
        (full_token (fresh_scope p scope).0 (fresh_scope p scope).1 (or_text expiry (codes "1d")))

  pub get_token_from_user : ℕ → M World Answer
  get_token_from_user user = full_token user (user_scope ∷ []) (codes "1d")

  -- `Access.init`: the user of the session, or none for a token without a user.
  pub open_session : Text → M World (Option User)
  open_session token = do
    throw_if (is_empty token) permission_error
    p ← lift (load_token token)
    branch (not (p.user_id == 0) || mem_text user_scope p.scope)
        (do
          found ← find_user (is_active p.user_id)
          on_option found (throw (auth_error (codes "User cannot be loaded for Token"))) (λ user. do
            throw_if (not (roles_cover p.scope user.roles))
                (auth_error (codes "Invalid token scope for User"))
            row ← find_auth user.id
            throw_if (is_stale p.issued_at row)
                (token_revoked_error (codes "Token was issued before the password was changed"))
            pure (some user)))
        (pure none)
