-- ===== src/Account/Token/Tests.antt =====
-- Logins and sessions, and the theorems on them at concrete inputs.
use hyrovi_proxy_manager.Prelude.{
  ℕ, ◌≡◌, ◌≢◌, refl, sym, ◌∙◌, Bool, true, false, ◌&&◌, ◌==◌, if◌then◌else◌, none, some, List, [],
  ◌∷◌, arith,
}
use hyrovi_proxy_manager.Js.Text.{Text, codes, text_eq, text_eq_iff}
use hyrovi_proxy_manager.Js.Value.{texts}
use hyrovi_proxy_manager.Errors.{ok, auth_error, err, control}
use hyrovi_proxy_manager.Hoare.{ok_injective}
use hyrovi_proxy_manager.Account.{
  User, Auth, World, Payload, Env, query, draw, find_auth, get_user_password_auth, is_enabled,
}
use hyrovi_proxy_manager.Account.TwoFactor.{
  secret_of, use_code, try_backup_code, totp_valid, verify_for_login,
}
use hyrovi_proxy_manager.Account.Token.{
  challenge, signed, lines, span_digits, line_period, parse_date_period, scope_of, find_user,
  create_token, load_token, full_token, get_token_from_email, verify_2fa, is_stale, open_session,
  fresh_scope, get_fresh_token,
}
use hyrovi_proxy_manager.Account.Token.Fresh.{OwnToken, get_fresh_token-OwnToken}
use hyrovi_proxy_manager.Account.Token.Login.{
  PasswordChecked, get_token_from_email-PasswordChecked, Session, open_session-Session,
}
use hyrovi_proxy_manager.Account.Token.SecondFactor.{
  Proven, verify_2fa-Proven, ReadsBack, challenge-no_session,
}

abbrev challenged : Payload
challenged = record { user_id = 1; scope = codes "2fa-challenge" ∷ []; issued_at = 100 }

-- A signing package that signs and reads one payload alone.
abbrev lab : Payload → Env
lab p = record {
  compare_hash = λ t h. text_eq t h;
  hash = λ t d. t;
  verify_totp = λ n t s. ok (text_eq t (codes "123456"));
  generate_secret = λ d. codes "seed";
  random_hex = λ d. codes "ab";
  sign = λ d q e. ok (codes "t");
  verify_jwt = λ n t. ok p;
  date_after = λ n c u. codes "later";
}

abbrev amy : User
amy = record {
  id = 1;
  email = codes "a@b";
  is_deleted = false;
  is_disabled = false;
  roles = codes "admin" ∷ [];
}

abbrev row : Auth
row = record {
  id = 1;
  user_id = 1;
  secret = codes "pw";
  meta = record {
    totp_secret = some (codes "seed");
    totp_pending_secret = none;
    totp_enabled = true;
    totp_enabled_at = some 5;
    backup_codes = [];
    password_changed_at = some 50;
  };
}

abbrev at_rest : World
at_rest = record { users = amy ∷ []; auths = row ∷ []; faults = []; draws = 0 }

-- All that a run computes through.
unfoldable run : Unit {0}
unfolding control texts secret_of use_code try_backup_code totp_valid verify_for_login query draw
    find_auth get_user_password_auth is_enabled lines span_digits line_period parse_date_period
    scope_of find_user create_token load_token full_token get_token_from_email verify_2fa is_stale
    open_session
run = tt

get_token_from_email-PasswordChecked_example :
    PasswordChecked
      (amy ∷ [])
      (row ∷ [])
      (lab challenged)
      100
      (codes " A@b")
      (codes "pw")
      (challenge (codes "t"))
unfolding run
get_token_from_email-PasswordChecked_example =
    get_token_from_email-PasswordChecked (lab challenged) 100 (codes " A@b") (codes "pw") none none
      at_rest refl

open_session-Session_example :
    Session (lab (record challenged { scope = codes "user" ∷ [] })) 200 (codes "t") at_rest amy
unfolding run
open_session-Session_example =
    open_session-Session (lab (record challenged { scope = codes "user" ∷ [] })) 200 (codes "t")
      at_rest refl

verify_2fa-Proven_example : Proven (lab challenged) 100 (codes "t") (codes "123456") at_rest
unfolding run
verify_2fa-Proven_example =
    verify_2fa-Proven (lab challenged) 100 (codes "t") (codes "123456") (some (codes "7d")) at_rest
      refl

get_fresh_token-OwnToken_example :
    OwnToken
      (lab challenged)
      100
      (record challenged { scope = codes "user" ∷ [] })
      none
      (signed (codes "t") (codes "later"))
unfolding run get_fresh_token fresh_scope
get_fresh_token-OwnToken_example =
    get_fresh_token-OwnToken (lab challenged) 100 (record challenged { scope = codes "user" ∷ [] })
      (some (codes "worker")) none at_rest refl refl

-- A signing package that signs this payload and no other.
abbrev lone : List Text → Bool
lone [] = false
lone (s ∷ []) = text_eq s (codes "2fa-challenge")
lone (s ∷ t ∷ rest) = false

abbrev is_challenged : Payload → Bool
is_challenged p = (p.user_id == 1) && (p.issued_at == 100) && lone p.scope

abbrev strict : Env
strict = record (lab challenged) {
  sign = λ d p e. if is_challenged p then ok (codes "t") else err (auth_error []);
}

challenged_only : (p : Payload) → is_challenged p ≡ true → challenged ≡ p
challenged_only p h = go p.user_id p.scope p.issued_at h
  where
    go :
        (u : ℕ) (s : List Text) (i : ℕ)
        → is_challenged (record { user_id = u; scope = s; issued_at = i }) ≡ true
        → challenged ≡ record { user_id = u; scope = s; issued_at = i }
    go u [] i h = ground arith
    go u (s ∷ []) i h =
        let it : s ≡ codes "2fa-challenge" =
          (text_eq_iff s (codes "2fa-challenge")).0 (ground (arith, h)) in
        let one : u ≡ 1 = ground (arith, h) in
        let hundred : i ≡ 100 = ground (arith, h) in rw (it, one, hundred) refl
    go u (s ∷ t ∷ rest) i h = ground arith

strict-ReadsBack : ReadsBack strict
strict-ReadsBack d now p q expires token made read =
    let is_it : is_challenged p ≡ true = ground (arith, made) in
    sym (ok_injective read) ∙ challenged_only p is_it

challenge-no_session_example : (open_session strict 200 (codes "t") at_rest).0 ≢ ok (some amy)
unfolding run
challenge-no_session_example =
    challenge-no_session strict 100 200 (codes "a@b") (codes "pw") none none at_rest at_rest
      strict-ReadsBack (refl, tt) refl
