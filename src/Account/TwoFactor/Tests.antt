-- ===== src/Account/TwoFactor/Tests.antt =====
-- Runs of the second factor, and the theorems on it at concrete inputs.
use hyrovi_proxy_manager.Prelude.{◌≢◌, refl, true, false, none, some, [], ◌∷◌, arith}
use hyrovi_proxy_manager.Js.Text.{codes, text_eq}
use hyrovi_proxy_manager.Js.Value.{texts}
use hyrovi_proxy_manager.Errors.{ok, control}
use hyrovi_proxy_manager.Account.{
  Auth, World, Env, query, find_auth, patch_rows, patch_meta, get_user_password_auth,
}
use hyrovi_proxy_manager.Account.TwoFactor.{
  secret_of, use_code, try_backup_code, totp_valid, verify_for_login,
}
use hyrovi_proxy_manager.Account.TwoFactor.Invariant.{
  Secured, starts, enables, disables, logs_in, serve, serve-Secured,
}
use hyrovi_proxy_manager.Account.TwoFactor.SingleUse.{verify_for_login_once}

abbrev lab : Env
lab = record {
  compare_hash = λ t h. text_eq t h;
  hash = λ t d. t;
  verify_totp = λ n t s. ok (text_eq t (codes "123456"));
  generate_secret = λ d. codes "seed";
  random_hex = λ d. codes "ab";
  sign = λ d p e. ok [];
  verify_jwt = λ n t. ok (record { user_id = 1; scope = []; issued_at = 0 });
  date_after = λ n c u. [];
}

abbrev amy : Auth
amy = record {
  id = 1;
  user_id = 1;
  secret = codes "pw";
  meta = record {
    totp_secret = some (codes "seed");
    totp_pending_secret = none;
    totp_enabled = true;
    totp_enabled_at = some 5;
    backup_codes = codes "AAAA1111" ∷ codes "BBBB2222" ∷ [];
    password_changed_at = none;
  };
}

abbrev at_rest : World
at_rest = record { users = []; auths = amy ∷ []; faults = []; draws = 0 }

abbrev after : World
after = record at_rest {
  auths = record amy { meta = record amy.meta { backup_codes = codes "AAAA1111" ∷ [] } } ∷ [];
}

-- The account of another user was added since.
abbrev later : World
later = record after { auths = record amy { id = 9; user_id = 2 } ∷ after.auths }

verify_for_login_once_example : (verify_for_login lab 1 (codes "bbbb2222") later).0 ≢ ok true
unfolding control texts secret_of use_code try_backup_code totp_valid verify_for_login query
    find_auth patch_rows patch_meta get_user_password_auth
verify_for_login_once_example =
    verify_for_login_once lab 1 (codes "bbbb2222") amy at_rest after later refl refl (omega arith)
      refl refl

serve-Secured_example : Secured (
    serve lab
      (λ w user. ok tt)
      (disables 1 (codes "123456")
        ∷ starts 1
        ∷ enables 7 1 (codes "123456")
        ∷ logs_in 1 (codes "AB")
        ∷ [])
      (record at_rest { faults = false ∷ true ∷ [] }))
unfolding secret_of
serve-Secured_example =
    serve-Secured lab (λ w user. ok tt)
      (disables 1 (codes "123456")
        ∷ starts 1
        ∷ enables 7 1 (codes "123456")
        ∷ logs_in 1 (codes "AB")
        ∷ [])
      (record at_rest { faults = false ∷ true ∷ [] }) ((λ e. (codes "seed", refl)), tt)
