-- ===== src/Account/Token/Fresh.antt =====
-- `getFreshToken` of backend/internal/token.js gives no one more than the session has.
use hyrovi_proxy_manager.Prelude.{ℕ, ◌≡◌, refl, false, not, ◌&&◌, Option, none, some, arith}
use hyrovi_proxy_manager.Js.Text.{Text, codes, is_empty}
use hyrovi_proxy_manager.Errors.{ok}
use hyrovi_proxy_manager.Hoare.{Ensures, Outcome-ok, Ensures-branch, Ensures-throw, Ensures-weaken}
use hyrovi_proxy_manager.Account.{World, Payload, Env}
use hyrovi_proxy_manager.Account.Token.{
  Answer, signed, or_text, has_scope, admin_scope, fresh_scope, get_fresh_token,
}
use hyrovi_proxy_manager.Account.Token.Login.{Kept, full_token-Kept}

-- What is signed for a session without the scope admin: its own user and scope.
pub record OwnToken (env : Env) (now : ℕ) (p : Payload) (expiry : Option Text) (answer : Answer)
    : Type 0 where
  pub token : Text
  pub expires : Text
  pub draw_number : ℕ
  pub given : answer ≡ signed token expires
  pub own :
      env.sign draw_number
        (record { user_id = p.user_id; scope = p.scope; issued_at = now })
        (or_text expiry (codes "1d"))
      ≡ ok token

fresh_scope_own :
    (p : Payload) (wanted : Option Text)
    → has_scope admin_scope p.scope ≡ false
    → fresh_scope p wanted ≡ (p.user_id, p.scope)
unfolding fresh_scope
fresh_scope_own p none h = refl
fresh_scope_own p (some s) h =
    let refused : (not (is_empty s) && has_scope admin_scope p.scope) ≡ false = ground (arith, h) in
    rw refused refl

fresh-OwnToken :
    (env : Env) (now : ℕ) (p : Payload) (wanted expiry : Option Text) (w : World)
    → has_scope admin_scope p.scope ≡ false
    → Ensures
        (Kept w.users w.auths)
        (OwnToken env now p expiry)
        (get_fresh_token env now p wanted expiry)
unfolding get_fresh_token
fresh-OwnToken env now p wanted expiry w h =
    Ensures-branch _ _ (λ _. Ensures-throw _ _)
      (λ _. rw (fresh_scope_own p wanted h) (
        Ensures-weaken _ (full_token-Kept w.users w.auths env now p.user_id p.scope _)
          (λ a (t, e, is_signed, d, made). record {
            token = t;
            expires = e;
            draw_number = d;
            given = is_signed;
            own = made;
          })))

-- A session without the scope admin that asks for a fresh token gets one for its own user and its own
-- scope, whatever scope it asks for.
pub get_fresh_token-OwnToken :
    (env : Env) (now : ℕ) (p : Payload) (wanted expiry : Option Text) (w : World) {answer : Answer}
    → has_scope admin_scope p.scope ≡ false
    → (get_fresh_token env now p wanted expiry w).0 ≡ ok answer
    → OwnToken env now p expiry answer
get_fresh_token-OwnToken env now p wanted expiry w h done =
    Outcome-ok (Kept w.users w.auths) (OwnToken env now p expiry) _
      ((fresh-OwnToken env now p wanted expiry w h).run w (refl, refl)) done
