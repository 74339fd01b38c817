-- ===== src/Security/Responses.antt =====
-- Blocks and rate limits of backend/internal/security.js: an address or a network, and until when.
use hyrovi_proxy_manager.Prelude.{ℕ, ◌+◌, ◌*◌, Option, some, if◌then◌else◌, take}
use hyrovi_proxy_manager.Js.Text.{Text, codes, is_empty, trim}
use hyrovi_proxy_manager.Security.Autopilot.{Decision}

-- No `expiresAt`, one that is no date, or a date.
pub data Expiry : Type 0 where
  never unreadable : Expiry
  until : ℕ → Expiry

-- A row of blocks.json or of rate-limits.json. A time that is no date is `none`.
pub record Restriction : Type 0 where
  pub id : Text
  pub ip : Text
  pub reason : Text
  pub source : Text
  pub decision : Option Decision
  pub created_at : Option ℕ
  pub expires_at : Expiry

abbrev text_or : Text → Text → Text
text_or s other = if is_empty s then other else s

-- createBlockRecord and createRateLimitRecord, which differ in the default texts.
abbrev pub create_record :
    (reason_default source_default : Text) (id : Text) (now : ℕ) (ip : Text) (minutes : ℕ)
    (source reason : Text)
    → Option Decision
    → Restriction
create_record reason_default source_default id now ip minutes source reason decision = record {
  id = id;
  ip = ip;
  reason = take 300 (trim (text_or reason reason_default));
  source = text_or source source_default;
  decision = decision;
  created_at = some now;
  expires_at = until (now + minutes * 60_000);
}

unfoldable pub create_block_record :
    (id : Text) (now : ℕ) (ip : Text) (minutes : ℕ) (source reason : Text)
    → Option Decision
    → Restriction
unfolding trim
create_block_record = create_record (codes "HYROVI Sec block") (codes "hyrovi-sec")

unfoldable pub create_rate_limit_record :
    (id : Text) (now : ℕ) (ip : Text) (minutes : ℕ) (source reason : Text)
    → Option Decision
    → Restriction
unfolding trim
create_rate_limit_record = create_record (codes "HYROVI Sec rate limit") (codes "manual")
