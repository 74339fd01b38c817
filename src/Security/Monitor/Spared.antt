-- ===== src/Security/Monitor/Spared.antt =====
-- Whom the monitor never touches.
use hyrovi_proxy_manager.Prelude.{◌≡◌, false, List, All, All-append}
use hyrovi_proxy_manager.Js.Text.{Text}
use hyrovi_proxy_manager.Security.Events.{Event}
use hyrovi_proxy_manager.Security.Autopilot.{is_exempt}
use hyrovi_proxy_manager.Security.Escalation.{States}
use hyrovi_proxy_manager.Security.Monitor.{
  Start, Round, start_round, queue_block, queue_challenge, queue_rate_limit, create_block_record,
  create_rate_limit_record,
}
use hyrovi_proxy_manager.Security.Responses.{create_block_record, create_rate_limit_record}
use hyrovi_proxy_manager.Security.Monitor.Loop.{monitor_events}
use hyrovi_proxy_manager.Security.Monitor.Loop.Steps.{Kept, monitor_events_kept}

module _ (start : Start) where
  abbrev pub Outsider : Text → Type 0
  Outsider ip = is_exempt start.net start.policy.settings.trusted_sources ip ≡ false

  -- All that a round adds is against addresses that are neither private nor trusted.
  pub record Spares (s : Round) : Type 0 where
    pub blocks : All (λ r. Outsider r.ip) s.block_additions
    pub rate_limits : All (λ r. Outsider r.ip) s.rate_limit_additions
    pub challenges : All (λ r. Outsider r.ip) s.challenge_requests
    pub fallbacks : All (λ r. Outsider r.ip) s.challenge_fallback_blocks

  Spares-Kept : Kept start Spares
  unfolding queue_block queue_challenge queue_rate_limit create_block_record
      create_rate_limit_record
  Spares-Kept = record {
    with_states = λ s states h. record {
      blocks = h.blocks;
      rate_limits = h.rate_limits;
      challenges = h.challenges;
      fallbacks = h.fallbacks;
    };
    with_block = λ e m source reason d s out b h. record {
      blocks = All-append _ s.block_additions _ h.blocks (out, tt);
      rate_limits = h.rate_limits;
      challenges = h.challenges;
      fallbacks = h.fallbacks;
    };
    with_challenge = λ e eff source reason d s out b h. record {
      blocks = h.blocks;
      rate_limits = h.rate_limits;
      challenges = All-append _ s.challenge_requests _ h.challenges (out, tt);
      fallbacks = All-append _ s.challenge_fallback_blocks _ h.fallbacks (out, tt);
    };
    with_rate_limit = λ e m source reason d states s out b h. record {
      blocks = h.blocks;
      rate_limits = All-append _ s.rate_limit_additions _ h.rate_limits (out, tt);
      challenges = h.challenges;
      fallbacks = h.fallbacks;
    };
  }

  -- Whatever requests a round of the monitor judges, it adds no block, no challenge and no rate limit
  -- against an address that is private or that a trusted source covers.
  pub monitor_events-Spares :
      (es : List Event) (states : States)
      → Spares (monitor_events start es (start_round start states))
  unfolding start_round
  monitor_events-Spares es states =
      monitor_events_kept start Spares Spares-Kept es _
        (record { blocks = tt; rate_limits = tt; challenges = tt; fallbacks = tt })
