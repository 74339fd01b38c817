-- ===== src/Security/Monitor/Once.antt =====
-- A round of the monitor answers no source twice in the same way.
use hyrovi_proxy_manager.Prelude.{
  ◌≡◌, refl, ap, ◌∙◌, Bool, true, false, ◌||◌, List, [], ◌∷◌, map, arith, Bool-cases, inl, inr,
}
use hyrovi_proxy_manager.Js.Text.{Text, text_eq, text_eq→eq, mem_text}
use hyrovi_proxy_manager.Js.Texts.{Fresh, append-Fresh, nil-Fresh, map-append, mem_append}
use hyrovi_proxy_manager.Security.Events.{Event}
use hyrovi_proxy_manager.Security.Escalation.{States}
use hyrovi_proxy_manager.Security.Responses.{Restriction}
use hyrovi_proxy_manager.Security.Monitor.{
  Start, Round, is_some, get_limit, set_limit, limits_by_ip, add_text, start_round, queue_block,
  queue_challenge, queue_rate_limit,
}
use hyrovi_proxy_manager.Security.Responses.{create_block_record, create_rate_limit_record}
use hyrovi_proxy_manager.Security.Monitor.Loop.{monitor_events}
use hyrovi_proxy_manager.Security.Monitor.Loop.Steps.{Kept, monitor_events_kept}

add_text_mem :
    (u : Text) (l : List Text)
    → mem_text u l ≡ false
    → (t : Text) → mem_text t (add_text u l) ≡ mem_text t l || text_eq u t
add_text_mem u l h t = simp h (mem_append t u l)

set_limit_known :
    (u : Text) (r : Restriction) (l : List (Text × Restriction)) (t : Text)
    → is_some (get_limit t (set_limit u r l)) ≡ is_some (get_limit t l) || text_eq u t
unfolding get_limit set_limit
set_limit_known u r [] t = elim (Bool-cases (text_eq u t)) [ inl e ↦ rw e refl | inr e ↦ rw e refl ]
set_limit_known u r ((k, q) ∷ l) t = elim (Bool-cases (text_eq k u)) [
  | inl e ↦
      let same : text_eq k t ≡ text_eq u t = ap (λ x. text_eq x t) (text_eq→eq k u e) in
      elim (Bool-cases (text_eq u t)) [
        | inl f ↦ let g : text_eq k t ≡ true = same ∙ f in rw e (rw g refl)
        | inr f ↦ let g : text_eq k t ≡ false = same ∙ f in rw e (rw g (rw f (or_false _)))
      ]
  | inr e ↦ elim (Bool-cases (text_eq k t)) [
    | inl f ↦ rw e (rw f refl)
    | inr f ↦ rw e (rw f (set_limit_known u r l t))
  ]
]
  where
    or_false : (b : Bool) → b ≡ b || false
    or_false b = ground arith

limits_known :
    (rs : List Restriction) (l : List (Text × Restriction)) (t : Text)
    → is_some (get_limit t (limits_by_ip rs l))
      ≡ is_some (get_limit t l) || mem_text t (map (λ r. r.ip) rs)
unfolding limits_by_ip
limits_known [] l t = ground arith
limits_known (r ∷ rs) l t =
    ground (arith, limits_known rs (set_limit r.ip r l) t, set_limit_known r.ip r l t)

module _ (start : Start) where
  -- The addresses of new blocks, challenges and rate limits: none twice, and none that had one.
  pub record AtMostOnce (s : Round) : Type 0 where
    pub blocks :
        Fresh
          (map (λ r. r.ip) start.blocks)
          (map (λ r. r.ip) s.block_additions)
          (λ t. mem_text t s.blocked_ips)
    pub challenges :
        Fresh
          (map (λ c. c.ip) start.challenges)
          (map (λ c. c.ip) s.challenge_requests)
          (λ t. mem_text t s.challenged_ips)
    pub rate_limits :
        Fresh
          (map (λ r. r.ip) start.rate_limits)
          (map (λ r. r.ip) s.rate_limit_additions)
          (λ t. is_some (get_limit t s.rate_limit_by_ip))

  AtMostOnce-Kept : Kept start AtMostOnce
  unfolding queue_block queue_challenge queue_rate_limit create_block_record
      create_rate_limit_record
  AtMostOnce-Kept = record {
    with_states = λ s states h. record {
      blocks = h.blocks;
      challenges = h.challenges;
      rate_limits = h.rate_limits;
    };
    with_block = λ e m source reason d s out new h. record {
      blocks = rw (map-append (λ r. r.ip) s.block_additions _) (
          append-Fresh _ _ _ (λ t. mem_text t (add_text e.ip s.blocked_ips)) e.ip new
            (add_text_mem e.ip s.blocked_ips new) h.blocks);
      challenges = h.challenges;
      rate_limits = h.rate_limits;
    };
    with_challenge = λ e eff source reason d s out new h. record {
      blocks = h.blocks;
      challenges = rw (map-append (λ c. c.ip) s.challenge_requests _) (
          append-Fresh _ _ _ (λ t. mem_text t (add_text e.ip s.challenged_ips)) e.ip new
            (add_text_mem e.ip s.challenged_ips new) h.challenges);
      rate_limits = h.rate_limits;
    };
    with_rate_limit = λ e m source reason d states s out new h. record {
      blocks = h.blocks;
      challenges = h.challenges;
      rate_limits = rw (map-append (λ r. r.ip) s.rate_limit_additions _) (
          append-Fresh _ _ _ _ e.ip (ap is_some new) (set_limit_known e.ip _ s.rate_limit_by_ip)
            h.rate_limits);
    };
  }

  -- Whatever requests a round of the monitor judges: of the blocks that it adds no two have the same
  -- address, and none has that of a block in force; likewise for the challenges and the rate limits.
  pub monitor_events-AtMostOnce :
      (es : List Event) (states : States)
      → AtMostOnce (monitor_events start es (start_round start states))
  unfolding start_round
  monitor_events-AtMostOnce es states =
      monitor_events_kept start AtMostOnce AtMostOnce-Kept es _ (record {
        blocks = nil-Fresh _ _ (λ t h. h);
        challenges = nil-Fresh _ _ (λ t h. h);
        rate_limits = nil-Fresh _ _ (λ t h. ground (arith, limits_known start.rate_limits [] t, h));
      })
