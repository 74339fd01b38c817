-- ===== src/Security/Escalation/Reached.antt =====
-- `registerEscalationStrike` of backend/internal/security.js over attacks a cooldown apart.
use hyrovi_proxy_manager.Prelude.{
  ℕ, suc, ◌+◌, ◌≤◌, ◌≡◌, refl, ap, ◌∙◌, false, some, List, [], ◌∷◌, ◌++◌, leb, ltb, length, arith,
  Bool-cases, inl, inr,
}
use hyrovi_proxy_manager.Js.Text.{Text, text_eq, text_eq_refl}
use hyrovi_proxy_manager.Security.Policy.{Settings}
use hyrovi_proxy_manager.Security.Responses.{Restriction}
use hyrovi_proxy_manager.Security.Escalation.{
  EscalationState, States, find_state, set_state, create_escalation_state, window_ms, cooldown_ms,
  parse_timestamp, created_stamp, cooldown_reference, state_in_window, current_state, is_cooling,
  count_strike, register_escalation_strike,
}

pub find-set_state :
    (ip : Text) (s : EscalationState) (l : States) → find_state ip (set_state ip s l) ≡ some s
unfolding find_state set_state
find-set_state ip s [] = rw (text_eq_refl ip) refl
find-set_state ip s ((k, t) ∷ l) = elim (Bool-cases (text_eq k ip)) [
  | inl e ↦ rw e (rw e refl)
  | inr e ↦ rw e (rw e (find-set_state ip s l))
]

module _ (policy : Settings) (limit : Restriction) where
  -- The states after requests at these times.
  unfoldable pub attack : Text → List ℕ → States → States
  attack ip [] states = states
  attack ip (t ∷ ts) states = attack ip ts (register_escalation_strike policy limit ip t states).1

  -- Times that are a cooldown apart, from `r` on, and no later than `stop`.
  abbrev pub Spaced : ℕ → ℕ → List ℕ → Type 0
  Spaced r stop [] = Unit
  Spaced r stop (t ∷ ts) = (r + cooldown_ms policy ≤ t) × (t ≤ stop) × Spaced t stop ts

  -- A state of this rate limit with `n` strikes, in a window from `w`, that cools down from `r`.
  record Open (w r n : ℕ) (s : EscalationState) : Type 0 where
    same_limit : s.rate_limit_id ≡ limit.id
    window : parse_timestamp s.window_started_at ≡ some w
    reference : cooldown_reference s ≡ some r
    count : s.strikes ≡ n

  current_Open :
      (w r n t : ℕ) (s : EscalationState)
      → Open w r n s
      → t ≤ w + window_ms policy
      → current_state policy limit t (some s) ≡ s
  unfolding current_state state_in_window
  current_Open w r n t s o h =
      let live : ltb (w + window_ms policy) t ≡ false = ground (arith, h) in
      let same : state_in_window policy limit t s (some w) ≡ s =
        simp o.same_limit (simp (text_eq_refl limit.id) (simp live refl)) in
      ap (state_in_window policy limit t s) o.window ∙ same

  count_Open :
      (w r n t : ℕ) (s : EscalationState)
      → Open w r n s
      → r + cooldown_ms policy ≤ t
      → ((count_strike policy t s).escalated ≡ leb policy.auto_escalation_hits (suc n))
        × Open w t (suc n) (count_strike policy t s).state
  unfolding count_strike cooldown_reference parse_timestamp
  count_Open w r n t s o h =
      let over : is_cooling policy t (cooldown_reference s) ≡ false =
        ap (is_cooling policy t) o.reference ∙ ground (arith, h) in
      rw over (
        ap (λ k. leb policy.auto_escalation_hits (suc k)) o.count,
        record {
          same_limit = o.same_limit;
          window = o.window;
          reference = refl;
          count = ap (λ k. suc k) o.count;
        },
      )

  attack-Open :
      (ip : Text) (ts : List ℕ) (w r n t : ℕ) (states : States) (s : EscalationState)
      → find_state ip states ≡ some s
      → Open w r n s
      → Spaced r (w + window_ms policy) (ts ++ (t ∷ []))
      → (register_escalation_strike policy limit ip t (attack ip ts states)).0.escalated
        ≡ leb policy.auto_escalation_hits (suc (n + length ts))
  unfolding attack register_escalation_strike
  attack-Open ip [] w r n t states s f o (h, l, _) =
      let none_more : suc (n + 0) ≡ suc n = omega arith in
      rw f (rw (current_Open w r n t s o l) (rw none_more (count_Open w r n t s o h).0))
  attack-Open ip (u ∷ ts) w r n t states s f o (h, l, more) =
      let now : current_state policy limit u (find_state ip states) ≡ s =
        ap (current_state policy limit u) f ∙ current_Open w r n u s o l in
      let found : find_state ip (register_escalation_strike policy limit ip u states).1
          ≡ some (count_strike policy u s).state =
        find-set_state ip _ states ∙ ap (λ k. some (count_strike policy u k).state) now in
      let one_more : suc n + length ts ≡ n + suc (length ts) = omega arith in
      attack-Open ip ts w u (suc n) t _ _ found (count_Open w r n u s o h).1 more
      ∙ ap (λ k. leb policy.auto_escalation_hits (suc k)) one_more

-- A source whose rate limit started at `w` and that then attacks at times a cooldown apart, the first
-- of them at least a cooldown after 1970 and none later than the window, is escalated exactly from the
-- request on that makes up the number of hits.
pub attack-escalated :
    (policy : Settings) (limit : Restriction) (ip : Text) (ts : List ℕ) (w t : ℕ) (states : States)
    → limit.created_at ≡ some w
    → find_state ip states ≡ some (create_escalation_state limit)
    → Spaced policy limit 0 (w + window_ms policy) (ts ++ (t ∷ []))
    → (register_escalation_strike policy limit ip t (attack policy limit ip ts states)).0.escalated
      ≡ leb policy.auto_escalation_hits (length ts + 1)
unfolding create_escalation_state parse_timestamp cooldown_reference
attack-escalated policy limit ip ts w t states e f h =
    let one_more : suc (0 + length ts) ≡ length ts + 1 = omega arith in
    let start : Open policy limit w 0 0 (create_escalation_state limit) = record {
      same_limit = refl;
      window = ap (λ o. parse_timestamp (created_stamp o)) e;
      reference = refl;
      count = refl;
    } in
    attack-Open policy limit ip ts w 0 0 t states _ f start h
    ∙ ap (λ k. leb policy.auto_escalation_hits k) one_more
