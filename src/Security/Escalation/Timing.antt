-- ===== src/Security/Escalation/Timing.antt =====
-- `registerEscalationStrike` of backend/internal/security.js: the strikes behind a raised response.
use hyrovi_proxy_manager.Prelude.{
  ℕ, suc, ◌+◌, ◌≤◌, ◌≡◌, refl, ap, ◌∙◌, sym, true, false, not, ◌||◌, Option, none, some, List, [],
  ◌∷◌, ltb, length, arith, Bool-cases, inl, inr, subst,
}
use hyrovi_proxy_manager.Js.Text.{Text, text_eq}
use hyrovi_proxy_manager.Security.Policy.{Settings}
use hyrovi_proxy_manager.Security.Responses.{Restriction}
use hyrovi_proxy_manager.Security.Escalation.{
  EscalationState, at, States, Strike, parse_timestamp, cooldown_reference, is_cooling, find_state,
  window_ms, cooldown_ms, new_window, current_state, state_in_window, count_strike,
  register_escalation_strike,
}
use hyrovi_proxy_manager.Security.Escalation.Reached.{find-set_state}

-- Some of the times of a list, in the order of the list.
pub data Subsequence : List ℕ → List ℕ → Type 0 where
  done : Subsequence [] []
  pass : {us ts : List ℕ} {t : ℕ} → Subsequence us ts → Subsequence us (t ∷ ts)
  pick : {us ts : List ℕ} {t : ℕ} → Subsequence us ts → Subsequence (t ∷ us) (t ∷ ts)

none_of : (ts : List ℕ) → Subsequence [] ts
none_of [] = done
none_of (t ∷ ts) = pass (none_of ts)

-- No time is later than `stop`.
abbrev pub NoneAfter : ℕ → List ℕ → Type 0
NoneAfter stop [] = Unit
NoneAfter stop (t ∷ ts) = (t ≤ stop) × NoneAfter stop ts

cooldown_reference_at :
    (s : EscalationState) {u : ℕ} → s.last_strike_at ≡ at u → cooldown_reference s ≡ some u
unfolding cooldown_reference parse_timestamp
cooldown_reference_at s e = rw e refl

module _ (policy : Settings) where
  -- Times, the latest first, each at least a cooldown after the one before it.
  abbrev pub Apart : List ℕ → Type 0
  Apart [] = Unit
  Apart (t ∷ []) = Unit
  Apart (t ∷ u ∷ us) = (u + cooldown_ms policy ≤ t) × Apart (u ∷ us)

  abbrev Latest : List ℕ → EscalationState → Type 0
  Latest [] s = Unit
  Latest (u ∷ us) s = s.last_strike_at ≡ at u

  -- The strikes of a state are requests among `ts`, a cooldown apart and within the window.
  record Counts (ts : List ℕ) (s : EscalationState) : Type 0 where
    strikes_at : List ℕ
    number : s.strikes ≡ length strikes_at
    among : Subsequence strikes_at ts
    apart : Apart strikes_at
    latest : Latest strikes_at s
    within :
        (w : ℕ)
        → parse_timestamp s.window_started_at ≡ some w
        → NoneAfter (w + window_ms policy) strikes_at

  abbrev CountsIf : List ℕ → Option EscalationState → Type 0
  CountsIf ts none = Unit
  CountsIf ts (some s) = Counts ts s

  -- A raised response has as many strikes behind it as the policy asks for: requests among `ts`, the
  -- latest first, a cooldown apart, and none later than the window.
  pub record IsDue (ts : List ℕ) (k : Strike) : Type 0 where
    pub strikes_at : List ℕ
    pub started : ℕ
    pub window : parse_timestamp k.state.window_started_at ≡ some started
    pub among : Subsequence strikes_at ts
    pub apart : Apart strikes_at
    pub within : NoneAfter (started + window_ms policy) strikes_at
    pub enough : policy.auto_escalation_hits ≤ length strikes_at

  module _ (time : ℕ) (ts : List ℕ) where
    -- What one call keeps and shows.
    Fair : Strike → Type 0
    Fair k = Counts (time ∷ ts) k.state × (k.escalated ≡ true → IsDue (time ∷ ts) k)

    next-Apart :
        (us : List ℕ) (s : EscalationState)
        → Latest us s
        → Apart us
        → is_cooling policy time (cooldown_reference s) ≡ false
        → Apart (time ∷ us)
    next-Apart [] s l a c = tt
    next-Apart (u ∷ us) s l a c =
        let cool : is_cooling policy time (some u) ≡ false =
          sym (ap (is_cooling policy time) (cooldown_reference_at s l)) ∙ c in
        (ground (arith, cool), a)

    count-Fair :
        (s : EscalationState) (w : ℕ)
        → parse_timestamp s.window_started_at ≡ some w
        → time ≤ w + window_ms policy
        → Counts ts s
        → Fair (count_strike policy time s)
    unfolding Fair count_strike
    count-Fair s w e q c = elim (Bool-cases (is_cooling policy time (cooldown_reference s))) [
      | inl h ↦ rw h (
        record {
          strikes_at = c.strikes_at;
          number = c.number;
          among = pass c.among;
          apart = c.apart;
          latest = c.latest;
          within = c.within;
        },
        λ x. cc,
      )
      | inr h ↦
          let apart = next-Apart c.strikes_at s c.latest c.apart h in
          let more : suc s.strikes ≡ suc (length c.strikes_at) = ap (λ k. suc k) c.number in
          rw h (
            record {
              strikes_at = time ∷ c.strikes_at;
              number = more;
              among = pick c.among;
              apart = apart;
              latest = refl;
              within = λ v x.
                  let same : w ≡ v = cc in
                  subst (λ y. NoneAfter (y + window_ms policy) (time ∷ c.strikes_at)) same
                    (q, c.within w e);
            },
            λ x. record {
              strikes_at = time ∷ c.strikes_at;
              started = w;
              window = e;
              among = pick c.among;
              apart = apart;
              within = (q, c.within w e);
              enough = ground (arith, x, more);
            },
          )
    ]

    new-Fair : (limit : Restriction) → Fair (count_strike policy time (new_window limit time))
    unfolding parse_timestamp
    new-Fair limit = count-Fair (new_window limit time) time refl (omega arith) (record {
      strikes_at = [];
      number = refl;
      among = none_of ts;
      apart = tt;
      latest = tt;
      within = λ w e. tt;
    })

    state_in_window-Fair :
        (limit : Restriction) (s : EscalationState) (o : Option ℕ)
        → parse_timestamp s.window_started_at ≡ o
        → Counts ts s
        → Fair (count_strike policy time (state_in_window policy limit time s o))
    unfolding state_in_window
    state_in_window-Fair limit s none e c = new-Fair limit
    state_in_window-Fair limit s (some w) e c =
        elim (Bool-cases
          (not (text_eq s.rate_limit_id limit.id) || ltb (w + window_ms policy) time)) [
            | inl h ↦ rw h (new-Fair limit)
            | inr h ↦ rw h (count-Fair s w e (ground (arith, h)) c)
          ]

    current-Fair :
        (limit : Restriction) (o : Option EscalationState)
        → CountsIf ts o
        → Fair (count_strike policy time (current_state policy limit time o))
    unfolding current_state
    current-Fair limit none c = new-Fair limit
    current-Fair limit (some s) c = state_in_window-Fair limit s _ refl c

  abbrev pub NoStrikes : Option EscalationState → Type 0
  NoStrikes none = Unit
  NoStrikes (some s) = s.strikes ≡ 0

  NoStrikes-CountsIf : (o : Option EscalationState) → NoStrikes o → CountsIf [] o
  NoStrikes-CountsIf none h = tt
  NoStrikes-CountsIf (some s) h = record {
    strikes_at = [];
    number = h;
    among = done;
    apart = tt;
    latest = tt;
    within = λ w e. tt;
  }

  module _ (limit : Restriction) (ip : Text) (states : States) where
    -- The states after the requests of the source at these times, the latest first.
    unfoldable pub after : List ℕ → States
    after [] = states
    after (t ∷ ts) = (register_escalation_strike policy limit ip t (after ts)).1

    after-CountsIf :
        (ts : List ℕ) → NoStrikes (find_state ip states) → CountsIf ts (find_state ip (after ts))
    unfolding after register_escalation_strike Fair
    after-CountsIf [] h = NoStrikes-CountsIf _ h
    after-CountsIf (t ∷ ts) h =
        subst (CountsIf (t ∷ ts)) (sym (find-set_state ip _ (after ts)))
          (current-Fair t ts limit (find_state ip (after ts)) (after-CountsIf ts h)).0

    -- When a source starts with no strikes and one of its requests raises the response, then as many of
    -- its requests up to that one as the policy has hits, or more, are each at least a cooldown after
    -- the one before, and none of them is later than the end of the window.
    pub register_escalation_strike-IsDue :
        (ts : List ℕ) (t : ℕ)
        → NoStrikes (find_state ip states)
        → (register_escalation_strike policy limit ip t (after ts)).0.escalated ≡ true
        → IsDue (t ∷ ts) (register_escalation_strike policy limit ip t (after ts)).0
    unfolding register_escalation_strike Fair
    register_escalation_strike-IsDue ts t h e =
        (current-Fair t ts limit (find_state ip (after ts)) (after-CountsIf ts h)).1 e
