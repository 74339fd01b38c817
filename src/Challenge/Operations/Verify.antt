-- ===== src/Challenge/Operations/Verify.antt =====
-- `verify` of backend/internal/security_challenge.js: the proof which the client of
-- clients/hyrovi-sec-challenge-node.mjs finds is accepted.
use hyrovi_proxy_manager.Prelude.{
  ℕ, suc, ◌-◌, ◌≤◌, ◌<◌, ◌≡◌, Bool, true, false, not, ◌&&◌, Option, some, List, [], arith, leb,
  filter, find?, Bool-cases, inl, inr, length, ◌==◌,
}
use hyrovi_proxy_manager.Prelude.Int.{pos}
use hyrovi_proxy_manager.Js.Text.{Text, text_eq}
use hyrovi_proxy_manager.Js.Value.{Value, str, num}
use hyrovi_proxy_manager.Errors.{ok, control}
use hyrovi_proxy_manager.Challenge.Proof.{leading_zero_bits, solve_from, solve_from_sound}
use hyrovi_proxy_manager.Challenge.{
  Challenge, World, Env, ChallengesFile, entries, array_or_empty, active_challenges, apply_geo,
  commit_state, purge_expired_unsafe, max_verify_counter, render_geo, read_geo, replace_geo,
  write_challenges, read_challenges_unsafe, text_or_empty,
}
use hyrovi_proxy_manager.Challenge.Operations.{
  verify, verify_found, settle, passes, proof_input, normalize_counter, is_text, id_is,
}

abbrev pub matches : Text → Value → Challenge → Bool
matches ip id c = text_eq c.ip ip && is_text id c.id

normalize_counter-pos : (n : ℕ) → n ≤ max_verify_counter → normalize_counter (num (pos n)) ≡ ok n
unfolding normalize_counter
normalize_counter-pos n h = ground arith

le→passes :
    (env : Env) (c : Challenge) (n : ℕ)
    → c.difficulty ≤ leading_zero_bits (env.sha256 (proof_input c n))
    → passes env c n ≡ true
unfolding passes
le→passes env c n h = ground arith

-- A state in which every coming call of the outside world succeeds.
abbrev pub calm : ChallengesFile → Option Text → Text → ℕ → World
calm f g l d = record { file = f; geo = g; loaded = l; faults = []; draws = d }

module _ (env : Env) (now : ℕ) where
  apply_geo-calm :
      (cs : List Challenge) (f : ChallengesFile) (g : Option Text) (l : Text) (d : ℕ)
      → (b : Bool) × (g' : Option Text) × (l' : Text) × (apply_geo env now cs (calm f g l d)
          ≡ (ok b, calm f g' l' d))
  unfolding apply_geo read_geo replace_geo control
  apply_geo-calm cs f g l d =
      elim (Bool-cases (text_eq (text_or_empty g) (render_geo env now cs))) [
        | inl e ↦ (false, g, l, rw e)
        | inr e ↦ (true, some (render_geo env now cs), render_geo env now cs, rw e)
      ]

  commit_state-calm :
      (cs next : List Challenge) (f : ChallengesFile) (g : Option Text) (l : Text) (d : ℕ)
      → (g' : Option Text) × (l' : Text) × (commit_state env now cs next (calm f g l d)
          ≡ (ok tt, calm (entries next) g' l' d))
  unfolding commit_state write_challenges
  commit_state-calm cs next f g l d =
      let (b, g', l', e) = apply_geo-calm next f g l d in (g', l', rw e)

  purge_expired_unsafe-calm :
      (f : ChallengesFile) (g : Option Text) (l : Text) (d : ℕ)
      → (f' : ChallengesFile) × (g' : Option Text) × (l' : Text) × (purge_expired_unsafe env now
            (calm f g l d)
          ≡ (ok (active_challenges env now (array_or_empty f)), calm f' g' l' d))
  unfolding purge_expired_unsafe read_challenges_unsafe control
  purge_expired_unsafe-calm f g l d =
      let cs : List Challenge = array_or_empty f in
      let active = active_challenges env now cs in
      elim (Bool-cases (length active == length cs)) [
        | inl e ↦ let (b, g', l', q) = apply_geo-calm active f g l d in (f, g', l', rw e (rw q))
        | inr e ↦
            let (g', l', q) = commit_state-calm cs active f g l d in
            (entries active, g', l', rw e (rw q))
      ]

-- The client's search and the server's check fit together: for a challenge in force with budget
-- left, the counter that the search returns is accepted, and the challenge is gone afterwards.
pub verify-solve_from :
    (env : Env) (now : ℕ) (c : Challenge) (f : ChallengesFile) (g : Option Text) (l : Text)
    (d n : ℕ)
    → find? (matches c.ip (str c.id)) (active_challenges env now (array_or_empty f)) ≡ some c
    → c.attempts < c.max_attempts
    → solve_from (λ k. env.sha256 (proof_input c k)) c.difficulty (suc max_verify_counter) 0
      ≡ some n
    → (g' : Option Text) × (l' : Text) × (verify env now c.ip
          (str c.id)
          (num (pos n))
          (calm f g l d)
        ≡ (
          ok (record { verified = true; attempts_remaining = c.max_attempts - c.attempts }),
          calm
              (entries
                (filter (λ e. not (id_is c.id e)) (active_challenges env now (array_or_empty f))))
              g'
              l'
              d,
        ))
unfolding verify verify_found settle control
verify-solve_from env now c f g l d n found budget solved =
    let (f', g', l', purged) = purge_expired_unsafe-calm env now f g l d in
    let cs : List Challenge = active_challenges env now (array_or_empty f) in
    let (g'', l'', committed) =
      commit_state-calm env now cs (filter (λ e. not (id_is c.id e)) cs) f' g' l' d in
    let (hard, _, small) =
      solve_from_sound (λ k. env.sha256 (proof_input c k)) c.difficulty (suc max_verify_counter) 0
        {n = n} solved in
    let counted = normalize_counter-pos n (ground arith) in
    let left : leb c.max_attempts c.attempts ≡ false = ground arith in
    let good = le→passes env c n hard in
    (g'', l'', rw purged (rw found (rw counted (rw left (rw good (rw committed))))))
