-- ===== src/Challenge/Operations/Proven.antt =====
-- `verify` of backend/internal/security_challenge.js: what an accepted proof shows.
use hyrovi_proxy_manager.Prelude.{
  ℕ, refl, ap, subst, ◌∷◌, ◌-◌, ◌≤◌, ◌<◌, ◌≡◌, Bool, true, false, not, Option, some, List, [],
  arith, filter, map, find?, find?-eq-some_holds, &&-true, length, ◌==◌,
}
use hyrovi_proxy_manager.Js.Text.{Text, codes, text_eq, text_eq_iff}
use hyrovi_proxy_manager.Js.Value.{Value}
use hyrovi_proxy_manager.Errors.{
  Result, ok, err, M, throw, throw_if, branch, on_option, item_not_found_error,
}
use hyrovi_proxy_manager.Hoare.{
  Ensures, Any, Outcome, Ensures-bind, Ensures-pure, Ensures-throw, Ensures-throw_if, Ensures-lift,
  Ensures-branch, Ensures-option, Ensures-weaken, Returned, Yields, bind-Returned, Yields-skip,
  Ensures-Returned, Returned-ok,
}
use hyrovi_proxy_manager.Challenge.Proof.{leading_zero_bits}
use hyrovi_proxy_manager.Challenge.{
  Challenge, World, Env, ChallengesFile, attempt, array_or_empty, active_challenges, apply_geo,
  commit_state, purge_expired_unsafe, max_verify_counter, write_challenges, read_challenges_unsafe,
}
use hyrovi_proxy_manager.Challenge.Operations.{
  Verification, verify, verify_found, settle, passes, proof_input, count_attempt, normalize_counter,
  is_text, id_is,
}
use hyrovi_proxy_manager.Challenge.Operations.Verify.{matches}

-- The challenge that a request names: the first in force, of the address and with the identifier.
abbrev pub named_challenge : Env → ℕ → Text → Value → ChallengesFile → Option Challenge
named_challenge env now ip id file =
    find? (matches ip id) (active_challenges env now (array_or_empty file))

-- A request proves its work: it names a challenge on file that is in force, of its own address and
-- with budget left, and a counter in range whose digest has the zero bits that the challenge asks for.
pub record ProvesWork (env : Env) (now : ℕ) (ip : Text) (id counter : Value) (file : ChallengesFile)
    : Type 0 where
  pub challenge : Challenge
  pub number : ℕ
  pub on_file : named_challenge env now ip id file ≡ some challenge
  pub address : challenge.ip ≡ ip
  pub named : is_text id challenge.id ≡ true
  pub counter_is : normalize_counter counter ≡ ok number
  pub in_range : number ≤ max_verify_counter
  pub budget : challenge.attempts < challenge.max_attempts
  pub work : challenge.difficulty ≤ leading_zero_bits (env.sha256 (proof_input challenge number))

normalize_counter-le : (v : Value) {n : ℕ} → normalize_counter v ≡ ok n → n ≤ max_verify_counter
unfolding normalize_counter
normalize_counter-le v h = ground arith

Anywhere : World → Type 0
Anywhere w = Unit {0}

anything : {A : Type 0} (m : M World A) → Ensures Anywhere (Any Anywhere) m
unfolding Anywhere
anything m = record { run = λ w _. trivial (m w) }
  where
    trivial : {A : Type 0} (x : Result A × World) → Outcome Anywhere (Any Anywhere) x
    trivial (ok a, w) = (tt, tt)
    trivial (err e, w) = tt

matches→both :
    (ip : Text) (id : Value) (c : Challenge)
    → matches ip id c ≡ true
    → (text_eq c.ip ip ≡ true) × (is_text id c.id ≡ true)
matches→both ip id c h = &&-true (text_eq c.ip ip) (is_text id c.id) h

passes→le :
    (env : Env) (c : Challenge) (n : ℕ)
    → passes env c n ≡ true
    → c.difficulty ≤ leading_zero_bits (env.sha256 (proof_input c n))
unfolding passes
passes→le env c n h = ground arith

read_challenges-Returned :
    (w : World) → Returned (λ cs _. cs ≡ array_or_empty w.file) (read_challenges_unsafe w)
unfolding read_challenges_unsafe attempt throw_if
read_challenges-Returned w = go w w.faults
  where
    go :
        (w : World) (l : List Bool)
        → Returned
            (λ cs _. cs ≡ array_or_empty w.file)
            (read_challenges_unsafe (record w { faults = l }))
    go w [] = refl
    go w (true ∷ bs) = tt
    go w (false ∷ bs) = refl

branch-Yields :
    {A : Type 0} {R : A → World → Type 0} {m n : M World A} (b : Bool)
    → Yields R m
    → Yields R n
    → Yields R (branch b m n)
unfolding branch
branch-Yields true h k = h
branch-Yields false h k = k

module _ (env : Env) (now : ℕ) where
  settle-Ensures :
      (cs : List Challenge) (c : Challenge) (n : ℕ)
      → Ensures Anywhere (λ v. v.verified ≡ true → passes env c n ≡ true) (settle env now cs c n)
  unfolding settle
  settle-Ensures cs c n =
      Ensures-branch _ _
        (λ e.
          Ensures-bind _ (anything (commit_state env now cs (filter (λ d. not (id_is c.id d)) cs)))
            (λ _ _. Ensures-pure _ _ (λ _. e)))
        (λ _. Ensures-bind _ (anything (write_challenges (map (count_attempt c.id) cs))) (λ _ _.
          Ensures-pure _
            (record { verified = false; attempts_remaining = c.max_attempts - c.attempts - 1 })
            (λ h. cc)))

  -- What the purge returns are the challenges in force of the file as it was.
  purge_expired_unsafe-Returned :
      (w : World)
      → Returned
          (λ cs _. cs ≡ active_challenges env now (array_or_empty w.file))
          (purge_expired_unsafe env now w)
  unfolding purge_expired_unsafe
  purge_expired_unsafe-Returned w =
      bind-Returned _ _ _ (read_challenges_unsafe w) (read_challenges-Returned w) (λ cs v e.
        let active = active_challenges env now cs in
        let same : active ≡ active_challenges env now (array_or_empty w.file) =
          ap (active_challenges env now) e in
        (branch-Yields (length active == length cs)
            (Yields-skip (apply_geo env now active) (λ _. record { run = λ _. same }))
            (Yields-skip (commit_state env now cs active) (λ _. record { run = λ _. same }))).run
          v)

  verify_found-Ensures :
      (ip : Text) (id counter : Value) (file : ChallengesFile) (cs : List Challenge)
      → cs ≡ active_challenges env now (array_or_empty file)
      → Ensures Anywhere
          (λ v. v.verified ≡ true → ProvesWork env now ip id counter file)
          (on_option
            (find? (matches ip id) cs)
            (throw (item_not_found_error (some (codes "challenge"))))
            (λ c. verify_found env now cs c counter))
  unfolding verify_found
  verify_found-Ensures ip id counter file cs same =
      Ensures-option _ _ (λ _. Ensures-throw _ _)
        (λ c found. Ensures-bind _ (Ensures-lift _ _) (λ n is_n.
          Ensures-bind _ (Ensures-throw_if _ _ _) (λ _ open_budget.
            Ensures-weaken _ (settle-Ensures cs c n) (λ v s h. record {
              challenge = c;
              number = n;
              on_file = subst (λ l. find? (matches ip id) l ≡ some c) same found;
              address =
                  (text_eq_iff c.ip ip).0
                    (matches→both ip id c (find?-eq-some_holds (matches ip id) cs found)).0;
              named = (matches→both ip id c (find?-eq-some_holds (matches ip id) cs found)).1;
              counter_is = is_n;
              in_range = normalize_counter-le counter is_n;
              budget = ground arith;
              work = passes→le env c n (s h);
            }))))

-- When a verification answers `verified`, then the challenge that it names, the first of the address
-- and the identifier that is on file and in force, had an attempt left, and the counter is in range and
-- gives a digest with as many leading zero bits as the difficulty of that challenge on file.
pub verify-ProvesWork :
    (env : Env) (now : ℕ) (ip : Text) (id counter : Value) (w : World) {v : Verification}
    {w' : World}
    → verify env now ip id counter w ≡ (ok v, w')
    → v.verified ≡ true
    → ProvesWork env now ip id counter w.file
unfolding verify Anywhere
verify-ProvesWork env now ip id counter w {v} {w'} h =
    (Returned-ok (λ v w'. (v.verified ≡ true → ProvesWork env now ip id counter w.file) × Unit {0})
      (verify env now ip id counter w)
      (bind-Returned _ _ _ (purge_expired_unsafe env now w)
        (purge_expired_unsafe-Returned env now w)
        (λ cs u same.
          Ensures-Returned Anywhere _ _ u
            (verify_found-Ensures env now ip id counter w.file cs same) tt))
      h).0
