-- ===== src/Challenge/Invariant.antt =====
-- The challenge state of backend/internal/security_challenge.js: an invariant of its file.
use hyrovi_proxy_manager.Prelude.{
  ℕ, ◌≤◌, ◌<◌, ◌≡◌, Bool, true, false, List, [], ◌∷◌, ◌++◌, arith, length, filter, All, All-append,
  All-filter, Bool-cases, length-append, length-filter-le, inl, inr,
}
use hyrovi_proxy_manager.Js.Text.{Text, text_eq, text_eq_sym}
use hyrovi_proxy_manager.Errors.{Error}
use hyrovi_proxy_manager.Hoare.{
  Ensures, Any, Ensures-bind, Ensures-catch, Ensures-pure, Ensures-throw, Ensures-branch,
}
use hyrovi_proxy_manager.Challenge.{
  Challenge, World, Env, array_or_empty, max_challenges, attempt, read_challenges_unsafe, read_geo,
  write_geo, write_challenges, reload, restore_geo, replace_geo, apply_geo, commit_state,
  purge_expired_unsafe, active_challenges,
}

-- No entry of the list has this address.
abbrev pub IsNew : Text → List Challenge → Type 0
IsNew ip = All (λ c. text_eq c.ip ip ≡ false)

abbrev pub DistinctIps : List Challenge → Type 0
DistinctIps [] = Unit
DistinctIps (c ∷ cs) = IsNew c.ip cs × DistinctIps cs

-- At most one challenge to an address, each address valid, and a bounded list.
pub record IsSound (env : Env) (cs : List Challenge) : Type 0 where
  pub distinct : DistinctIps cs
  pub valid : All (λ c. env.is_ip c.ip ≡ true) cs
  pub few : length cs ≤ max_challenges

abbrev pub FileIsSound : Env → World → Type 0
FileIsSound env w = IsSound env (array_or_empty w.file)

DistinctIps-filter :
    (p : Challenge → Bool) (cs : List Challenge) → DistinctIps cs → DistinctIps (filter p cs)
DistinctIps-filter p [] h = tt
DistinctIps-filter p (c ∷ cs) (new, h) = elim (Bool-cases (p c)) [
  | inl e ↦ rw e (All-filter _ p cs new, DistinctIps-filter p cs h)
  | inr e ↦ rw e (DistinctIps-filter p cs h)
]

module _ (env : Env) where
  pub filter-IsSound :
      (p : Challenge → Bool) (cs : List Challenge) → IsSound env cs → IsSound env (filter p cs)
  filter-IsSound p cs h = record {
    distinct = DistinctIps-filter p cs h.distinct;
    valid = All-filter _ p cs h.valid;
    few = omega (arith, length-filter-le p cs, h.few);
  }

  DistinctIps-concat :
      (cs : List Challenge) (c : Challenge)
      → DistinctIps cs
      → IsNew c.ip cs
      → DistinctIps (cs ++ c ∷ [])
  DistinctIps-concat [] c h k = (tt, tt)
  DistinctIps-concat (d ∷ cs) c (new, h) (ne, k) =
      (All-append _ cs (c ∷ []) new (text_eq_sym d.ip c.ip ne, tt), DistinctIps-concat cs c h k)

  pub concat-IsSound :
      (cs : List Challenge) (c : Challenge)
      → IsSound env cs
      → IsNew c.ip cs
      → env.is_ip c.ip ≡ true
      → length cs < max_challenges
      → IsSound env (cs ++ c ∷ [])
  concat-IsSound cs c h new fits room = record {
    distinct = DistinctIps-concat cs c h.distinct new;
    valid = All-append _ cs (c ∷ []) h.valid (fits, tt);
    few = omega (arith, length-append {0} cs (c ∷ []), room);
  }

  -- The calls that leave the state file alone.
  attempt-Ensures :
      (label : Text) → Ensures (FileIsSound env) (Any (FileIsSound env)) (attempt label)
  unfolding attempt
  attempt-Ensures label = record { run = λ w i. ground (arith, i) }

  read_challenges-Ensures : Ensures (FileIsSound env) (IsSound env) read_challenges_unsafe
  unfolding read_challenges_unsafe
  read_challenges-Ensures = record { run = λ w i. ground (arith, i) }

  pub write_challenges-Ensures :
      (cs : List Challenge)
      → IsSound env cs
      → Ensures (FileIsSound env) (Any (FileIsSound env)) (write_challenges cs)
  unfolding write_challenges array_or_empty
  write_challenges-Ensures cs h =
      Ensures-bind _ (attempt-Ensures _) (λ _ _. record { run = λ w i. (tt, h) })

  read_geo-Ensures : Ensures (FileIsSound env) (Any (FileIsSound env)) read_geo
  unfolding read_geo
  read_geo-Ensures = record { run = λ w i. ground (arith, i) }

  write_geo-Ensures : (t : Text) → Ensures (FileIsSound env) (Any (FileIsSound env)) (write_geo t)
  unfolding write_geo
  write_geo-Ensures t = record { run = λ w i. ground (arith, i) }

  reload-Ensures : Ensures (FileIsSound env) (Any (FileIsSound env)) reload
  unfolding reload
  reload-Ensures = record { run = λ w i. ground (arith, i) }

  restore_geo-Ensures :
      (previous : Text) (e : Error)
      → Ensures (FileIsSound env) (Any (FileIsSound env)) (restore_geo previous e)
  unfolding restore_geo
  restore_geo-Ensures previous e = Ensures-bind _ (write_geo-Ensures previous) (λ _ _.
      Ensures-bind _ (Ensures-catch _ reload-Ensures (λ _. Ensures-pure _ tt tt))
        (λ _ _. Ensures-throw _ e))

  replace_geo-Ensures :
      (previous next : Text)
      → Ensures (FileIsSound env) (Any (FileIsSound env)) (replace_geo previous next)
  unfolding replace_geo
  replace_geo-Ensures previous next = Ensures-bind _ (write_geo-Ensures next) (λ _ _.
      Ensures-bind _ (Ensures-catch _ reload-Ensures (restore_geo-Ensures previous))
        (λ _ _. Ensures-pure _ true tt))

  module _ (now : ℕ) where
    apply_geo-Ensures :
        (cs : List Challenge)
        → Ensures (FileIsSound env) (Any (FileIsSound env)) (apply_geo env now cs)
    unfolding apply_geo
    apply_geo-Ensures cs = Ensures-bind _ read_geo-Ensures (λ previous _.
        Ensures-branch _ _ (λ _. Ensures-pure _ false tt) (λ _. replace_geo-Ensures previous _))

    pub commit_state-Ensures :
        (previous next : List Challenge)
        → IsSound env next
        → Ensures (FileIsSound env) (Any (FileIsSound env)) (commit_state env now previous next)
    unfolding commit_state
    commit_state-Ensures previous next h = Ensures-bind _ (apply_geo-Ensures next) (λ _ _.
        Ensures-catch _ (write_challenges-Ensures next h) (λ e.
          Ensures-bind _
            (Ensures-catch _ (apply_geo-Ensures previous) (λ _. Ensures-pure _ false tt))
            (λ _ _. Ensures-throw _ e)))

    active_challenges-IsSound :
        (cs : List Challenge) → IsSound env cs → IsSound env (active_challenges env now cs)
    unfolding active_challenges
    active_challenges-IsSound cs h = filter-IsSound _ cs h

    pub purge-Ensures : Ensures (FileIsSound env) (IsSound env) (purge_expired_unsafe env now)
    unfolding purge_expired_unsafe
    purge-Ensures = Ensures-bind _ read_challenges-Ensures (λ cs h.
        let active = active_challenges-IsSound cs h in
        Ensures-branch _ _
          (λ _. Ensures-bind _ (apply_geo-Ensures _) (λ _ _. Ensures-pure _ _ active))
          (λ _. Ensures-bind _ (commit_state-Ensures cs _ active) (λ _ _. Ensures-pure _ _ active)))
