-- ===== src/Challenge/Commit.antt =====
-- The commit of the challenge state of backend/internal/security_challenge.js: the geo file, the
-- configuration that Nginx runs and the state file.
use hyrovi_proxy_manager.Prelude.{
  ℕ, ap, ◌≡◌, refl, Bool, true, false, some, List, [], ◌∷◌, arith, inl, inr, Bool-cases, ◌≤◌, suc,
}
use hyrovi_proxy_manager.Js.Text.{Text, text_eq, text_eq_iff, codes}
use hyrovi_proxy_manager.Errors.{
  Error, io_error, Result, ok, err, bind_at, catch_at, control, pure, throw,
}
use hyrovi_proxy_manager.Challenge.{
  Challenge, World, Env, ChallengesFile, entries, render_geo, apply_geo, replace_geo, commit_state,
  read_geo, restore_geo,
}

-- The number of outside calls that fail.
abbrev pub failures : List Bool → ℕ
failures [] = 0
failures (true ∷ bs) = suc (failures bs)
failures (false ∷ bs) = failures bs

-- The geo file and Nginx stand at the text rendered for `cs`, and the state file holds `cs`.
pub record Shows (env : Env) (now : ℕ) (cs : List Challenge) (w : World) : Type 0 where
  pub file : w.file ≡ entries cs
  pub geo : w.geo ≡ some (render_geo env now cs)
  pub loaded : w.loaded ≡ render_geo env now cs

-- The world with both Nginx texts at `r`.
abbrev pub at_text : ChallengesFile → Text → List Bool → ℕ → World
at_text f r faults draws = record {
  file = f;
  geo = some r;
  loaded = r;
  faults = faults;
  draws = draws;
}

-- Both texts moved from `r` to `t`, and no call failed; or they are where they were, and one did.
abbrev pub Moved : ChallengesFile → Text → Text → List Bool → ℕ → Result Bool × World → Type 0
Moved f r t faults draws (ok _, w) =
    (rest : List Bool) × (w ≡ at_text f t rest draws) × (failures rest ≡ failures faults)
Moved f r t faults draws (err _, w) =
    (rest : List Bool) × (w ≡ at_text f r rest draws) × (suc (failures rest) ≡ failures faults)

restored :
    (e : Error) (f : ChallengesFile) (r t : Text) (faults : List Bool) (draws : ℕ)
    → failures faults ≡ 0
    → (rest : List Bool) × (e' : Error) × (restore_geo r e
          (record { file = f; geo = some t; loaded = r; faults = faults; draws = draws })
        ≡ (err e', at_text f r rest draws))
      × (failures rest ≡ 0)
unfolding restore_geo
restored e f r t [] draws h = ([], e, refl, refl)
restored e f r t (true ∷ fs) draws h = absurd (omega arith)
restored e f r t (false ∷ []) draws h = ([], e, refl, refl)
restored e f r t (false ∷ true ∷ fs) draws h = absurd (omega arith)
restored e f r t (false ∷ false ∷ fs) draws h = (fs, e, refl, omega arith)

replace_geo-Moved :
    (f : ChallengesFile) (r t : Text) (faults : List Bool) (draws : ℕ)
    → failures faults ≤ 1
    → Moved f r t faults draws (replace_geo r t (at_text f r faults draws))
unfolding replace_geo
replace_geo-Moved f r t [] draws h = ([], refl, refl)
replace_geo-Moved f r t (true ∷ fs) draws h = (fs, refl, refl)
replace_geo-Moved f r t (false ∷ []) draws h = ([], refl, refl)
replace_geo-Moved f r t (false ∷ true ∷ fs) draws h =
    let (rest, e', back, calm) =
      restored (io_error (codes "nginx -s reload")) f r t fs draws (omega arith) in
    rw back (rest, refl, omega arith)
replace_geo-Moved f r t (false ∷ false ∷ fs) draws h = (fs, refl, refl)

module _ (env : Env) (now : ℕ) where
  -- A fault-free prefix stays fault-free, and the texts move or stay together.
  apply_geo-Moved :
      (cs : List Challenge) (f : ChallengesFile) (r : Text) (faults : List Bool) (draws : ℕ)
      → failures faults ≤ 1
      → Moved f r
          (render_geo env now cs)
          faults
          draws
          (apply_geo env now cs (at_text f r faults draws))
  unfolding apply_geo text_eq read_geo control
  apply_geo-Moved cs f r [] draws h = elim (Bool-cases (text_eq r (render_geo env now cs))) [
    | inl same ↦ rw same ([], ap (λ t. at_text f t [] draws) ((text_eq_iff _ _).0 same), refl)
    | inr other ↦ rw other (replace_geo-Moved f r _ [] draws h)
  ]
  apply_geo-Moved cs f r (true ∷ fs) draws h = (fs, refl, refl)
  apply_geo-Moved cs f r (false ∷ fs) draws h =
      elim (Bool-cases (text_eq r (render_geo env now cs))) [
        | inl same ↦ rw same (fs, ap (λ t. at_text f t fs draws) ((text_eq_iff _ _).0 same), refl)
        | inr other ↦ rw other (replace_geo-Moved f r _ fs draws h)
      ]

-- After a commit of `next` over `previous`: the new state whole, or the old one whole.
abbrev pub AllOrNothing :
    Env → ℕ → List Challenge → List Challenge → Result (Unit {0}) × World → Type 0
AllOrNothing env now previous next (ok _, w) = Shows env now next w
AllOrNothing env now previous next (err _, w) = Shows env now previous w

module _ (env : Env) (now : ℕ) (previous next : List Challenge) where
  -- The rollback after a failed write of the state file.
  rolled_back :
      (e : Error) (faults : List Bool) (draws : ℕ) (x : Result Bool × World)
      → failures faults ≡ 0
      → Moved
          (entries previous)
          (render_geo env now next)
          (render_geo env now previous)
          faults
          draws
          x
      → AllOrNothing env now previous next
          (bind_at (catch_at x (λ _. pure false)) (λ _. throw {A = Unit {0}} e))
  rolled_back e faults draws (ok b, w) calm (rest, same, _) =
      rw same (record { file = refl; geo = refl; loaded = refl })
  rolled_back e faults draws (err b, w) calm (rest, _, fewer) = absurd (omega arith)

  after_geo :
      (faults : List Bool) (draws : ℕ) (x : Result Bool × World)
      → failures faults ≤ 1
      → Moved
          (entries previous)
          (render_geo env now previous)
          (render_geo env now next)
          faults
          draws
          x
      → apply_geo env now next
          (at_text (entries previous) (render_geo env now previous) faults draws)
        ≡ x
      → AllOrNothing env now previous next (
          commit_state env now previous next
            (at_text (entries previous) (render_geo env now previous) faults draws))
  unfolding commit_state
  after_geo faults draws (err e, w) few (rest, same, fewer) q =
      rw q (rw same (record { file = refl; geo = refl; loaded = refl }))
  after_geo faults draws (ok b, w) few ([], same, fewer) q =
      rw q (rw same (record { file = refl; geo = refl; loaded = refl }))
  after_geo faults draws (ok b, w) few (false ∷ rest, same, fewer) q =
      rw q (rw same (record { file = refl; geo = refl; loaded = refl }))
  after_geo faults draws (ok b, w) few (true ∷ rest, same, fewer) q = rw q (
      rw same (
        rolled_back (io_error (codes "write challenges.json")) rest draws _ (omega arith) (
          apply_geo-Moved env now previous (entries previous) (render_geo env now next) rest draws
            (omega arith))))

-- If at most one outside call of a commit fails, the state file, the geo file and the running Nginx
-- all show the new state, and the commit returns, or all show the old one, and it throws.
pub commit_state-AllOrNothing :
    (env : Env) (now : ℕ) (previous next : List Challenge) (w : World)
    → Shows env now previous w
    → failures w.faults ≤ 1
    → AllOrNothing env now previous next (commit_state env now previous next w)
unfolding commit_state
commit_state-AllOrNothing env now previous next w shown few =
    let start : w ≡ at_text (entries previous) (render_geo env now previous) w.faults w.draws =
      ground arith in
    rw start (
      after_geo env now previous next w.faults w.draws _ few
        (apply_geo-Moved env now next (entries previous) (render_geo env now previous) w.faults
          w.draws few)
        refl)
