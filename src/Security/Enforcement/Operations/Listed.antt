-- ===== src/Security/Enforcement/Operations/Listed.antt =====
-- A block or a rate limit that was added is on file.
use hyrovi_proxy_manager.Prelude.{
  ℕ, ◌==◌, ◌≤◌, ◌≡◌, refl, sym, ap, ◌∙◌, subst, Bool, true, false, Option, none, some, List, [],
  ◌∷◌, ◌++◌, filter, find?, find?-All, length, arith, All, Bool-cases, Option-cases, inl, inr,
  length-filter-le,
}
use hyrovi_proxy_manager.Prelude.Int.{clamp_bounds}
use hyrovi_proxy_manager.Js.Text.{Text, text_eq, text_eq_refl}
use hyrovi_proxy_manager.Js.Value.{Value, parse_int}
use hyrovi_proxy_manager.Errors.{
  Error, Result, ok, err, M, pure, catch, catch_at, branch, on_option, lift, control,
}
use hyrovi_proxy_manager.Hoare.{
  Yields, Returned, Yields-bind, Yields-skip, bind-Returned, Returned-ok,
}
use hyrovi_proxy_manager.Security.Targets.{normalize_trusted_source}
use hyrovi_proxy_manager.Security.Policy.{int_or}
use hyrovi_proxy_manager.Security.Responses.{
  Restriction, create_block_record, create_rate_limit_record,
}
use hyrovi_proxy_manager.Security.Enforcement.{
  Kind, blocks, rate_limits, RowsFile, rows, World, Env, attempt, rows_of, read_rows, write_rows,
  record_action, record_actions, active_blocks, is_active, apply_config, commit_rows, purge_rows,
  purge_expired,
}
use hyrovi_proxy_manager.Security.Enforcement.Operations.{
  default_minutes, minutes_of, new_row, draw_row, put_row, add_target, add_restriction,
}

module _ {S : Type 0} where
  catch-Returned :
      {A : Type 0} (R : A → S → Type 0) (g : Error → M S A) (x : Result A × S)
      → Returned R x
      → ((e : Error) → Yields R (g e))
      → Returned R (catch_at x g)
  catch-Returned R g (ok a, s) h k = h
  catch-Returned R g (err e, s) h k = (k e).run s

  Yields-catch :
      {A : Type 0} {R : A → S → Type 0} {m : M S A} {g : Error → M S A}
      → Yields R m
      → ((e : Error) → Yields R (g e))
      → Yields R (catch m g)
  Yields-catch {R} {m} {g} h k = record { run = λ s. catch-Returned R g (m s) (h.run s) k }

abbrev HasFile : {A : Type 0} → RowsFile → A → World → Type 0
HasFile f a w = w.file ≡ f

-- The action log leaves the file alone.
record_action_keeps :
    (a : Text) (r : Restriction) (w : World) → Returned (HasFile w.file) (record_action a r w)
unfolding record_action attempt control
record_action_keeps a r w = go w.file w.conf w.loaded w.log w.faults w.drawn
  where
    go :
        (f : RowsFile) (c : Option Text) (t : Text) (g : List (Text × Restriction)) (bs : List Bool)
        (n : ℕ)
        → Returned (HasFile f) (
            record_action a r
              (record { file = f; conf = c; loaded = t; log = g; faults = bs; drawn = n }))
    go f c t g [] n = refl
    go f c t g (true ∷ bs) n = refl
    go f c t g (false ∷ bs) n = refl

record_actions_keeps :
    (a : Text) (l : List Restriction) (w : World) → Returned (HasFile w.file) (record_actions a l w)
unfolding record_actions
record_actions_keeps a [] w = refl
record_actions_keeps a (r ∷ l) w =
    bind-Returned (HasFile w.file) (HasFile w.file) _ (record_action a r w)
      (record_action_keeps a r w)
      (λ _ w1 e.
        subst (λ f. Returned (HasFile f) (record_actions a l w1)) e (record_actions_keeps a l w1))

write_rows-Yields : (l : List Restriction) → Yields (HasFile (rows l)) (write_rows l)
unfolding write_rows
write_rows-Yields l = Yields-skip (attempt _) (λ _. record { run = λ w. refl })

-- As many active rows as rows: all are active.
filter_all :
    (p : Restriction → Bool) (l : List Restriction)
    → (length (filter p l) == length l) ≡ true
    → filter p l ≡ l
filter_all p [] h = refl
filter_all p (r ∷ l) h = elim (Bool-cases (p r)) [
  | inl e ↦ rw e (ap (λ x. r ∷ x) (filter_all p l (ground (arith, h, e))))
  | inr e ↦ ground (arith, h, e, length-filter-le p l)
]

filter_holds : (p : Restriction → Bool) (l : List Restriction) → All (λ r. p r ≡ true) (filter p l)
filter_holds p [] = tt
filter_holds p (r ∷ l) = elim (Bool-cases (p r)) [
  | inl e ↦ rw e (e, filter_holds p l)
  | inr e ↦ rw e (filter_holds p l)
]

find?-none_append :
    (t : Text) (l : List Restriction) (r : Restriction)
    → find? (λ x. text_eq x.ip t) l ≡ none
    → text_eq r.ip t ≡ true
    → find? (λ x. text_eq x.ip t) (l ++ (r ∷ [])) ≡ some r
find?-none_append t [] r h e = rw e refl
find?-none_append t (x ∷ l) r h e = elim (Bool-cases (text_eq x.ip t)) [
  | inl f ↦ let found = simp f at h in cc
  | inr f ↦ rw f (find?-none_append t l r (simp f at h) e)
]

new_row_ip :
    (env : Env) (kind : Kind) (now : ℕ) (target : Text) (duration : Value) (reason source : Text)
    (w : World)
    → (new_row env kind now target duration reason source w).ip ≡ target
unfolding new_row create_block_record create_rate_limit_record
new_row_ip env blocks now target duration reason source w = refl
new_row_ip env rate_limits now target duration reason source w = refl

minutes_of_positive :
    (env : Env) (kind : Kind) (now : ℕ) (v : Value) → 1 ≤ minutes_of env kind now v
unfolding minutes_of
minutes_of_positive env kind now v =
    (clamp_bounds (int_or (parse_int v) (default_minutes kind)) 1 43_200 (omega arith)).0

-- A row runs for at least a minute.
new_row_active :
    (env : Env) (kind : Kind) (now : ℕ) (target : Text) (duration : Value) (reason source : Text)
    (w : World)
    → is_active now (new_row env kind now target duration reason source w) ≡ true
unfolding new_row create_block_record create_rate_limit_record
new_row_active env blocks now target duration reason source w =
    ground (arith, minutes_of_positive env blocks now duration)
new_row_active env rate_limits now target duration reason source w =
    ground (arith, minutes_of_positive env rate_limits now duration)

module _ (env : Env) (kind : Kind) (now : ℕ) where
  commit_rows-Yields :
      (previous next : List Restriction)
      → Yields (HasFile (rows next)) (commit_rows env kind now previous next)
  unfolding commit_rows
  commit_rows-Yields previous next = Yields-skip (apply_config env kind now next) (λ _.
      Yields-catch (write_rows-Yields next) (λ e.
        Yields-skip (catch (apply_config env kind now previous) (λ _. pure false))
          (λ _. record { run = λ w. tt })))

  -- What the purge returns is on file, and in force.
  abbrev Purged : List Restriction → World → Type 0
  Purged l w = (rows_of w.file ≡ ok l) × All (λ r. is_active now r ≡ true) l

  purge_rows-Yields : (l : List Restriction) → Yields Purged (purge_rows env kind now l)
  unfolding purge_rows active_blocks rows_of
  purge_rows-Yields l = Yields-bind _ (commit_rows-Yields l _) (λ _ w e.
      bind-Returned (HasFile w.file) Purged _ _ (record_actions_keeps _ _ w)
        (λ _ v same. (ap (λ f. rows_of f) (same ∙ e), filter_holds (is_active now) l)))

  purge_expired-Yields : Yields Purged (purge_expired env kind now)
  unfolding purge_expired read_rows active_blocks branch lift
  purge_expired-Yields = Yields-bind _ read (λ l w e.
      elim (Bool-cases (length (filter (is_active now) l) == length l)) [
        | inl f ↦ simp f (
          e ∙ ap (λ x. ok x) (sym (filter_all (is_active now) l f)),
          filter_holds (is_active now) l,
        )
        | inr f ↦ simp f ((purge_rows-Yields l).run w)
      ])
    where
      lifted :
          (x : Result (List Restriction)) (w : World)
          → rows_of w.file ≡ x
          → Returned (λ l v. rows_of v.file ≡ ok l) (x, w)
      lifted (ok l) w e = e
      lifted (err e) w h = tt

      read : Yields (λ l w. rows_of w.file ≡ ok l) read_rows
      read = Yields-skip (attempt _) (λ _. record { run = λ w. lifted (rows_of w.file) w refl })

  -- The row that an operation returns: on file for its target, and in force.
  abbrev pub OnFile : Text → Restriction → World → Type 0
  OnFile target r w =
      (l : List Restriction) × (rows_of w.file ≡ ok l)
      × (find? (λ x. text_eq x.ip target) l ≡ some r)
      × (is_active now r ≡ true)

  put_row-Yields :
      (target : Text) (l : List Restriction) (r : Restriction)
      → find? (λ x. text_eq x.ip target) l ≡ none
      → r.ip ≡ target
      → is_active now r ≡ true
      → Yields (OnFile target) (put_row env kind now l r)
  unfolding put_row rows_of
  put_row-Yields target l r n same live =
      Yields-bind _ (commit_rows-Yields l (l ++ (r ∷ []))) (λ _ w e.
        bind-Returned (HasFile w.file) (OnFile target) _ _ (record_action_keeps _ r w) (λ _ v kept.
          let here : text_eq r.ip target ≡ true =
            ap (λ t. text_eq t target) same ∙ text_eq_refl target in
          (
            l ++ (r ∷ []),
            ap (λ f. rows_of f) (kept ∙ e),
            find?-none_append target l r n here,
            live,
          )))

  add_target-Yields :
      (duration : Value) (reason source target : Text)
      → Yields (OnFile target) (add_target env kind now duration reason source target)
  unfolding add_target on_option draw_row
  add_target-Yields duration reason source target = Yields-bind _ purge_expired-Yields (λ l w h.
      elim (Option-cases (find? (λ r. text_eq r.ip target) l)) [
        | inl n ↦ simp n (
            (put_row-Yields target l (new_row env kind now target duration reason source w) n
                (new_row_ip env kind now target duration reason source w)
                (new_row_active env kind now target duration reason source w)).run
              _)
        | inr (r, f) ↦ simp f (l, h.0, f, find?-All _ _ l h.1 f)
      ])

  -- When a block or a rate limit is added and the call returns, the target is a valid address or network,
  -- and the row that is returned is in force and is the one on file for the target.
  pub add_restriction-OnFile :
      (ip duration : Value) (reason source : Text) (w w1 : World) (r : Restriction)
      → add_restriction env kind now ip duration reason source w ≡ (ok r, w1)
      → (target : Text) × (normalize_trusted_source env.net ip ≡ some target) × OnFile target r w1
  unfolding add_restriction on_option
  add_restriction-OnFile ip duration reason source w w1 r h =
      elim (Option-cases (normalize_trusted_source env.net ip)) [
        | inl n ↦ let thrown = simp n at h in cc
        | inr (target, f) ↦ (
          target,
          f,
          Returned-ok (OnFile target) _ ((add_target-Yields duration reason source target).run w)
              (simp f at h),
        )
      ]
