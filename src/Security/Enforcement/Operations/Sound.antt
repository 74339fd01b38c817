-- ===== src/Security/Enforcement/Operations/Sound.antt =====
-- At most one row to an address or network, in each of the two files.
use hyrovi_proxy_manager.Prelude.{
  ℕ, ◌≡◌, refl, Bool, true, false, Option, none, List, [], ◌∷◌, ◌++◌, map, filter, find?, arith,
  Bool-cases, inl, inr,
}
use hyrovi_proxy_manager.Js.Text.{Text, text_eq, mem_text}
use hyrovi_proxy_manager.Js.Texts.{Distinct, append-Distinct, map-append}
use hyrovi_proxy_manager.Js.Value.{Value}
use hyrovi_proxy_manager.Errors.{M}
use hyrovi_proxy_manager.Hoare.{
  Ensures, Any, Outcome, Ensures-bind, Ensures-catch, Ensures-pure, Ensures-throw, Ensures-branch,
  Ensures-option, Outcome-state,
}
use hyrovi_proxy_manager.Security.Responses.{
  Restriction, create_block_record, create_rate_limit_record,
}
use hyrovi_proxy_manager.Security.Enforcement.{
  Kind, blocks, rate_limits, RowsFile, absent, unparsable, not_array, rows, World, Env, attempt,
  rows_of, read_rows, write_rows, read_conf, write_conf, reload, record_action, record_actions,
  active_blocks, is_active, restore_conf, replace_conf, apply_config, commit_rows, purge_rows,
  purge_expired, synchronize,
}
use hyrovi_proxy_manager.Security.Enforcement.Operations.{
  new_row, draw_row, put_row, add_target, add_restriction, remove_restriction, Request, add, remove,
  list, refresh, step, serve,
}

abbrev pub ips : List Restriction → List Text
ips l = map (λ r. r.ip) l

-- No two rows on file have the same address.
abbrev pub OnePerIp : World → Type 0
OnePerIp w = elim w.file [
  | absent ↦ Unit
  | unparsable ↦ Unit
  | not_array ↦ Unit
  | rows l ↦ Distinct (ips l)
]

mem_filter :
    (p : Restriction → Bool) (t : Text) (l : List Restriction)
    → mem_text t (ips l) ≡ false
    → mem_text t (ips (filter p l)) ≡ false
mem_filter p t [] h = refl
mem_filter p t (r ∷ l) h = elim (Bool-cases (p r)) [
  | inl e ↦ rw e (ground (arith, h, mem_filter p t l))
  | inr e ↦ rw e (mem_filter p t l (ground (arith, h)))
]

filter-Distinct :
    (p : Restriction → Bool) (l : List Restriction) → Distinct (ips l) → Distinct (ips (filter p l))
filter-Distinct p [] h = tt
filter-Distinct p (r ∷ l) (n, h) = elim (Bool-cases (p r)) [
  | inl e ↦ rw e (mem_filter p r.ip l n, filter-Distinct p l h)
  | inr e ↦ rw e (filter-Distinct p l h)
]

find?-none_mem :
    (t : Text) (l : List Restriction)
    → find? (λ r. text_eq r.ip t) l ≡ none
    → mem_text t (ips l) ≡ false
find?-none_mem t [] h = refl
find?-none_mem t (r ∷ l) h = elim (Bool-cases (text_eq r.ip t)) [
  | inl e ↦ let found = simp e at h in cc
  | inr e ↦ rw e (find?-none_mem t l (simp e at h))
]

attempt-Ensures : (label : Text) → Ensures OnePerIp (Any OnePerIp) (attempt label)
unfolding attempt
attempt-Ensures label = record { run = λ w i. ground (arith, i) }

read_rows-Ensures : Ensures OnePerIp (λ l. Distinct (ips l)) read_rows
unfolding read_rows rows_of
read_rows-Ensures =
    Ensures-bind _ (attempt-Ensures _)
      (λ _ _. record { run = λ w i. go w.file w.conf w.loaded w.log w.faults w.drawn i })
  where
    go :
        (f : RowsFile) (c : Option Text) (t : Text) (g : List (Text × Restriction)) (bs : List Bool)
        (n : ℕ)
        → OnePerIp (record { file = f; conf = c; loaded = t; log = g; faults = bs; drawn = n })
        → Outcome OnePerIp
            (λ l. Distinct (ips l))
            (rows_of f, record { file = f; conf = c; loaded = t; log = g; faults = bs; drawn = n })
    go absent c t g bs n i = (tt, i)
    go unparsable c t g bs n i = i
    go not_array c t g bs n i = (tt, i)
    go (rows l) c t g bs n i = (i, i)

write_rows-Ensures :
    (l : List Restriction) → Distinct (ips l) → Ensures OnePerIp (Any OnePerIp) (write_rows l)
unfolding write_rows
write_rows-Ensures l h = Ensures-bind _ (attempt-Ensures _) (λ _ _. record { run = λ w i. (tt, h) })

read_conf-Ensures : Ensures OnePerIp (Any OnePerIp) read_conf
unfolding read_conf
read_conf-Ensures = Ensures-bind _ (attempt-Ensures _) (λ _ _. record { run = λ w i. (tt, i) })

write_conf-Ensures : (t : Text) → Ensures OnePerIp (Any OnePerIp) (write_conf t)
unfolding write_conf
write_conf-Ensures t = Ensures-bind _ (attempt-Ensures _) (λ _ _. record { run = λ w i. (tt, i) })

reload-Ensures : Ensures OnePerIp (Any OnePerIp) reload
unfolding reload
reload-Ensures = Ensures-bind _ (attempt-Ensures _) (λ _ _. record { run = λ w i. (tt, i) })

record_action-Ensures :
    (a : Text) (r : Restriction) → Ensures OnePerIp (Any OnePerIp) (record_action a r)
unfolding record_action
record_action-Ensures a r =
    Ensures-catch _ (Ensures-bind _ (attempt-Ensures _) (λ _ _. record { run = λ w i. (tt, i) }))
      (λ _. Ensures-pure _ tt tt)

record_actions-Ensures :
    (a : Text) (l : List Restriction) → Ensures OnePerIp (Any OnePerIp) (record_actions a l)
unfolding record_actions
record_actions-Ensures a [] = Ensures-pure _ tt tt
record_actions-Ensures a (r ∷ l) =
    Ensures-bind _ (record_action-Ensures a r) (λ _ _. record_actions-Ensures a l)

module _ (env : Env) (kind : Kind) (now : ℕ) where
  replace_conf-Ensures :
      (previous next : Text) → Ensures OnePerIp (Any OnePerIp) (replace_conf env kind previous next)
  unfolding replace_conf restore_conf
  replace_conf-Ensures previous next = Ensures-bind _ (write_conf-Ensures next) (λ _ _.
      Ensures-bind _
        (Ensures-catch _ reload-Ensures (λ e. Ensures-bind _ (write_conf-Ensures previous) (λ _ _.
          Ensures-bind _ (Ensures-catch _ reload-Ensures (λ _. Ensures-pure _ tt tt))
            (λ _ _. Ensures-throw _ e))))
        (λ _ _. Ensures-pure _ true tt))

  apply_config-Ensures :
      (l : List Restriction) → Ensures OnePerIp (Any OnePerIp) (apply_config env kind now l)
  unfolding apply_config
  apply_config-Ensures l = Ensures-bind _ (attempt-Ensures _) (λ _ _.
      Ensures-bind _ read_conf-Ensures (λ previous _.
        Ensures-branch _ _ (λ _. Ensures-pure _ false tt) (λ _. replace_conf-Ensures previous _)))

  commit_rows-Ensures :
      (previous next : List Restriction)
      → Distinct (ips next)
      → Ensures OnePerIp (Any OnePerIp) (commit_rows env kind now previous next)
  unfolding commit_rows
  commit_rows-Ensures previous next h = Ensures-bind _ (apply_config-Ensures next) (λ _ _.
      Ensures-catch _ (write_rows-Ensures next h) (λ e.
        Ensures-bind _
          (Ensures-catch _ (apply_config-Ensures previous) (λ _. Ensures-pure _ false tt))
          (λ _ _. Ensures-throw _ e)))

  purge_expired-Ensures : Ensures OnePerIp (λ l. Distinct (ips l)) (purge_expired env kind now)
  unfolding purge_expired purge_rows active_blocks
  purge_expired-Ensures = Ensures-bind _ read_rows-Ensures (λ l h.
      let active = filter-Distinct (is_active now) l h in
      Ensures-branch _ _ (λ _. Ensures-pure _ _ active)
        (λ _.
          Ensures-bind _ (commit_rows-Ensures l _ active)
            (λ _ _. Ensures-bind _ (record_actions-Ensures _ _) (λ _ _. Ensures-pure _ _ active))))

  synchronize-Ensures : Ensures OnePerIp (Any OnePerIp) (synchronize env kind now)
  unfolding synchronize active_blocks
  synchronize-Ensures = Ensures-bind _ read_rows-Ensures (λ l h.
      Ensures-branch _ _ (λ _. Ensures-bind _ (apply_config-Ensures _) (λ _ _. Ensures-pure _ _ tt))
        (λ _.
          Ensures-bind _ (commit_rows-Ensures l _ (filter-Distinct (is_active now) l h))
            (λ _ _. Ensures-pure _ _ tt)))

  put_row-Ensures :
      (l : List Restriction) (r : Restriction)
      → Distinct (ips l)
      → mem_text r.ip (ips l) ≡ false
      → Ensures OnePerIp (Any OnePerIp) (put_row env kind now l r)
  unfolding put_row
  put_row-Ensures l r h new =
      let both : Distinct (ips (l ++ (r ∷ []))) =
        rw (map-append (λ x. x.ip) l r) (append-Distinct r.ip (ips l) new h) in
      Ensures-bind _ (commit_rows-Ensures l _ both)
        (λ _ _. Ensures-bind _ (record_action-Ensures _ r) (λ _ _. Ensures-pure _ r tt))

  draw_row-Ensures :
      (target : Text) (duration : Value) (reason source : Text)
      → Ensures OnePerIp (λ r. r.ip ≡ target) (draw_row env kind now target duration reason source)
  unfolding draw_row new_row create_block_record create_rate_limit_record
  draw_row-Ensures target duration reason source = record { run = λ w i. (named kind w, i) }
    where
      named :
          (k : Kind) (w : World) → (new_row env k now target duration reason source w).ip ≡ target
      named blocks w = refl
      named rate_limits w = refl

  add_restriction-Ensures :
      (ip duration : Value) (reason source : Text)
      → Ensures OnePerIp (Any OnePerIp) (add_restriction env kind now ip duration reason source)
  unfolding add_restriction add_target
  add_restriction-Ensures ip duration reason source =
      Ensures-option _ _ (λ _. Ensures-throw _ _)
        (λ target _. Ensures-bind _ purge_expired-Ensures (λ l h.
          Ensures-option _ _
            (λ e.
              Ensures-bind _ (draw_row-Ensures target duration reason source)
                (λ r same. put_row-Ensures l r h (rw same (find?-none_mem target l e))))
            (λ r _. Ensures-pure _ r tt)))

  remove_restriction-Ensures :
      (id : Text) → Ensures OnePerIp (Any OnePerIp) (remove_restriction env kind now id)
  unfolding remove_restriction
  remove_restriction-Ensures id = Ensures-bind _ purge_expired-Ensures (λ l h.
      Ensures-option _ _ (λ _. Ensures-throw _ _)
        (λ r _.
          Ensures-bind _ (commit_rows-Ensures l _ (filter-Distinct _ l h))
            (λ _ _. record_action-Ensures _ r)))

-- The state after a call, whatever the way out.
after-OnePerIp :
    {A : Type 0} {Q : A → Type 0} {m : M World A}
    → Ensures OnePerIp Q m
    → (w : World) → OnePerIp w
    → OnePerIp (m w).1
after-OnePerIp {Q} {m} h w i = Outcome-state OnePerIp Q (m w) (h.run w i)

step-OnePerIp :
    (env : Env) (kind : Kind) (now : ℕ) (r : Request) (w : World)
    → OnePerIp w
    → OnePerIp (step env kind now r w)
unfolding step
step-OnePerIp env kind now (add ip duration reason source) w i =
    after-OnePerIp (add_restriction-Ensures env kind now ip duration reason source) w i
step-OnePerIp env kind now (remove id) w i =
    after-OnePerIp (remove_restriction-Ensures env kind now id) w i
step-OnePerIp env kind now list w i = after-OnePerIp (purge_expired-Ensures env kind now) w i
step-OnePerIp env kind now refresh w i = after-OnePerIp (synchronize-Ensures env kind now) w i

-- Whatever requests are served at whatever instants, and whatever outside calls fail: a file of blocks
-- or of rate limits with no two rows to one address stays so.
pub serve-OnePerIp :
    (env : Env) (kind : Kind) (requests : List (ℕ × Request)) (w : World)
    → OnePerIp w
    → OnePerIp (serve env kind requests w)
unfolding serve
serve-OnePerIp env kind [] w i = i
serve-OnePerIp env kind ((now, r) ∷ rest) w i =
    serve-OnePerIp env kind rest _ (step-OnePerIp env kind now r w i)
