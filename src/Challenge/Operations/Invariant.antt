-- ===== src/Challenge/Operations/Invariant.antt =====
-- The operations on challenges of backend/internal/security_challenge.js: the state file over them.
use mathlib.Core.List.{reverse_aux}
use hyrovi_proxy_manager.Prelude.{
  ℕ, ◌≡◌, refl, inl, inr, Bool, true, false, none, List, [], ◌∷◌, map, arith, find?, All,
  All-append, Bool-cases, length-map, inl, inr,
}
use hyrovi_proxy_manager.Js.Text.{Text, text_eq}
use hyrovi_proxy_manager.Js.Value.{Value}
use hyrovi_proxy_manager.Hoare.{
  Ensures, Any, Ensures-bind, Ensures-pure, Ensures-throw, Ensures-throw_if, Ensures-lift,
  Ensures-branch, Ensures-option, Outcome-state,
}
use hyrovi_proxy_manager.Challenge.{Challenge, World, Env, purge_expired_unsafe}
use hyrovi_proxy_manager.Challenge.Operations.{
  Progress, create_challenge_record, add_challenge, challenge_item, challenge_loop, challenge_ips,
  remove_challenge, get_challenge_for_ip, verify, verify_found, settle, ip_is, count_attempt,
}
use hyrovi_proxy_manager.Challenge.Invariant.{
  IsNew, DistinctIps, IsSound, FileIsSound, filter-IsSound, concat-IsSound,
  write_challenges-Ensures, commit_state-Ensures, purge-Ensures,
}

find?-reverse_aux :
    (q : Challenge → Bool) (xs ys : List Challenge)
    → find? q (reverse_aux xs ys) ≡ none
    → All (λ c. q c ≡ false) xs × (find? q ys ≡ none)
find?-reverse_aux q [] ys h = (tt, h)
find?-reverse_aux q (x ∷ xs) ys h =
    let (rest, here) = find?-reverse_aux q xs (x ∷ ys) h in
    elim (Bool-cases (q x)) [ inl e ↦ ground arith | inr e ↦ ((e, rest), ground arith) ]

find?-cons-none :
    (q : Challenge → Bool) (c : Challenge) (cs : List Challenge)
    → find? q (c ∷ cs) ≡ none
    → (q c ≡ false) × (find? q cs ≡ none)
find?-cons-none q c cs h = elim (Bool-cases (q c)) [
  | inl e ↦ ground arith
  | inr e ↦ (e, ground arith)
]

-- Counting an attempt changes no address.
count_attempt-IsNew :
    (id ip : Text) (cs : List Challenge) → IsNew ip cs → IsNew ip (map (count_attempt id) cs)
count_attempt-IsNew id ip [] h = tt
count_attempt-IsNew id ip (c ∷ cs) (new, h) = elim (Bool-cases (text_eq c.id id)) [
  | inl e ↦ rw e (new, count_attempt-IsNew id ip cs h)
  | inr e ↦ rw e (new, count_attempt-IsNew id ip cs h)
]

count_attempt-DistinctIps :
    (id : Text) (cs : List Challenge) → DistinctIps cs → DistinctIps (map (count_attempt id) cs)
count_attempt-DistinctIps id [] h = tt
count_attempt-DistinctIps id (c ∷ cs) (new, h) = elim (Bool-cases (text_eq c.id id)) [
  | inl e ↦ rw e (count_attempt-IsNew id c.ip cs new, count_attempt-DistinctIps id cs h)
  | inr e ↦ rw e (count_attempt-IsNew id c.ip cs new, count_attempt-DistinctIps id cs h)
]

module _ (env : Env) where
  count_attempt-valid :
      (id : Text) (cs : List Challenge)
      → All (λ c. env.is_ip c.ip ≡ true) cs
      → All (λ c. env.is_ip c.ip ≡ true) (map (count_attempt id) cs)
  count_attempt-valid id [] h = tt
  count_attempt-valid id (c ∷ cs) (ok_ip, h) = elim (Bool-cases (text_eq c.id id)) [
    | inl e ↦ rw e (ok_ip, count_attempt-valid id cs h)
    | inr e ↦ rw e (ok_ip, count_attempt-valid id cs h)
  ]

  count_attempt-IsSound :
      (id : Text) (cs : List Challenge) → IsSound env cs → IsSound env (map (count_attempt id) cs)
  count_attempt-IsSound id cs h = record {
    distinct = count_attempt-DistinctIps id cs h.distinct;
    valid = count_attempt-valid id cs h.valid;
    few = rw (length-map (count_attempt id) cs) h.few;
  }

  -- The loop of `challengeIps`: the new list is sound, and an address that the map does not know is
  -- not in the list.
  record InProgress (p : Progress) : Type 0 where
    sound : IsSound env p.next
    known : (ip : Text) → find? (ip_is ip) p.by_ip ≡ none → IsNew ip p.next

  module _ (now : ℕ) where
    create-Ensures :
        (item : Value) (ip : Text)
        → Ensures
            (FileIsSound env)
            (λ c. (c.ip ≡ ip) × (env.is_ip c.ip ≡ true))
            (create_challenge_record env now item ip)
    unfolding create_challenge_record
    create-Ensures item ip =
        Ensures-bind _ (Ensures-throw_if _ _ _)
          (λ _ valid. record { run = λ w i. ((refl, ground arith), i) })

    add_challenge-Ensures :
        (item : Value) (ip : Text) (p : Progress)
        → InProgress p
        → find? (ip_is ip) p.by_ip ≡ none
        → Ensures (FileIsSound env) InProgress (add_challenge env now item ip p)
    unfolding add_challenge
    add_challenge-Ensures item ip p h missing = Ensures-bind _ (Ensures-throw_if _ _ _) (λ _ room.
        Ensures-bind _ (create-Ensures item ip) (λ c made. Ensures-pure _ _ (record {
          sound =
              concat-IsSound env p.next c h.sound (rw made.0 (h.known ip missing)) made.1
                (ground arith);
          known = λ ip' gone.
              let (other, rest) = find?-cons-none (ip_is ip') c p.by_ip gone in
              All-append _ p.next (c ∷ []) (h.known ip' rest) (other, tt);
        })))

    challenge_item-Ensures :
        (item : Value) (p : Progress)
        → InProgress p
        → Ensures (FileIsSound env) InProgress (challenge_item env now item p)
    unfolding challenge_item
    challenge_item-Ensures item p h = Ensures-bind _ (Ensures-throw_if _ _ _) (λ _ _.
        Ensures-option _ _ (λ missing. add_challenge-Ensures item _ p h missing)
          (λ c _. Ensures-pure _ _ (record { sound = h.sound; known = h.known })))

    challenge_loop-Ensures :
        (wanted : List Value) (p : Progress)
        → InProgress p
        → Ensures (FileIsSound env) InProgress (challenge_loop env now wanted p)
    unfolding challenge_loop
    challenge_loop-Ensures [] p h = Ensures-pure _ p h
    challenge_loop-Ensures (item ∷ rest) p h =
        Ensures-bind _ (challenge_item-Ensures item p h)
          (λ p' h'. challenge_loop-Ensures rest p' h')

    challenge_ips-Ensures :
        (requested : Value)
        → Ensures (FileIsSound env) (Any (FileIsSound env)) (challenge_ips env now requested)
    unfolding challenge_ips
    challenge_ips-Ensures requested = Ensures-bind _ (purge-Ensures env now) (λ cs sound.
        Ensures-bind _
          (challenge_loop-Ensures _ _
            (record { sound = sound; known = λ ip h. (find?-reverse_aux (ip_is ip) cs [] h).0 }))
          (λ p h.
            Ensures-bind _
              (Ensures-branch _ _ (λ _. commit_state-Ensures env now cs p.next h.sound)
                (λ _. Ensures-pure _ tt tt))
              (λ _ _. Ensures-pure _ _ tt)))

    remove_challenge-Ensures :
        (id ip : Value)
        → Ensures (FileIsSound env) (Any (FileIsSound env)) (remove_challenge env now id ip)
    unfolding remove_challenge
    remove_challenge-Ensures id ip = Ensures-bind _ (purge-Ensures env now) (λ cs sound.
        Ensures-option _ _ (λ _. Ensures-pure _ _ tt)
          (λ c _.
            Ensures-bind _ (commit_state-Ensures env now cs _ (filter-IsSound env _ cs sound))
              (λ _ _. Ensures-pure _ _ tt)))

    get_challenge-Ensures :
        (ip : Text)
        → Ensures (FileIsSound env) (Any (FileIsSound env)) (get_challenge_for_ip env now ip)
    unfolding get_challenge_for_ip
    get_challenge-Ensures ip =
        Ensures-bind _ (purge-Ensures env now) (λ cs sound. Ensures-pure _ _ tt)

    settle-Ensures :
        (cs : List Challenge) (c : Challenge) (n : ℕ)
        → IsSound env cs
        → Ensures (FileIsSound env) (Any (FileIsSound env)) (settle env now cs c n)
    unfolding settle
    settle-Ensures cs c n sound =
        Ensures-branch _ _
          (λ _.
            Ensures-bind _ (commit_state-Ensures env now cs _ (filter-IsSound env _ cs sound))
              (λ _ _. Ensures-pure _ _ tt))
          (λ _.
            Ensures-bind _ (write_challenges-Ensures env _ (count_attempt-IsSound c.id cs sound))
              (λ _ _. Ensures-pure _ _ tt))

    verify-Ensures :
        (ip : Text) (id counter : Value)
        → Ensures (FileIsSound env) (Any (FileIsSound env)) (verify env now ip id counter)
    unfolding verify verify_found
    verify-Ensures ip id counter = Ensures-bind _ (purge-Ensures env now) (λ cs sound.
        Ensures-option _ _ (λ _. Ensures-throw _ _)
          (λ c _.
            Ensures-bind _ (Ensures-lift _ _) (λ n _.
              Ensures-bind _ (Ensures-throw_if _ _ _) (λ _ _. settle-Ensures cs c n sound))))

-- A request to the service, with the instant at which it is served.
pub data Call : Type 0 where
  purges : Call
  challenges : Value → Call
  removes : Value → Value → Call
  looks_up : Text → Call
  verifies : Text → Value → Value → Call

pub step : Env → World → ℕ × Call → World
step env w (now, purges) = (purge_expired_unsafe env now w).1
step env w (now, challenges wanted) = (challenge_ips env now wanted w).1
step env w (now, removes id ip) = (remove_challenge env now id ip w).1
step env w (now, looks_up ip) = (get_challenge_for_ip env now ip w).1
step env w (now, verifies ip id counter) = (verify env now ip id counter w).1

-- `withMutation` serves the requests one after another.
pub serve : Env → World → List (ℕ × Call) → World
unfolding step
serve env w [] = w
serve env w (c ∷ cs) = serve env (step env w c) cs

step-FileIsSound :
    (env : Env) (w : World) (c : ℕ × Call) → FileIsSound env w → FileIsSound env (step env w c)
unfolding step
step-FileIsSound env w (now, purges) h =
    Outcome-state (FileIsSound env) _ _ ((purge-Ensures env now).run w h)
step-FileIsSound env w (now, challenges wanted) h =
    Outcome-state (FileIsSound env) _ _ ((challenge_ips-Ensures env now wanted).run w h)
step-FileIsSound env w (now, removes id ip) h =
    Outcome-state (FileIsSound env) _ _ ((remove_challenge-Ensures env now id ip).run w h)
step-FileIsSound env w (now, looks_up ip) h =
    Outcome-state (FileIsSound env) _ _ ((get_challenge-Ensures env now ip).run w h)
step-FileIsSound env w (now, verifies ip id counter) h =
    Outcome-state (FileIsSound env) _ _ ((verify-Ensures env now ip id counter).run w h)

-- Whatever requests are served, at whatever instants, and whatever calls of the file system and of
-- Nginx fail: a state file that has at most one challenge to an address, valid addresses only and
-- at most 5000 entries, stays so.
pub serve-FileIsSound :
    (env : Env) (w : World) (calls : List (ℕ × Call))
    → FileIsSound env w
    → FileIsSound env (serve env w calls)
unfolding serve
serve-FileIsSound env w [] h = h
serve-FileIsSound env w (c ∷ cs) h =
    serve-FileIsSound env (step env w c) cs (step-FileIsSound env w c h)
