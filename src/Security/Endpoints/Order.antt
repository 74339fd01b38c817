-- ===== src/Security/Endpoints/Order.antt =====
-- The rules for paths: no path twice, and the longest first.
use hyrovi_proxy_manager.Prelude.{
  ℕ, ◌≤◌, ◌≡◌, false, Option, none, some, List, [], ◌∷◌, ◌++◌, arith, Bool-cases, inl, inr, leb,
  length, any, All, All-append, take,
}
use hyrovi_proxy_manager.Js.Text.{Text, text_eq, text_eq_sym}
use hyrovi_proxy_manager.Js.Value.{
  Value, undefined, null, bool, num, str, arr, obj, items, is_object,
}
use hyrovi_proxy_manager.Security.Endpoints.{
  Mode, EndpointRule, add_rule, endpoint_loop, insert_rule, longest_first, normalize_endpoint_rules,
  max_endpoint_rules_per_host,
}

abbrev pub Elsewhere : Text → List EndpointRule → Type 0
Elsewhere p = All (λ r. text_eq r.path_prefix p ≡ false)

-- No path has two rules.
abbrev pub Distinct : List EndpointRule → Type 0
Distinct [] = Unit
Distinct (r ∷ rest) = Elsewhere r.path_prefix rest × Distinct rest

-- Each path is at least as long as all that follow.
abbrev pub Longest : List EndpointRule → Type 0
Longest [] = Unit
Longest (r ∷ rest) = All (λ x. length x.path_prefix ≤ length r.path_prefix) rest × Longest rest

any-Elsewhere :
    (p : Text) (rules : List EndpointRule)
    → any (λ r. text_eq r.path_prefix p) rules ≡ false
    → Elsewhere p rules
any-Elsewhere p [] h = tt
any-Elsewhere p (r ∷ rules) h = (ground (arith, h), any-Elsewhere p rules (ground (arith, h)))

-- A rule for a new path at the end.
append-Distinct :
    (r : EndpointRule) (rules : List EndpointRule)
    → Elsewhere r.path_prefix rules
    → Distinct rules
    → Distinct (rules ++ (r ∷ []))
append-Distinct r [] o d = (tt, tt)
append-Distinct r (x ∷ rules) (h, o) (e, d) = (
  All-append _ rules (r ∷ []) e (text_eq_sym x.path_prefix r.path_prefix h, tt),
  append-Distinct r rules o d,
)

add_rule-Distinct :
    (p : Option Text) (m : Option Mode) (rules : List EndpointRule)
    → Distinct rules
    → Distinct (add_rule p m rules)
add_rule-Distinct none m rules d = d
add_rule-Distinct (some p) none rules d = d
add_rule-Distinct (some p) (some m) rules d =
    elim (Bool-cases (any (λ r. text_eq r.path_prefix p) rules)) [
      | inl e ↦ rw e d
      | inr e ↦
          rw e (
            append-Distinct (record { path_prefix = p; mode = m }) rules (any-Elsewhere p rules e)
              d)
    ]

endpoint_loop-Distinct :
    (vs : List Value) (rules : List EndpointRule)
    → Distinct rules
    → Distinct (endpoint_loop vs rules)
unfolding endpoint_loop
endpoint_loop-Distinct [] rules d = d
endpoint_loop-Distinct (v ∷ vs) rules d = elim (Bool-cases (is_object v)) [
  | inl e ↦ rw e (endpoint_loop-Distinct vs _ (add_rule-Distinct _ _ rules d))
  | inr e ↦ rw e (endpoint_loop-Distinct vs rules d)
]

-- A property of all that a sort keeps.
insert-All :
    (P : EndpointRule → Type 0) (r : EndpointRule) (l : List EndpointRule)
    → P r
    → All P l
    → All P (insert_rule r l)
unfolding insert_rule
insert-All P r [] p h = (p, tt)
insert-All P r (x ∷ l) p (q, h) =
    elim (Bool-cases (leb (length x.path_prefix) (length r.path_prefix))) [
      | inl e ↦ rw e (p, (q, h))
      | inr e ↦ rw e (q, insert-All P r l p h)
    ]

sorted-All : (P : EndpointRule → Type 0) (l : List EndpointRule) → All P l → All P (longest_first l)
unfolding longest_first
sorted-All P [] h = tt
sorted-All P (r ∷ l) (p, h) = insert-All P r (longest_first l) p (sorted-All P l h)

shorter-All :
    (n k : ℕ) (l : List EndpointRule)
    → n ≤ k
    → All (λ x. length x.path_prefix ≤ n) l
    → All (λ x. length x.path_prefix ≤ k) l
shorter-All n k [] h a = tt
shorter-All n k (x ∷ l) h (p, a) = (omega arith, shorter-All n k l h a)

insert-Longest : (r : EndpointRule) (l : List EndpointRule) → Longest l → Longest (insert_rule r l)
unfolding insert_rule
insert-Longest r [] h = (tt, tt)
insert-Longest r (x ∷ l) (a, h) =
    elim (Bool-cases (leb (length x.path_prefix) (length r.path_prefix))) [
      | inl e ↦
          let le : length x.path_prefix ≤ length r.path_prefix = ground (arith, e) in
          rw e ((le, shorter-All _ _ l le a), (a, h))
      | inr e ↦ rw e (insert-All _ r l (ground (arith, e)) a, insert-Longest r l h)
    ]

insert-Distinct :
    (r : EndpointRule) (l : List EndpointRule)
    → Elsewhere r.path_prefix l
    → Distinct l
    → Distinct (insert_rule r l)
unfolding insert_rule
insert-Distinct r [] o d = (tt, tt)
insert-Distinct r (x ∷ l) (h, o) (e, d) =
    elim (Bool-cases (leb (length x.path_prefix) (length r.path_prefix))) [
      | inl f ↦ rw f ((h, o), (e, d))
      | inr f ↦
          rw f (
            insert-All _ r l (text_eq_sym x.path_prefix r.path_prefix h) e,
            insert-Distinct r l o d,
          )
    ]

sorted-Longest : (l : List EndpointRule) → Longest (longest_first l)
unfolding longest_first
sorted-Longest [] = tt
sorted-Longest (r ∷ l) = insert-Longest r (longest_first l) (sorted-Longest l)

sorted-Distinct : (l : List EndpointRule) → Distinct l → Distinct (longest_first l)
unfolding longest_first
sorted-Distinct [] d = tt
sorted-Distinct (r ∷ l) (o, d) =
    insert-Distinct r (longest_first l) (sorted-All _ l o) (sorted-Distinct l d)

-- Whatever JSON value the rules for paths are read from, no path has two of them, and each path is at
-- least as long as those after it.
pub normalize_endpoint_rules-Distinct :
    (v : Value) → Distinct (normalize_endpoint_rules v) × Longest (normalize_endpoint_rules v)
unfolding normalize_endpoint_rules
normalize_endpoint_rules-Distinct (arr vs) =
    let l = endpoint_loop (take max_endpoint_rules_per_host (items vs)) [] in
    (sorted-Distinct l (endpoint_loop-Distinct _ [] tt), sorted-Longest l)
normalize_endpoint_rules-Distinct undefined = (tt, tt)
normalize_endpoint_rules-Distinct null = (tt, tt)
normalize_endpoint_rules-Distinct (bool b) = (tt, tt)
normalize_endpoint_rules-Distinct (num z) = (tt, tt)
normalize_endpoint_rules-Distinct (str s) = (tt, tt)
normalize_endpoint_rules-Distinct (obj fs) = (tt, tt)
