-- ===== src/Security/HostContext/Paths.antt =====
-- Which rule applies to a path.
use hyrovi_proxy_manager.Prelude.{
  ◌≤◌, ◌≡◌, true, some, List, [], ◌∷◌, find?, All, arith, length, Bool-cases, inl, inr, subst,
  find?-eq-some_holds,
}
use hyrovi_proxy_manager.Js.Text.{Text}
use hyrovi_proxy_manager.Js.Value.{Value}
use hyrovi_proxy_manager.Security.Endpoints.{EndpointRule, normalize_endpoint_rules}
use hyrovi_proxy_manager.Security.Endpoints.Order.{Longest, normalize_endpoint_rules-Distinct}
use hyrovi_proxy_manager.Security.Effective.{rule_applies}

-- No rule of the list that applies is longer than `r`.
abbrev pub NoneLonger : Text → EndpointRule → List EndpointRule → Type 0
NoneLonger path r =
    All (λ x. rule_applies path x ≡ true → length x.path_prefix ≤ length r.path_prefix)

weaken-NoneLonger :
    (path : Text) (r : EndpointRule) (l : List EndpointRule)
    → All (λ x. length x.path_prefix ≤ length r.path_prefix) l
    → NoneLonger path r l
weaken-NoneLonger path r [] h = tt
weaken-NoneLonger path r (x ∷ l) (p, h) = (λ e. p, weaken-NoneLonger path r l h)

find_NoneLonger :
    (path : Text) (l : List EndpointRule) {r : EndpointRule}
    → Longest l
    → find? (rule_applies path) l ≡ some r
    → NoneLonger path r l
find_NoneLonger path [] h f = tt
find_NoneLonger path (x ∷ l) {r} (a, h) f = elim (Bool-cases (rule_applies path x)) [
  | inl e ↦
      let same : x ≡ r = ground (arith, f, e) in
      subst {A = EndpointRule} (λ y. NoneLonger path y (x ∷ l)) same
        (λ _. omega arith, weaken-NoneLonger path x l a)
  | inr e ↦
      let later : find? (rule_applies path) l ≡ some r = ground (arith, f, e) in
      (λ t. cc, find_NoneLonger path l h later)
]

-- Among the rules of a host that are read from any JSON value, the one that is used for a path applies
-- to it, and none that applies is longer.
pub endpoint_rule-NoneLonger :
    (v : Value) (path : Text) (r : EndpointRule)
    → find? (rule_applies path) (normalize_endpoint_rules v) ≡ some r
    → (rule_applies path r ≡ true) × NoneLonger path r (normalize_endpoint_rules v)
endpoint_rule-NoneLonger v path r f = (
  find?-eq-some_holds (rule_applies path) (normalize_endpoint_rules v) f,
  find_NoneLonger path _ (normalize_endpoint_rules-Distinct v).1 f,
)
