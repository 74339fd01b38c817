-- ===== src/Security/HostContext/Bound.antt =====
-- What holds of the policy in force for every request.
use hyrovi_proxy_manager.Prelude.{
  ◌≡◌, some, List, [], ◌∷◌, find?, All, All-append, find?-All, arith, subst, Bool-cases,
  Option-cases, inl, inr, leb, length,
}
use hyrovi_proxy_manager.Js.Text.{Text, codes, text_eq, is_empty, starts_with}
use hyrovi_proxy_manager.Security.Endpoints.{EndpointRule}
use hyrovi_proxy_manager.Security.Policy.{Policy}
use hyrovi_proxy_manager.Security.Effective.{
  Host, Group, Effective, global_effective, host_effective, with_rule, rule_applies,
  apply_endpoint_rule, path_or_root,
}
use hyrovi_proxy_manager.Security.HostContext.{
  HostContext, normalize_hostname, set_exact, get_exact, add_domain, add_domains, add_hosts,
  insert_wildcard, sort_wildcards, create_host_policy_context, wildcard_fits, resolve,
  base_effective,
}

-- A property of the policy in force is shown on the global policy, on that of each host, and on what a
-- rule for a path makes of one.
module _ (P : Effective → Type 0) where
  abbrev AllBound : List (Text × Effective) → Type 0
  AllBound = All (λ w. P w.1)

  set_exact-All :
      (k : Text) (e : Effective) (l : List (Text × Effective))
      → P e
      → AllBound l
      → AllBound (set_exact k e l)
  unfolding set_exact
  set_exact-All k e [] p h = (p, tt)
  set_exact-All k e ((j, f) ∷ l) p (q, h) = elim (Bool-cases (text_eq j k)) [
    | inl c ↦ rw c (p, h)
    | inr c ↦ rw c (q, set_exact-All k e l p h)
  ]

  record Bound (c : HostContext) : Type 0 where
    exact : AllBound c.exact
    wildcards : AllBound c.wildcards

  add_domain-Bound :
      (e : Effective) (d : Text) (c : HostContext) → P e → Bound c → Bound (add_domain e d c)
  unfolding add_domain
  add_domain-Bound e d c p b = elim (Bool-cases (is_empty (normalize_hostname d))) [
    | inl f ↦ simp f b
    | inr f ↦ elim (Bool-cases (starts_with (normalize_hostname d) (codes "*."))) [
      | inl g ↦ simp f (
          simp g (record {
            exact = b.exact;
            wildcards = All-append _ c.wildcards _ b.wildcards (p, tt);
          }))
      | inr g ↦ simp f (
          simp g (record {
            exact = set_exact-All (normalize_hostname d) e c.exact p b.exact;
            wildcards = b.wildcards;
          }))
    ]
  ]

  add_domains-Bound :
      (e : Effective) (ds : List Text) (c : HostContext)
      → P e
      → Bound c
      → Bound (add_domains e ds c)
  unfolding add_domains
  add_domains-Bound e [] c p b = b
  add_domains-Bound e (d ∷ ds) c p b =
      add_domains-Bound e ds (add_domain e d c) p (add_domain-Bound e d c p b)

  insert_wildcard-All :
      (w : Text × Effective) (l : List (Text × Effective))
      → P w.1
      → AllBound l
      → AllBound (insert_wildcard w l)
  unfolding insert_wildcard
  insert_wildcard-All w [] p h = (p, tt)
  insert_wildcard-All w (x ∷ l) p (q, h) = elim (Bool-cases (leb (length x.0) (length w.0))) [
    | inl c ↦ rw c (p, (q, h))
    | inr c ↦ rw c (q, insert_wildcard-All w l p h)
  ]

  sort_wildcards-All : (l : List (Text × Effective)) → AllBound l → AllBound (sort_wildcards l)
  unfolding sort_wildcards
  sort_wildcards-All [] h = tt
  sort_wildcards-All (w ∷ l) (p, h) =
      insert_wildcard-All w (sort_wildcards l) p (sort_wildcards-All l h)

  get_exact-All :
      (k : Text) (l : List (Text × Effective)) {e : Effective}
      → AllBound l
      → get_exact k l ≡ some e
      → P e
  unfolding get_exact
  get_exact-All k [] h f = cc
  get_exact-All k ((j, d) ∷ l) {e} (p, h) f = elim (Bool-cases (text_eq j k)) [
    | inl c ↦ let same : d ≡ e = ground (arith, f, c) in subst P same p
    | inr c ↦ let later : get_exact k l ≡ some e = ground (arith, f, c) in get_exact-All k l h later
  ]

  module _ (policy : Policy) (groups : List Group) (of_global : P (global_effective policy))
      (of_host : (h : Host) → P (host_effective policy groups h))
      (of_rule : (e : Effective) (r : EndpointRule) → P e → P (with_rule policy e r)) where
    add_hosts-Bound :
        (hs : List Host) (c : HostContext) → Bound c → Bound (add_hosts policy groups hs c)
    unfolding add_hosts
    add_hosts-Bound [] c b = b
    add_hosts-Bound (h ∷ hs) c b =
        add_hosts-Bound hs _
          (add_domains-Bound (host_effective policy groups h) h.domain_names c (of_host h) b)

    context-Bound : (hs : List Host) → Bound (create_host_policy_context policy hs groups)
    unfolding create_host_policy_context
    context-Bound hs =
        let b =
          add_hosts-Bound hs (record { exact = []; wildcards = [] })
            (record { exact = tt; wildcards = tt }) in
        record { exact = b.exact; wildcards = sort_wildcards-All _ b.wildcards }

    apply_endpoint_rule-Bound :
        (e : Effective) (path : Text) → P e → P (apply_endpoint_rule policy e path)
    unfolding apply_endpoint_rule
    apply_endpoint_rule-Bound e path p =
        elim (Option-cases (find? (rule_applies (path_or_root path)) e.endpoint_rules)) [
          | inl f ↦ rw f p
          | inr (r, f) ↦ rw f (of_rule e r p)
        ]

    pub resolve-Bound :
        (hs : List Host) (name path : Text)
        → P (resolve policy (create_host_policy_context policy hs groups) name path)
    unfolding resolve
    resolve-Bound hs name path = apply_endpoint_rule-Bound _ path base
      where
        c : HostContext
        c = create_host_policy_context policy hs groups

        base : P (
            base_effective policy c
              (normalize_hostname name)
              (get_exact (normalize_hostname name) c.exact))
        base = elim (Option-cases (get_exact (normalize_hostname name) c.exact)) [
          | inl f ↦
              rw f
                (elim (Option-cases (find? (wildcard_fits (normalize_hostname name)) c.wildcards)) [
                  | inl g ↦ rw g of_global
                  | inr (w, g) ↦
                      rw g (find?-All (λ x. P x.1) _ c.wildcards (context-Bound hs).wildcards g)
                ])
          | inr (e, f) ↦ rw f (get_exact-All _ c.exact (context-Bound hs).exact f)
        ]
