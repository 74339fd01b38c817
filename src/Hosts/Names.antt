-- ===== src/Hosts/Names.antt =====
-- When a hostname is taken, and which hosts a list of domains finds.
use hyrovi_proxy_manager.Prelude.{
  ℕ, ◌+◌, ◌≡◌, refl, ap, sym, ◌∙◌, Bool, true, false, not, ◌&&◌, ◌||◌, inl, inr, Option, List, [],
  ◌∷◌, ◌++◌, arith, filter, any, length, ◌==◌, if◌then◌else◌, Bool-cases,
}
use mathlib.Core.List.{append-nil, append_assoc}
use hyrovi_proxy_manager.Js.Text.{Text, mem_text}
use hyrovi_proxy_manager.Hosts.{
  HostRow, Tables, HostType, proxy, redirection, dead, normalize_hostname, management_hosts,
  same_name, names_taken, records_taken, check_hostname_records_taken, ignored_in, listed,
  is_hostname_taken, host_has, host_matches, with_domains, get_hosts_with_domains,
}

-- A row in use, other than the one ignored, has the name but for the case of its letters.
abbrev pub clashes : Text → ℕ → HostRow → Bool
clashes hostname ignore r =
    not r.is_deleted
    && ((ignore == 0) || not (ignore == r.id))
    && any (λ n. same_name n hostname) r.domain_names

-- The database finds every row that has the name but for the case of its letters.
abbrev pub FindsNames : (Text → HostRow → Bool) → Type 0
FindsNames like =
    (hostname : Text) (r : HostRow)
    → any (λ n. same_name n hostname) r.domain_names ≡ true
    → like hostname r ≡ true

-- The flag after one more test.
flag_step :
    (t m c x : Bool)
    → ((if m then (if c then true else t) else t) || (c && x)) ≡ (t || (c && (m || x)))
flag_step true true true x = refl
flag_step true true false x = refl
flag_step true false true x = refl
flag_step true false false x = refl
flag_step false true true x = refl
flag_step false true false x = refl
flag_step false false true x = refl
flag_step false false false x = refl

names_taken-any :
    (hostname : Text) (id ignore : ℕ) (ns : List Text) (taken : Bool)
    → names_taken hostname id ignore ns taken
      ≡ (taken || (((ignore == 0) || not (ignore == id)) && any (λ n. same_name n hostname) ns))
unfolding names_taken
names_taken-any hostname id ignore [] taken = ground arith
names_taken-any hostname id ignore (n ∷ ns) taken =
    names_taken-any hostname id ignore ns _
    ∙ flag_step taken (same_name n hostname) ((ignore == 0) || not (ignore == id)) _

-- The flag after one more row, which is in use (`u`), found (`l`), not ignored and of this name (`n`).
row_step : (t u c n x : Bool) → u ≡ true → ((t || (c && n)) || x) ≡ (t || ((u && c && n) || x))
row_step t u c n x h = ground (arith, h)

row_skip :
    (t u l c n x : Bool)
    → (u && l) ≡ false
    → (n ≡ true → l ≡ true)
    → (t || x) ≡ (t || ((u && c && n) || x))
row_skip t u l c true x h finds = ground (arith, h, finds refl)
row_skip t u l c false x h finds = ground (arith, h)

records_taken-any :
    (like : Text → HostRow → Bool) (hostname : Text) (ignore : ℕ) (rows : List HostRow)
    (taken : Bool)
    → FindsNames like
    → records_taken hostname ignore (listed like hostname rows) taken
      ≡ (taken || any (clashes hostname ignore) rows)
unfolding records_taken listed
records_taken-any like hostname ignore [] taken finds = ground arith
records_taken-any like hostname ignore (r ∷ rows) taken finds =
    elim (Bool-cases (not r.is_deleted && like hostname r)) [
      | inl e ↦ rw e (
          records_taken-any like hostname ignore rows
            (names_taken hostname r.id ignore r.domain_names taken) finds
          ∙ (ap (λ b. b || any (clashes hostname ignore) rows)
                (names_taken-any hostname r.id ignore r.domain_names taken)
              ∙ row_step taken (not r.is_deleted) ((ignore == 0) || not (ignore == r.id))
                  (any (λ n. same_name n hostname) r.domain_names) _ (ground (arith, e))))
      | inr e ↦ rw e (
          records_taken-any like hostname ignore rows taken finds
          ∙ row_skip taken (not r.is_deleted) (like hostname r)
              ((ignore == 0) || not (ignore == r.id))
              (any (λ n. same_name n hostname) r.domain_names) _ e (finds hostname r))
    ]

check_hostname_records_taken-any :
    (like : Text → HostRow → Bool) (hostname : Text) (ignore : ℕ) (rows : List HostRow)
    → FindsNames like
    → check_hostname_records_taken hostname (listed like hostname rows) ignore
      ≡ any (clashes hostname ignore) rows
unfolding check_hostname_records_taken
check_hostname_records_taken-any like hostname ignore rows finds =
    records_taken-any like hostname ignore rows false finds

-- The three flags, in the order of the code.
any_flag :
    (a b c : Bool)
    → (if c then true else if b then true else if a then true else false) ≡ (a || b || c)
any_flag a b c = ground arith

-- If the database finds every row that has a name but for the case of its letters, then a hostname is
-- taken exactly when it is one of the reserved management hosts, or some proxy, redirection or dead
-- host in use has it but for the case of its letters and is not the host to ignore.
pub is_hostname_taken-clashes :
    (like : Text → HostRow → Bool) (setting : Text) (w : Tables) (hostname : Text)
    (ignore : Option HostType) (id : ℕ)
    → FindsNames like
    → (is_hostname_taken like setting w hostname ignore id).is_taken ≡ (
        mem_text (normalize_hostname hostname) (management_hosts setting)
        || any (clashes hostname (ignored_in proxy ignore id)) w.proxy_hosts
        || any (clashes hostname (ignored_in redirection ignore id)) w.redirection_hosts
        || any (clashes hostname (ignored_in dead ignore id)) w.dead_hosts)
unfolding is_hostname_taken
is_hostname_taken-clashes like setting w hostname ignore id finds =
    elim (Bool-cases (mem_text (normalize_hostname hostname) (management_hosts setting))) [
      | inl e ↦ rw e refl
      | inr e ↦ rw e (
          rw
            (
              check_hostname_records_taken-any like hostname (ignored_in proxy ignore id)
                  w.proxy_hosts finds,
              check_hostname_records_taken-any like hostname (ignored_in redirection ignore id)
                  w.redirection_hosts finds,
              check_hostname_records_taken-any like hostname (ignored_in dead ignore id)
                  w.dead_hosts finds,
            )
            (any_flag (any (clashes hostname (ignored_in proxy ignore id)) w.proxy_hosts)
              (any (clashes hostname (ignored_in redirection ignore id)) w.redirection_hosts)
              (any (clashes hostname (ignored_in dead ignore id)) w.dead_hosts)))
    ]

host_has-any :
    (ns : List Text) (d : Text) (found : Bool)
    → host_has ns d found ≡ (found || any (λ n. same_name d n) ns)
unfolding host_has
host_has-any [] d found = ground arith
host_has-any (n ∷ ns) d found = host_has-any ns d _ ∙ ground arith

host_matches-any :
    (ns ds : List Text) (found : Bool)
    → host_matches ns ds found ≡ (found || any (λ d. any (λ n. same_name d n) ns) ds)
unfolding host_matches
host_matches-any ns [] found = ground arith
host_matches-any ns (d ∷ ds) found =
    host_matches-any ns ds _
    ∙ (ap (λ b. b || any (λ e. any (λ n. same_name e n) ns) ds) (host_has-any ns d found)
        ∙ ground arith)

-- A host in use that has one of the domains but for the case of its letters.
abbrev pub uses_any : List Text → HostRow → Bool
uses_any domains h = not h.is_deleted && any (λ d. any (λ n. same_name d n) h.domain_names) domains

with_domains-filter :
    (rows : List HostRow) (domains : List Text) (before : List HostRow)
    → with_domains (filter (λ r. not r.is_deleted) rows) domains before
      ≡ before ++ filter (uses_any domains) rows
unfolding with_domains
with_domains-filter [] domains before = sym (append-nil before)
with_domains-filter (h ∷ rows) domains before = elim (Bool-cases h.is_deleted) [
  | inl gone ↦ simp gone (with_domains-filter rows domains before)
  | inr live ↦
      let matched = host_matches-any h.domain_names domains false in
      simp live (
        rw matched (elim (Bool-cases (any (λ d. any (λ n. same_name d n) h.domain_names) domains)) [
          | inl e ↦ rw e (
              with_domains-filter rows domains (before ++ (h ∷ []))
              ∙ append_assoc before (h ∷ []) (filter (uses_any domains) rows))
          | inr e ↦ rw e (with_domains-filter rows domains before)
        ]))
]

-- The hosts found for a list of domains are those in use that have one of the domains but for the
-- case of its letters, in the order of their tables, and the count is that of the three tables.
pub get_hosts_with_domains-uses_any :
    (w : Tables) (domains : List Text)
    → ((get_hosts_with_domains w domains).hosts ≡ record {
      proxy_hosts = filter (uses_any domains) w.proxy_hosts;
      redirection_hosts = filter (uses_any domains) w.redirection_hosts;
      dead_hosts = filter (uses_any domains) w.dead_hosts;
    })
      × ((get_hosts_with_domains w domains).total_count
          ≡ length (filter (uses_any domains) w.proxy_hosts)
            + length (filter (uses_any domains) w.redirection_hosts)
            + length (filter (uses_any domains) w.dead_hosts))
unfolding get_hosts_with_domains
get_hosts_with_domains-uses_any w domains =
    let p = with_domains-filter w.proxy_hosts domains [] in
    let r = with_domains-filter w.redirection_hosts domains [] in
    let d = with_domains-filter w.dead_hosts domains [] in
    (rw (p, r, d) refl, rw (p, r, d) (omega arith))
