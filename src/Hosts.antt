-- ===== src/Hosts.antt =====
-- backend/internal/host.js: what the kinds of hosts (proxy, redirection, dead) share.
pub mod Ssl
pub mod Names
mod Tests
use hyrovi_proxy_manager.Prelude.{
  ℕ, Bool, true, false, not, ◌&&◌, ◌||◌, Option, none, some, List, [], ◌∷◌, ◌++◌, map, filter, any,
  length, ◌+◌, ◌==◌, if◌then◌else◌,
}
use hyrovi_proxy_manager.Js.Text.{Text, codes, text_eq, mem_text, trim, to_lower, is_empty}
use hyrovi_proxy_manager.Js.Value.{
  Value, Fields, end, field, bool, obj, truthy, lookup_field, trimmed,
}

-- Object.assign: the fields of the second object, in the place of those of the same name.
pub set_field : Text → Value → Fields → Fields
set_field name v end = field name v end
set_field name v (field k u rest) =
    if text_eq k name then field k v rest else field k u (set_field name v rest)

pub assign : Fields → Fields → Fields
assign target end = target
assign target (field k v rest) = assign (set_field k v target) rest

abbrev pub has : Text → Fields → Bool
has name fs = truthy (lookup_field name fs)

abbrev pub without_certificate : Fields → Fields
without_certificate fs =
    if has (codes "certificate_id") fs
    then fs
    else set_field (codes "http2_support") (bool false)
        (set_field (codes "ssl_forced") (bool false) fs)

-- if (!data[cond]) data[name] = false
abbrev pub off_unless : (cond name : Text) → Fields → Fields
off_unless cond name fs = if has cond fs then fs else set_field name (bool false) fs

pub clean_ssl_hsts_data : (fresh existing : Fields) → Fields
clean_ssl_hsts_data fresh existing = off_unless (codes "hsts_enabled") (codes "hsts_subdomains") (
    off_unless (codes "ssl_forced") (codes "hsts_enabled")
      (without_certificate (assign (assign end existing) fresh)))

-- A row of one of the three tables.
pub record HostRow : Type 0 where
  pub id : ℕ
  pub is_deleted : Bool
  pub domain_names : List Text

pub record Tables : Type 0 where
  pub proxy_hosts : List HostRow
  pub redirection_hosts : List HostRow
  pub dead_hosts : List HostRow

pub data HostType : Type 0 where
  proxy redirection dead : HostType

-- .replace(/\.$/, "")
pub drop_dot : Text → Text
drop_dot [] = []
drop_dot (c ∷ []) = if c == b'.' then [] else c ∷ []
drop_dot (c ∷ d ∷ s) = c ∷ drop_dot (d ∷ s)

pub normalize_hostname : Text → Text
normalize_hostname s = drop_dot (to_lower (trim s))

-- .split(",")
pub split_commas : Text → List Text
split_commas [] = [] ∷ []
split_commas (c ∷ s) =
    let rest = split_commas s in if c == b',' then [] ∷ rest else first_with c rest
  where
    first_with : ℕ → List Text → List Text
    first_with c [] = (c ∷ []) ∷ []
    first_with c (t ∷ ts) = (c ∷ t) ∷ ts

-- `setting` is the variable HYROVI_MANAGEMENT_HOSTS, empty when it is not set.
pub management_hosts : Text → List Text
management_hosts setting =
    codes "hpm.hyrovi.com"
    ∷ filter (λ t. not (is_empty t)) (map normalize_hostname (split_commas setting))

abbrev pub same_name : Text → Text → Bool
same_name a b = text_eq (to_lower a) (to_lower b)

-- The loops of `_checkHostnameRecordsTaken`, which set a flag; 0 ignores no row.
pub names_taken : Text → (id ignore : ℕ) → List Text → Bool → Bool
names_taken hostname id ignore [] taken = taken
names_taken hostname id ignore (n ∷ ns) taken = names_taken hostname id ignore ns (
    if same_name n hostname
    then (if (ignore == 0) || not (ignore == id) then true else taken)
    else taken)

pub records_taken : Text → ℕ → List HostRow → Bool → Bool
records_taken hostname ignore [] taken = taken
records_taken hostname ignore (r ∷ rs) taken =
    records_taken hostname ignore rs (names_taken hostname r.id ignore r.domain_names taken)

pub check_hostname_records_taken : Text → List HostRow → ℕ → Bool
check_hostname_records_taken hostname rows ignore = records_taken hostname ignore rows false

abbrev type_eq : HostType → HostType → Bool
type_eq proxy proxy = true
type_eq redirection redirection = true
type_eq dead dead = true
type_eq _ _ = false

-- The row to ignore in a table: ignore_type === table && ignore_id ? ignore_id : 0
abbrev pub ignored_in : HostType → Option HostType → ℕ → ℕ
ignored_in table none id = 0
ignored_in table (some t) id = if type_eq t table then id else 0

pub record Availability : Type 0 where
  pub is_taken : Bool
  pub reserved : Bool

-- `like` is the match of the database on the text of the column, for `%hostname%`.
module _ (like : Text → HostRow → Bool) where
  pub listed : Text → List HostRow → List HostRow
  listed hostname rows = filter (λ r. not r.is_deleted && like hostname r) rows

  abbrev pub taken_in : Tables → Text → Option HostType → ℕ → Bool
  taken_in w hostname ignore id =
      let proxies =
        check_hostname_records_taken hostname (listed hostname w.proxy_hosts)
          (ignored_in proxy ignore id) in
      let redirections =
        check_hostname_records_taken hostname (listed hostname w.redirection_hosts)
          (ignored_in redirection ignore id) in
      let deads =
        check_hostname_records_taken hostname (listed hostname w.dead_hosts)
          (ignored_in dead ignore id) in
      if deads then true else if redirections then true else if proxies then true else false

  pub is_hostname_taken : (setting : Text) → Tables → Text → Option HostType → ℕ → Availability
  is_hostname_taken setting w hostname ignore id =
      if mem_text (normalize_hostname hostname) (management_hosts setting)
      then record { is_taken = true; reserved = true }
      else record { is_taken = taken_in w hostname ignore id; reserved = false }

-- The loops of `_getHostsWithDomains`.
pub host_has : List Text → Text → Bool → Bool
host_has [] domain found = found
host_has (n ∷ ns) domain found = host_has ns domain (if same_name domain n then true else found)

pub host_matches : List Text → List Text → Bool → Bool
host_matches names [] found = found
host_matches names (d ∷ ds) found = host_matches names ds (host_has names d found)

pub with_domains : List HostRow → List Text → List HostRow → List HostRow
with_domains [] domains response = response
with_domains (h ∷ hs) domains response =
    with_domains hs domains
      (if host_matches h.domain_names domains false then response ++ (h ∷ []) else response)

pub record HostsFound : Type 0 where
  pub total_count : ℕ
  pub hosts : Tables

pub get_hosts_with_domains : Tables → List Text → HostsFound
get_hosts_with_domains w domains =
    let proxies = with_domains (filter (λ r. not r.is_deleted) w.proxy_hosts) domains [] in
    let redirections =
      with_domains (filter (λ r. not r.is_deleted) w.redirection_hosts) domains [] in
    let deads = with_domains (filter (λ r. not r.is_deleted) w.dead_hosts) domains [] in
    record {
      total_count = 0 + length proxies + length redirections + length deads;
      hosts = record {
        proxy_hosts = proxies;
        redirection_hosts = redirections;
        dead_hosts = deads;
      };
    }
