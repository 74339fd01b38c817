-- ===== src/Hosts/Tests.antt =====
-- Runs on hosts, and the theorems on them at concrete inputs.
use hyrovi_proxy_manager.Prelude.{
  ◌≡◌, Bool, true, false, ◌||◌, ◌+◌, some, [], ◌∷◌, any, filter, length,
}
use hyrovi_proxy_manager.Js.Text.{Text, codes, mem_text}
use hyrovi_proxy_manager.Js.Value.{Fields, end, field, bool, num}
use hyrovi_proxy_manager.Prelude.Int.{pos}
use hyrovi_proxy_manager.Hosts.{
  HostRow, Tables, proxy, redirection, dead, same_name, normalize_hostname, management_hosts,
  is_hostname_taken, ignored_in, get_hosts_with_domains, clean_ssl_hsts_data,
}
use hyrovi_proxy_manager.Hosts.Names.{
  FindsNames, clashes, uses_any, is_hostname_taken-clashes, get_hosts_with_domains-uses_any,
}
use hyrovi_proxy_manager.Hosts.Ssl.{IsConsistent, clean_ssl_hsts_data-IsConsistent}

abbrev tables : Tables
tables = record {
  proxy_hosts = record { id = 4; is_deleted = false; domain_names = codes "A.example" ∷ [] } ∷ [];
  redirection_hosts =
      record { id = 4; is_deleted = true; domain_names = codes "b.example" ∷ [] } ∷ [];
  dead_hosts = [];
}

-- A database that finds just the rows with the name.
abbrev exact : Text → HostRow → Bool
exact hostname r = any (λ n. same_name n hostname) r.domain_names

exact-FindsNames : FindsNames exact
exact-FindsNames hostname r e = e

is_hostname_taken-clashes_example :
    (is_hostname_taken exact [] tables (codes "a.EXAMPLE") (some redirection) 4).is_taken ≡ (
      mem_text (normalize_hostname (codes "a.EXAMPLE")) (management_hosts [])
      || any
          (clashes (codes "a.EXAMPLE") (ignored_in proxy (some redirection) 4))
          tables.proxy_hosts
      || any
          (clashes (codes "a.EXAMPLE") (ignored_in redirection (some redirection) 4))
          tables.redirection_hosts
      || any (clashes (codes "a.EXAMPLE") (ignored_in dead (some redirection) 4)) tables.dead_hosts)
is_hostname_taken-clashes_example =
    is_hostname_taken-clashes exact [] tables (codes "a.EXAMPLE") (some redirection) 4
      exact-FindsNames

get_hosts_with_domains-uses_any_example :
    ((get_hosts_with_domains tables (codes "a.example" ∷ [])).hosts ≡ record {
      proxy_hosts = filter (uses_any (codes "a.example" ∷ [])) tables.proxy_hosts;
      redirection_hosts = filter (uses_any (codes "a.example" ∷ [])) tables.redirection_hosts;
      dead_hosts = filter (uses_any (codes "a.example" ∷ [])) tables.dead_hosts;
    })
    × ((get_hosts_with_domains tables (codes "a.example" ∷ [])).total_count
        ≡ length (filter (uses_any (codes "a.example" ∷ [])) tables.proxy_hosts)
          + length (filter (uses_any (codes "a.example" ∷ [])) tables.redirection_hosts)
          + length (filter (uses_any (codes "a.example" ∷ [])) tables.dead_hosts))
get_hosts_with_domains-uses_any_example =
    get_hosts_with_domains-uses_any tables (codes "a.example" ∷ [])

abbrev fresh : Fields
fresh = field (codes "certificate_id") (num (pos 0)) (field (codes "hsts_enabled") (bool true) end)

clean_ssl_hsts_data-IsConsistent_example :
    IsConsistent (clean_ssl_hsts_data fresh (field (codes "ssl_forced") (bool true) end))
clean_ssl_hsts_data-IsConsistent_example =
    clean_ssl_hsts_data-IsConsistent fresh (field (codes "ssl_forced") (bool true) end)
