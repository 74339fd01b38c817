-- ===== src/Hosts/Ssl.antt =====
-- cleanSslHstsData of backend/internal/host.js: the fields on SSL.
use hyrovi_proxy_manager.Prelude.{
  ◌≡◌, refl, ap, sym, ◌∙◌, false, inl, inr, arith, if◌then◌else◌, Bool-cases,
}
use hyrovi_proxy_manager.Js.Text.{Text, codes, text_eq, text_eq_iff, text_eq_refl}
use hyrovi_proxy_manager.Js.Value.{Value, Fields, end, field, bool, lookup_field, truthy}
use hyrovi_proxy_manager.Hosts.{
  set_field, assign, has, without_certificate, off_unless, clean_ssl_hsts_data,
}

pub lookup-set_field :
    (k name : Text) (v : Value) (fs : Fields)
    → lookup_field k (set_field name v fs) ≡ (if text_eq name k then v else lookup_field k fs)
unfolding set_field
lookup-set_field k name v end = refl
lookup-set_field k name v (field j u fs) =
    ground
      (arith, lookup-set_field k name v fs, text_eq_iff j name, text_eq_iff j k, text_eq_iff name k)

-- No HTTP/2 and no forced SSL without a certificate, no HSTS without forced SSL, and no HSTS for
-- subdomains without HSTS.
pub record IsConsistent (fs : Fields) : Type 0 where
  pub forced : has (codes "certificate_id") fs ≡ false → has (codes "ssl_forced") fs ≡ false
  pub http2 : has (codes "certificate_id") fs ≡ false → has (codes "http2_support") fs ≡ false
  pub hsts : has (codes "ssl_forced") fs ≡ false → has (codes "hsts_enabled") fs ≡ false
  pub subdomains : has (codes "hsts_enabled") fs ≡ false → has (codes "hsts_subdomains") fs ≡ false

has-set_field :
    (k name : Text) (fs : Fields)
    → has k (set_field name (bool false) fs) ≡ (if text_eq name k then false else has k fs)
has-set_field k name fs =
    ap truthy (lookup-set_field k name (bool false) fs)
    ∙ elim (Bool-cases (text_eq name k)) [ inl e ↦ rw e refl | inr e ↦ rw e refl ]

-- Another field than the one switched off.
has-off_unless :
    (cond name k : Text) (fs : Fields)
    → text_eq name k ≡ false
    → has k (off_unless cond name fs) ≡ has k fs
has-off_unless cond name k fs other = elim (Bool-cases (has cond fs)) [
  | inl e ↦ rw e refl
  | inr e ↦ rw e (has-set_field k name fs ∙ rw other refl)
]

off_unless_off :
    (cond name : Text) (fs : Fields)
    → text_eq name cond ≡ false
    → has cond (off_unless cond name fs) ≡ false
    → has name (off_unless cond name fs) ≡ false
off_unless_off cond name fs other h = elim (Bool-cases (has cond fs)) [
  | inl e ↦ let on = sym (has-off_unless cond name cond fs other) ∙ h in cc
  | inr e ↦ rw e (has-set_field name name fs ∙ rw (text_eq_refl name) refl)
]

module _ (fs : Fields) where
  certificate-kept :
      has (codes "certificate_id") (without_certificate fs) ≡ has (codes "certificate_id") fs
  unfolding text_eq
  certificate-kept = elim (Bool-cases (has (codes "certificate_id") fs)) [
    | inl e ↦ rw e e
    | inr e ↦ rw e (
        has-set_field (codes "certificate_id") (codes "http2_support") _
        ∙ (has-set_field (codes "certificate_id") (codes "ssl_forced") fs ∙ e))
  ]

  unforced :
      has (codes "certificate_id") fs ≡ false
      → (has (codes "ssl_forced") (without_certificate fs) ≡ false)
        × (has (codes "http2_support") (without_certificate fs) ≡ false)
  unfolding text_eq
  unforced e = rw e (
    has-set_field (codes "ssl_forced") (codes "http2_support") _
        ∙ has-set_field (codes "ssl_forced") (codes "ssl_forced") fs,
    has-set_field (codes "http2_support") (codes "http2_support") _,
  )

-- Whatever is merged into whatever host, in the cleaned host SSL is not forced and HTTP/2 not
-- supported without a certificate, there is no HSTS without forced SSL, and none for subdomains
-- without HSTS.
pub clean_ssl_hsts_data-IsConsistent :
    (fresh existing : Fields) → IsConsistent (clean_ssl_hsts_data fresh existing)
unfolding clean_ssl_hsts_data text_eq
clean_ssl_hsts_data-IsConsistent fresh existing =
    let f1 = without_certificate (assign (assign end existing) fresh) in
    let f2 = off_unless (codes "ssl_forced") (codes "hsts_enabled") f1 in
    let same =
      λ (k : Text) (a : text_eq (codes "hsts_enabled") k ≡ false)
          (b : text_eq (codes "hsts_subdomains") k ≡ false).
        has-off_unless (codes "hsts_enabled") (codes "hsts_subdomains") k f2 b
        ∙ has-off_unless (codes "ssl_forced") (codes "hsts_enabled") k f1 a in
    let bare = λ (e : has (codes "certificate_id") (clean_ssl_hsts_data fresh existing) ≡ false).
      unforced (assign (assign end existing) fresh) (
        sym (certificate-kept (assign (assign end existing) fresh))
        ∙ (sym (same (codes "certificate_id") refl refl) ∙ e)) in
    record {
      forced = λ e. same (codes "ssl_forced") refl refl ∙ (bare e).0;
      http2 = λ e. same (codes "http2_support") refl refl ∙ (bare e).1;
      hsts = λ e.
          has-off_unless (codes "hsts_enabled") (codes "hsts_subdomains") (codes "hsts_enabled") f2
            refl
          ∙ off_unless_off (codes "ssl_forced") (codes "hsts_enabled") f1 refl (
              sym (
                has-off_unless (codes "hsts_enabled") (codes "hsts_subdomains") (codes "ssl_forced")
                  f2 refl)
              ∙ e);
      subdomains = off_unless_off (codes "hsts_enabled") (codes "hsts_subdomains") f2 refl;
    }
