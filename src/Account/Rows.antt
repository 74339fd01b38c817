-- ===== src/Account/Rows.antt =====
-- Properties of every row that the queries keep, and what a patch shows to a later query.
use hyrovi_proxy_manager.Prelude.{
  ℕ, ◌≡◌, refl, subst, Bool, true, false, ◌&&◌, inl, inr, Option, some, List, [], ◌∷◌, arith, find?,
  ◌==◌, All, Bool-cases,
}
use hyrovi_proxy_manager.Hoare.{
  Ensures, Any, Outcome, Ensures-bind, Ensures-pure, Ensures-throw, Ensures-option,
}
use hyrovi_proxy_manager.Account.{
  User, Meta, Auth, World, query, draw, find_auth, belongs_to, patch_rows, patch_meta,
  get_user_password_auth,
}

-- An invariant that reads the rows alone.
abbrev pub OfRows : (List User → List Auth → Type 0) → World → Type 0
OfRows P w = P w.users w.auths

module _ (P : List User → List Auth → Type 0) where
  pub query-OfRows : Ensures (OfRows P) (Any (OfRows P)) query
  unfolding query
  query-OfRows = record { run = λ w i. go w.users w.auths w.draws w.faults i }
    where
      go :
          (u : List User) (l : List Auth) (d : ℕ) (bs : List Bool)
          → P u l
          → Outcome
              (OfRows P)
              (Any (OfRows P))
              (query (record { users = u; auths = l; faults = bs; draws = d }))
      go u l d [] i = (tt, i)
      go u l d (true ∷ bs) i = i
      go u l d (false ∷ bs) i = (tt, i)

  pub draw-OfRows : Ensures (OfRows P) (λ _. Unit {0}) draw
  unfolding draw
  draw-OfRows = record { run = λ w i. (tt, i) }

  -- The row that a query by the user gives.
  pub find_auth-OfRows :
      (user : ℕ) (Q : Option Auth → Type 0)
      → ((u : List User) (l : List Auth) → P u l → Q (find? (belongs_to user) l))
      → Ensures (OfRows P) Q (find_auth user)
  unfolding find_auth
  find_auth-OfRows user Q h =
      Ensures-bind _ query-OfRows (λ _ _. record { run = λ w i. (h w.users w.auths i, i) })

  pub get_user_password_auth-OfRows :
      (user : ℕ) (Q : Auth → Type 0)
      → ((u : List User) (l : List Auth) (a : Auth)
          → P u l
          → find? (belongs_to user) l ≡ some a
          → Q a)
      → Ensures (OfRows P) Q (get_user_password_auth user)
  unfolding get_user_password_auth
  get_user_password_auth-OfRows user Q h =
      Ensures-bind _
        (find_auth-OfRows user (λ o. (a : Auth) → o ≡ some a → Q a) (λ u l i a e. h u l a i e))
        (λ o q. Ensures-option _ o (λ _. Ensures-throw _ _) (λ a e. Ensures-pure _ a (q a e)))

  pub patch_meta-OfRows :
      (id user : ℕ) (m : Meta)
      → ((u : List User) (l : List Auth) → P u l → P u (patch_rows id user m l))
      → Ensures (OfRows P) (Any (OfRows P)) (patch_meta id user m)
  unfolding patch_meta
  patch_meta-OfRows id user m h =
      Ensures-bind _ query-OfRows (λ _ _. record { run = λ w i. (tt, h w.users w.auths i) })

module _ (P : Meta → Type 0) where
  abbrev pub EveryMeta : List User → List Auth → Type 0
  EveryMeta u l = All (λ a. P a.meta) l

  pub find-EveryMeta :
      (user : ℕ) (l : List Auth) {a : Auth}
      → All (λ b. P b.meta) l
      → find? (belongs_to user) l ≡ some a
      → P a.meta
  find-EveryMeta user [] h e = cc
  find-EveryMeta user (b ∷ l) {a} (p, h) e = elim (Bool-cases (belongs_to user b)) [
    | inl f ↦ let same : b ≡ a = ground (arith, e, f) in subst {A = Auth} (λ c. P c.meta) same p
    | inr f ↦
        let later : find? (belongs_to user) l ≡ some a = ground (arith, e, f) in
        find-EveryMeta user l h later
  ]

  pub patch_rows-EveryMeta :
      (id user : ℕ) (m : Meta) (l : List Auth)
      → P m
      → All (λ a. P a.meta) l
      → All (λ a. P a.meta) (patch_rows id user m l)
  unfolding patch_rows
  patch_rows-EveryMeta id user m [] new h = tt
  patch_rows-EveryMeta id user m (a ∷ l) new (p, h) =
      elim (Bool-cases ((a.id == id) && belongs_to user a)) [
        | inl f ↦ rw f (new, patch_rows-EveryMeta id user m l new h)
        | inr f ↦ rw f (p, patch_rows-EveryMeta id user m l new h)
      ]

-- After a patch of the row that a query gives, the query gives the patched row.
pub find-patch_rows :
    (user : ℕ) (m : Meta) (l : List Auth) {a : Auth}
    → find? (belongs_to user) l ≡ some a
    → find? (belongs_to user) (patch_rows a.id user m l) ≡ some (record a { meta = m })
unfolding patch_rows
find-patch_rows user m [] e = cc
find-patch_rows user m (b ∷ l) {a} e = elim (Bool-cases (belongs_to user b)) [
  | inl f ↦
      let same : b ≡ a = ground (arith, e, f) in
      let itself : (b.id == b.id) ≡ true = ground arith in
      subst {A = Auth}
        (λ c.
          find? (belongs_to user) (patch_rows c.id user m (b ∷ l)) ≡ some (record c { meta = m }))
        same (rw (itself, f) (rw f refl))
  | inr f ↦
      let there : find? (belongs_to user) l ≡ some a = ground (arith, e, f) in
      let later = find-patch_rows user m l there in
      let other : ((b.id == a.id) && belongs_to user b) ≡ false = ground (arith, f) in
      rw other (rw f later)
]
