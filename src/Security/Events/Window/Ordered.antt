-- ===== src/Security/Events/Window/Ordered.antt =====
-- Requests in the order of time, and those of them that are recent.
use hyrovi_proxy_manager.Prelude.{
  ℕ, ◌+◌, ◌≤◌, ◌≡◌, refl, sym, ap, Bool, true, false, not, List, [], ◌∷◌, ◌++◌, filter, leb, ltb,
  arith, Bool-cases, inl, inr, All, All-filter,
}
use hyrovi_proxy_manager.Security.Events.Window.{
  Item, Window, remove_from_window, slide, request_context_window_ms, by_time, insert_item,
}

abbrev pub is_recent : ℕ → Item → Bool
is_recent now x = not (ltb (x.time + request_context_window_ms) now)

-- In the order of time.
abbrev pub Ascending : List Item → Type 0
Ascending [] = Unit
Ascending (x ∷ l) = All (λ y. x.time ≤ y.time) l × Ascending l

recent_after :
    (now t : ℕ) (l : List Item)
    → ltb (t + request_context_window_ms) now ≡ false
    → All (λ y. t ≤ y.time) l
    → filter (is_recent now) l ≡ l
recent_after now t [] e h = refl
recent_after now t (y ∷ l) e (p, h) =
    let recent : is_recent now y ≡ true = ground (arith, e, p) in
    rw recent (ap (λ r. y ∷ r) (recent_after now t l e h))

pub slide_recent :
    (now : ℕ) (live : List Item) (w : Window)
    → Ascending live
    → (slide now live w).0 ≡ filter (is_recent now) live
unfolding slide
slide_recent now [] w a = refl
slide_recent now (x ∷ live) w (h, a) =
    elim (Bool-cases (ltb (x.time + request_context_window_ms) now)) [
      | inl e ↦ rw e (slide_recent now live (remove_from_window x w) a)
      | inr e ↦ rw e (sym (ap (λ r. x ∷ r) (recent_after now x.time live e h)))
    ]

pub filter-Ascending : (p : Item → Bool) (l : List Item) → Ascending l → Ascending (filter p l)
filter-Ascending p [] a = tt
filter-Ascending p (x ∷ l) (h, a) = elim (Bool-cases (p x)) [
  | inl e ↦ rw e (All-filter _ p l h, filter-Ascending p l a)
  | inr e ↦ rw e (filter-Ascending p l a)
]

All-prefix : (P : Item → Type 0) (l k : List Item) → All P (l ++ k) → All P l
All-prefix P [] k h = tt
All-prefix P (x ∷ l) k (p, h) = (p, All-prefix P l k h)

pub Ascending-prefix : (l k : List Item) → Ascending (l ++ k) → Ascending l
Ascending-prefix [] k a = tt
Ascending-prefix (x ∷ l) k (h, a) = (All-prefix _ l k h, Ascending-prefix l k a)

pub Ascending-suffix : (l k : List Item) → Ascending (l ++ k) → Ascending k
Ascending-suffix [] k a = a
Ascending-suffix (x ∷ l) k (h, a) = Ascending-suffix l k a

pub recent_recent :
    (before now : ℕ) (l : List Item)
    → before ≤ now
    → filter (is_recent now) (filter (is_recent before) l) ≡ filter (is_recent now) l
recent_recent before now [] h = refl
recent_recent before now (x ∷ l) h =
    elim (Bool-cases (ltb (x.time + request_context_window_ms) before)) [
      | inl e ↦
          let old : ltb (x.time + request_context_window_ms) now ≡ true = ground (arith, e, h) in
          rw e (rw old (recent_recent before now l h))
      | inr e ↦ rw e (elim (Bool-cases (ltb (x.time + request_context_window_ms) now)) [
        | inl f ↦ rw f (recent_recent before now l h)
        | inr f ↦ rw f (ap (λ r. x ∷ r) (recent_recent before now l h))
      ])
    ]

insert_item-All :
    (P : Item → Type 0) (x : Item) (l : List Item) → P x → All P l → All P (insert_item x l)
unfolding insert_item
insert_item-All P x [] p h = (p, tt)
insert_item-All P x (y ∷ l) p (q, h) = elim (Bool-cases (leb x.time y.time)) [
  | inl e ↦ rw e (p, (q, h))
  | inr e ↦ rw e (q, insert_item-All P x l p h)
]

later-All : (s t : ℕ) (l : List Item) → s ≤ t → All (λ z. t ≤ z.time) l → All (λ z. s ≤ z.time) l
later-All s t [] k h = tt
later-All s t (z ∷ l) k (p, h) = (omega (arith, k, p), later-All s t l k h)

insert_item-Ascending : (x : Item) (l : List Item) → Ascending l → Ascending (insert_item x l)
unfolding insert_item
insert_item-Ascending x [] a = (tt, tt)
insert_item-Ascending x (y ∷ l) (h, a) = elim (Bool-cases (leb x.time y.time)) [
  | inl e ↦
      let le : x.time ≤ y.time = ground (arith, e) in
      rw e ((le, later-All x.time y.time l le h), (h, a))
  | inr e ↦ rw e (insert_item-All _ x l (ground (arith, e)) h, insert_item-Ascending x l a)
]

pub by_time-Ascending : (l : List Item) → Ascending (by_time l)
unfolding by_time
by_time-Ascending [] = tt
by_time-Ascending (x ∷ l) = insert_item-Ascending x (by_time l) (by_time-Ascending l)

pub zero-All : (l : List Item) → All (λ y. 0 ≤ y.time) l
zero-All [] = tt
zero-All (x ∷ l) = (omega arith, zero-All l)
