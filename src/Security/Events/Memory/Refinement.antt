-- ===== src/Security/Events/Memory/Refinement.antt =====
-- The memory of judged requests implements a plain list of the latest identities.
use hyrovi_proxy_manager.Prelude.{
  ℕ, zero, suc, ◌+◌, ◌-◌, ◌≤◌, ◌<◌, ◌≡◌, refl, sym, ◌∙◌, ap, Bool, true, false, not, ◌&&◌, List, [],
  ◌∷◌, ◌++◌, length, drop, map, ltb, if◌then◌else◌, arith, Bool-cases, inl, inr, length-append,
  subst,
}
use mathlib.Core.List.{append_assoc, append-nil}
use hyrovi_proxy_manager.Js.Text.{Text, text_eq, text_eq→eq, text_eq_sym, mem_text}
use hyrovi_proxy_manager.Js.Texts.{Distinct, text_eq-mem_text, mem_append, append-Distinct}
use hyrovi_proxy_manager.Security.Events.{Event, event_identity}
use hyrovi_proxy_manager.Security.Events.Memory.{
  Memory, no_memory, forget, evict, remember_id, remember_event, fresh_events,
  processed_event_limit,
}

-- The specification: a new identity is put last, and only the last `limit` are kept.
pub latest : ℕ → Text → List Text → Bool × List Text
unfolding text_eq
latest limit id l =
    if mem_text id l then (false, l) else (true, drop ((length l + 1) - limit) (l ++ (id ∷ [])))

pub latest_events : List Event → List Text → List Event × List Text
latest_events [] l = ([], l)
latest_events (e ∷ es) l =
    let (new, l1) = latest processed_event_limit (event_identity e) l in
    let (rest, l2) = latest_events es l1 in (if new then e ∷ rest else rest, l2)

-- The queue is the list, and the set has its members.
pub record Represents (l : List Text) (m : Memory) : Type 0 where
  pub order : m.order ≡ l
  pub members : (t : Text) → mem_text t m.ids ≡ mem_text t l
  pub distinct : Distinct l

drop-Distinct : (n : ℕ) (l : List Text) → Distinct l → Distinct (drop n l)
drop-Distinct zero l d = d
drop-Distinct (suc n) [] d = d
drop-Distinct (suc n) (t ∷ l) (_, d) = drop-Distinct n l d

forget_mem :
    (t u : Text) (l : List Text) → mem_text t (forget u l) ≡ mem_text t l && not (text_eq u t)
forget_mem t u [] = refl
forget_mem t u (x ∷ l) = elim (Bool-cases (text_eq x u)) [
  | inl e ↦
      let same : text_eq x t ≡ text_eq u t = ap (λ y. text_eq y t) (text_eq→eq x u e) in
      ground (arith, forget_mem t u l)
  | inr e ↦ elim (Bool-cases (text_eq x t)) [
    | inl f ↦
        let back : text_eq u t ≡ false =
          text_eq_sym t u (sym (ap (λ y. text_eq y u) (text_eq→eq x t f)) ∙ e) in
        ground (arith, forget_mem t u l)
    | inr f ↦ ground (arith, forget_mem t u l)
  ]
]

evict-Represents :
    (limit : ℕ) (l ids : List Text)
    → Distinct l
    → ((t : Text) → mem_text t ids ≡ mem_text t l)
    → Represents (drop (length l - limit) l) (evict limit l ids)
unfolding evict
evict-Represents limit [] ids d h =
    let nothing : 0 - limit ≡ 0 = omega arith in
    rw nothing (record { order = refl; members = h; distinct = tt })
evict-Represents limit (u ∷ l) ids (n, d) h = elim (Bool-cases (ltb limit (length (u ∷ l)))) [
  | inl e ↦
      let one_more : suc (length l) - limit ≡ suc (length l - limit) = ground (arith, e) in
      rw e (rw one_more (evict-Represents limit l (forget u ids) d (λ t. kept t)))
  | inr e ↦
      let none_more : suc (length l) - limit ≡ 0 = ground (arith, e) in
      rw e (rw none_more (record { order = refl; members = h; distinct = (n, d) }))
]
  where
    kept : (t : Text) → mem_text t (forget u ids) ≡ mem_text t l
    kept t = elim (Bool-cases (text_eq u t)) [
      | inl e ↦ ground (arith, forget_mem t u ids, h t, n, text_eq-mem_text u t l e)
      | inr e ↦ ground (arith, forget_mem t u ids, h t)
    ]

-- One identity: the same answer, and the same memory after it.
abbrev Agrees : Bool × List Text → Bool × Memory → Type 0
Agrees (a, l) (b, m) = (b ≡ a) × Represents l m

remember_id-latest :
    (limit : ℕ) (id : Text) (l : List Text) (m : Memory)
    → Represents l m
    → Agrees (latest limit id l) (remember_id limit id m)
unfolding latest remember_id
remember_id-latest limit id l m r = elim (Bool-cases (mem_text id l)) [
  | inl e ↦ rw e (rw (r.members id ∙ e) (refl, r))
  | inr e ↦
      let size : length (l ++ (id ∷ [])) ≡ length l + 1 = length-append l (id ∷ []) in
      rw e (
        rw (r.members id ∙ e) (
          refl,
          rw (sym size) (
              rw r.order (
                evict-Represents limit (l ++ (id ∷ [])) (m.ids ++ (id ∷ []))
                  (append-Distinct id l e r.distinct)
                  (λ t. ground (arith, mem_append t id m.ids, mem_append t id l, r.members t)))),
        ))
]

abbrev pub AgreesAll : List Event × List Text → List Event × Memory → Type 0
AgreesAll (es, l) (fs, m) = (fs ≡ es) × Represents l m

-- Over any sequence of requests, the monitor finds new exactly those that a plain list of the latest
-- 5000 identities finds new, and its memory goes on standing for that list.
pub fresh_events-latest_events :
    (es : List Event) (l : List Text) (m : Memory)
    → Represents l m
    → AgreesAll (latest_events es l) (fresh_events es m)
unfolding latest_events fresh_events remember_event
fresh_events-latest_events [] l m r = (refl, r)
fresh_events-latest_events (e ∷ es) l m r =
    step (fresh_events-latest_events es) _ _
      (remember_id-latest processed_event_limit (event_identity e) l m r)
  where
    step :
        ((l1 : List Text) (m1 : Memory)
          → Represents l1 m1
          → AgreesAll (latest_events es l1) (fresh_events es m1))
        → (x : Bool × List Text) (y : Bool × Memory) → Agrees x y
        → AgreesAll
            (
              if x.0 then e ∷ (latest_events es x.1).0 else (latest_events es x.1).0,
              (latest_events es x.1).1,
            )
            (
              if y.0 then e ∷ (fresh_events es y.1).0 else (fresh_events es y.1).0,
              (fresh_events es y.1).1,
            )
    step go (a, l1) (b, m1) (same, r1) =
        let (rest, r2) = go l1 m1 r1 in rw same (rw rest (refl, r2))

-- Nothing is dropped while there is room.
latest_room :
    (limit : ℕ) (id : Text) (l : List Text)
    → length l < limit
    → (latest limit id l).1 ≡ (if (latest limit id l).0 then l ++ (id ∷ []) else l)
unfolding latest
latest_room limit id l h = elim (Bool-cases (mem_text id l)) [
  | inl e ↦ rw e refl
  | inr e ↦
      let none_over : (length l + 1) - limit ≡ 0 = omega (arith, h) in rw e (rw none_over refl)
]

latest_events_room :
    (es : List Event) (l : List Text)
    → length l + length es ≤ processed_event_limit
    → (latest_events es l).1 ≡ l ++ map event_identity (latest_events es l).0
unfolding latest_events
latest_events_room [] l h = sym (append-nil l)
latest_events_room (e ∷ es) l h =
    step (latest_events_room es) _
      (latest_room processed_event_limit (event_identity e) l (omega (arith, h)))
  where
    step :
        ((k : List Text)
          → length k + length es ≤ processed_event_limit
          → (latest_events es k).1 ≡ k ++ map event_identity (latest_events es k).0)
        → (x : Bool × List Text) → x.1 ≡ (if x.0 then l ++ (event_identity e ∷ []) else l)
        → (latest_events es x.1).1
          ≡ l
            ++ map event_identity
                (if x.0 then e ∷ (latest_events es x.1).0 else (latest_events es x.1).0)
    step go (true, k) same = rw same (
        go (l ++ (event_identity e ∷ []))
          (omega (arith, h, length-append l (event_identity e ∷ [])))
        ∙ append_assoc l (event_identity e ∷ []) _)
    step go (false, k) same = rw same (go l (omega (arith, h)))

-- A monitor that starts with no memory never finds a request new twice among 5000.
pub fresh_events-Distinct :
    (es : List Event)
    → length es ≤ processed_event_limit
    → Distinct (map event_identity (fresh_events es no_memory).0)
fresh_events-Distinct es h =
    distinct _ _ (fresh_events-latest_events es [] no_memory start)
      (latest_events_room es [] (omega (arith, h)))
  where
    start : Represents [] no_memory
    start = record { order = refl; members = λ t. refl; distinct = tt }

    distinct :
        (x : List Event × List Text) (y : List Event × Memory)
        → AgreesAll x y
        → x.1 ≡ map event_identity x.0
        → Distinct (map event_identity y.0)
    distinct (fs, l) (gs, m) (same, r) room = rw same (subst Distinct room r.distinct)
