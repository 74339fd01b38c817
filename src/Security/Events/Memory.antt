-- ===== src/Security/Events/Memory.antt =====
-- The requests that the monitor has judged already, and those that are archived:
-- rememberEvent and rememberArchivedEvent of backend/internal/security.js.
pub mod Refinement
mod Tests
use hyrovi_proxy_manager.Prelude.{
  ℕ, zero, suc, Bool, true, false, not, List, [], ◌∷◌, ◌++◌, length, filter, ltb, if◌then◌else◌,
}
use hyrovi_proxy_manager.Js.Text.{Text, text_eq, mem_text}
use hyrovi_proxy_manager.Security.Events.{Event, event_identity}

-- The set, and the queue that says which member is the oldest.
pub record Memory : Type 0 where
  pub ids : List Text
  pub order : List Text

abbrev pub no_memory : Memory
no_memory = record { ids = []; order = [] }

abbrev pub processed_event_limit : ℕ
processed_event_limit = 5000

abbrev pub archived_event_id_limit : ℕ
archived_event_id_limit = 100_000

-- Set.prototype.delete
abbrev pub forget : Text → List Text → List Text
forget t l = filter (λ x. not (text_eq x t)) l

-- The while loop: the oldest goes as long as there are too many.
pub evict : ℕ → List Text → List Text → Memory
unfolding text_eq
evict limit [] ids = record { ids = ids; order = [] }
evict limit (t ∷ order) ids =
    let rest = evict limit order (forget t ids) in
    if ltb limit (length (t ∷ order)) then rest else record { ids = ids; order = t ∷ order }

pub remember_id : ℕ → Text → Memory → Bool × Memory
unfolding text_eq
remember_id limit id m =
    if mem_text id m.ids
    then (false, m)
    else (true, evict limit (m.order ++ (id ∷ [])) (m.ids ++ (id ∷ [])))

pub remember_event : Event → Memory → Bool × Memory
remember_event e m = remember_id processed_event_limit (event_identity e) m

pub remember_archived_event : Event → Memory → Bool × Memory
remember_archived_event e m = remember_id archived_event_id_limit (event_identity e) m

-- The new ones of a list of requests, and the memory after it.
pub fresh_events : List Event → Memory → List Event × Memory
fresh_events [] m = ([], m)
fresh_events (e ∷ es) m =
    let (new, m1) = remember_event e m in
    let (rest, m2) = fresh_events es m1 in (if new then e ∷ rest else rest, m2)
