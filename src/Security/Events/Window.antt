-- ===== src/Security/Events/Window.antt =====
-- The requests of one source within 60 seconds, as enrichEvents of backend/internal/security.js counts
-- them: one pass over the requests in the order of time, with counters that move along.
pub mod Counts
pub mod Shows
pub mod Ordered
pub mod Equal
mod Tests
use hyrovi_proxy_manager.Prelude.{
  ℕ, zero, suc, ◌+◌, ◌-◌, ◌==◌, Bool, true, false, ◌||◌, List, [], ◌∷◌, ◌++◌, length, leb, ltb,
  if◌then◌else◌,
}
use hyrovi_proxy_manager.Js.Text.{Text, text_eq}

-- A request with a time, and what its own signals add up to.
pub record Item : Type 0 where
  pub index : ℕ
  pub path : Text
  pub status : ℕ
  pub time : ℕ
  pub base_automation_risk : ℕ

abbrev pub request_context_window_ms : ℕ
request_context_window_ms = 60_000

-- list.sort by time, which is stable.
pub insert_item : Item → List Item → List Item
insert_item x [] = x ∷ []
insert_item x (y ∷ l) =
    let later = insert_item x l in if leb x.time y.time then x ∷ y ∷ l else y ∷ later

pub by_time : List Item → List Item
by_time [] = []
by_time (x ∷ l) = insert_item x (by_time l)

-- The Maps from paths to counts: set(path, (get(path) || 0) + 1), and one less, or delete.
pub bump : Text → List (Text × ℕ) → List (Text × ℕ)
unfolding text_eq
bump p [] = (p, 1) ∷ []
bump p ((q, n) ∷ m) = let later = bump p m in if text_eq q p then (q, suc n) ∷ m else (q, n) ∷ later

pub release : Text → List (Text × ℕ) → List (Text × ℕ)
unfolding text_eq
release p [] = []
release p ((q, n) ∷ m) =
    let later = release p m in
    if text_eq q p then (if leb n 1 then m else (q, n - 1) ∷ m) else (q, n) ∷ later

pub record Window : Type 0 where
  pub denied : ℕ
  pub missing : ℕ
  pub path_counts : List (Text × ℕ)
  pub suspicious_path_counts : List (Text × ℕ)

abbrev pub empty_window : Window
empty_window = record { denied = 0; missing = 0; path_counts = []; suspicious_path_counts = [] }

-- [401, 403].includes(status)
abbrev pub is_denied : Item → Bool
is_denied x = x.status == 401 || x.status == 403

abbrev pub is_missing : Item → Bool
is_missing x = x.status == 404

abbrev pub is_suspicious : Item → Bool
is_suspicious x = leb 30 x.base_automation_risk

pub add_to_window : Item → Window → Window
add_to_window x w = record {
  denied = if is_denied x then w.denied + 1 else w.denied;
  missing = if is_missing x then w.missing + 1 else w.missing;
  path_counts = bump x.path w.path_counts;
  suspicious_path_counts =
      if is_suspicious x then bump x.path w.suspicious_path_counts else w.suspicious_path_counts;
}

pub remove_from_window : Item → Window → Window
remove_from_window x w = record {
  denied = if is_denied x then w.denied - 1 else w.denied;
  missing = if is_missing x then w.missing - 1 else w.missing;
  path_counts = release x.path w.path_counts;
  suspicious_path_counts =
      if is_suspicious x then release x.path w.suspicious_path_counts else w.suspicious_path_counts;
}

-- The while loop: `live` holds list[startIndex] to list[endIndex].
pub slide : ℕ → List Item → Window → List Item × Window
slide now [] w = ([], w)
slide now (x ∷ live) w =
    let rest = slide now live (remove_from_window x w) in
    if ltb (x.time + request_context_window_ms) now then rest else (x ∷ live, w)

pub record Context : Type 0 where
  pub requests : ℕ
  pub denied : ℕ
  pub missing : ℕ
  pub unique_paths : ℕ
  pub suspicious_paths : ℕ

abbrev pub context_of_window : List Item → Window → Context
context_of_window live w = record {
  requests = length live;
  denied = w.denied;
  missing = w.missing;
  unique_paths = length w.path_counts;
  suspicious_paths = length w.suspicious_path_counts;
}

-- The for loop over the list of one source.
pub window_contexts : List Item → List Item → Window → List Context
window_contexts [] live w = []
window_contexts (x ∷ items) live w =
    let (live1, w1) = slide x.time (live ++ (x ∷ [])) (add_to_window x w) in
    context_of_window live1 w1 ∷ window_contexts items live1 w1

-- The contexts of a source's requests, in the order of time.
pub request_contexts : List Item → List Context
request_contexts items = window_contexts (by_time items) [] empty_window
