-- ===== src/Security/Events.antt =====
-- The requests that backend/internal/security.js judges, once they are read from the access log and
-- scored, and the identity by which one is told from another. Times are in milliseconds.
pub mod Memory
pub mod Window
pub mod Enrich
use hyrovi_proxy_manager.Prelude.{
  ℕ, zero, suc, Bool, true, false, ◌||◌, Option, none, some, List, [], ◌∷◌, ◌++◌, any, ◌==◌,
  if◌then◌else◌,
}
use hyrovi_proxy_manager.Js.Text.{Text, codes, text_eq, is_empty, join}
use hyrovi_proxy_manager.Js.Value.{decimal}

-- What was found in a request. A soft signal never counts towards an automatic response.
pub record Signal : Type 0 where
  pub id : Text
  pub score : ℕ

-- `timestamp` is the text of the log, and `time` what `parseTimestamp` makes of it.
pub record Event : Type 0 where
  pub node_id : Text
  pub request_id : Option Text
  pub timestamp : Text
  pub time : Option ℕ
  pub ip : Text
  pub method : Text
  pub host : Text
  pub path : Text
  pub status : ℕ
  pub risk : ℕ
  pub automation_risk : Option ℕ
  pub signals : List Signal

-- event.automationRisk ?? event.risk
abbrev pub risk_for_response : Event → ℕ
risk_for_response e = elim e.automation_risk [ none ↦ e.risk | some n ↦ n ]

-- ids.has(id)
abbrev pub has_signal : Text → Event → Bool
has_signal id e = any (λ s. text_eq s.id id) e.signals

-- parseTimestamp(event.timestamp)?.getTime() || Date.now()
abbrev pub event_time : ℕ → Event → ℕ
event_time now e = elim e.time [ none ↦ now | some t ↦ if t == 0 then now else t ]

abbrev pub request_base : Event → Text
request_base e =
    join (codes "|") (e.timestamp ∷ e.ip ∷ e.method ∷ e.host ∷ e.path ∷ decimal e.status ∷ [])

pub event_identity : Event → Text
unfolding decimal join
event_identity e =
    (if is_empty e.node_id then codes "local" else e.node_id) ++ codes "|" ++ elim e.request_id [
      | none ↦ request_base e
      | some id ↦ if is_empty id then request_base e else id
    ]
