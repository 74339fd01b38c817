-- ===== src/Security/Events/Enrich.antt =====
-- enrichEvents of backend/internal/security.js: what the requests of a source within 60 seconds add to
-- the risk of each. The labels of signals, which are texts for the user, are left out.
pub mod Laws
mod Tests
use hyrovi_proxy_manager.Prelude.{
  ℕ, zero, suc, ◌+◌, ◌==◌, Bool, true, false, ◌&&◌, ◌||◌, Option, none, some, List, [], ◌∷◌, ◌++◌,
  any, filter, map, min, leb, if◌then◌else◌,
}
use hyrovi_proxy_manager.Js.Text.{Text, codes, text_eq, is_empty}
use hyrovi_proxy_manager.Security.Events.{Event, Signal}
use hyrovi_proxy_manager.Security.Events.Window.{Item, Context, by_time, request_contexts}

-- What `baseSignals` and the rules of the operator find in the request alone.
pub record Score : Type 0 where
  pub risk : ℕ
  pub automation_risk : ℕ
  pub signals : List Signal

pub record Analyzed : Type 0 where
  pub event : Event
  pub index : ℕ
  pub base : Score

pub data Severity : Type 0 where
  normal low medium high critical : Severity

pub record Enriched : Type 0 where
  pub event : Event
  pub severity : Severity

abbrev pub has_id : Text → List Signal → Bool
has_id id signals = any (λ s. text_eq s.id id) signals

-- `add`: a signal is counted once.
pub add_signal : Text → ℕ → Score → Score
unfolding text_eq
add_signal id score s = if has_id id s.signals then s else record {
  risk = s.risk + score;
  automation_risk = s.automation_risk + score;
  signals = s.signals ++ (record { id = id; score = score } ∷ []);
}

pub add_if : Bool → Text → ℕ → Score → Score
add_if b id score s = if b then add_signal id score s else s

pub add_bursts : Context → Score → Score
add_bursts c s = add_if (leb 20 c.missing && leb 15 c.unique_paths) (codes "crawler_404_sweep") 35 (
    add_if (leb 50 c.requests && leb 30 c.unique_paths) (codes "crawler_path_sweep") 35 (
      add_if (leb 5 c.suspicious_paths) (codes "reconnaissance_burst") 35 (
        add_if (leb 20 c.missing) (codes "path_enumeration") 25 (
          add_if (leb 10 c.denied) (codes "auth_failure_burst") 35 (
            add_if (leb 300 c.requests) (codes "extreme_request_burst") 35
              (add_if (leb 100 c.requests) (codes "request_burst") 25 s))))))

pub is_crawler_attack : Context → List Signal → Bool
unfolding text_eq
is_crawler_attack c l =
    (has_id (codes "scanner_user_agent") l
      && (has_id (codes "sensitive_file_probe") l
          || has_id (codes "cms_probe") l
          || has_id (codes "path_enumeration") l
          || has_id (codes "reconnaissance_burst") l
          || has_id (codes "injection_probe") l))
    || (has_id (codes "crawler_path_sweep") l
        && (has_id (codes "crawler_404_sweep") l
            || has_id (codes "path_enumeration") l
            || has_id (codes "reconnaissance_burst") l
            || has_id (codes "sensitive_file_probe") l
            || has_id (codes "cms_probe") l
            || has_id (codes "injection_probe") l))
    || (has_id (codes "extreme_request_burst") l
        && (has_id (codes "declared_crawler") l || has_id (codes "automation_client") l)
        && leb 3 c.suspicious_paths)

pub severity_of : ℕ → Severity
severity_of risk =
    if leb 80 risk
    then critical
    else if leb 60 risk
    then high
    else if leb 40 risk
    then medium
    else if leb 20 risk
    then low
    else normal

-- Without a context none of the counts reaches a limit.
abbrev pub no_context : Context
no_context = record {
  requests = 0;
  denied = 0;
  missing = 0;
  unique_paths = 0;
  suspicious_paths = 0;
}

abbrev pub or_no_context : Option Context → Context
or_no_context none = no_context
or_no_context (some c) = c

pub score_of : Context → Score → Score
score_of c base =
    let s = add_bursts c base in
    add_if (is_crawler_attack c s.signals) (codes "crawler_attack") 55 s

pub enrich_event : Option Context → Analyzed → Enriched
enrich_event recent a =
    let s = score_of (or_no_context recent) a.base in
    record {
      event = record a.event {
        risk = min 100 s.risk;
        automation_risk = some (min 100 s.automation_risk);
        signals = s.signals;
      };
      severity = severity_of (min 100 s.risk);
    }

-- The requests of one address that have a time.
pub items_of : Text → List Analyzed → List Item
unfolding text_eq
items_of ip [] = []
items_of ip (a ∷ rest) =
    let later = items_of ip rest in
    elim a.event.time [
      | none ↦ later
      | some t ↦
          if text_eq a.event.ip ip
          then record {
            index = a.index;
            path = a.event.path;
            status = a.event.status;
            time = t;
            base_automation_risk = a.base.automation_risk;
          }
            ∷ later
          else later
    ]

-- contextByIndex.get(index)
pub find_context : ℕ → List Item → List Context → Option Context
find_context i [] cs = none
find_context i (x ∷ xs) [] = none
find_context i (x ∷ xs) (c ∷ cs) = if x.index == i then some c else find_context i xs cs

pub recent_context : List Analyzed → Analyzed → Option Context
recent_context analyzed a =
    let items = items_of a.event.ip analyzed in
    if is_empty a.event.ip
    then none
    else find_context a.index (by_time items) (request_contexts items)

pub enrich_events : List Analyzed → List Enriched
enrich_events analyzed = map (λ a. enrich_event (recent_context analyzed a) a) analyzed
