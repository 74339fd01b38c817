-- ===== src/Security/Events/Memory/Tests.antt =====
-- Runs of the memory on concrete requests.
use hyrovi_proxy_manager.Prelude.{List, [], ◌∷◌, refl, some, map, arith}
use hyrovi_proxy_manager.Js.Text.{Text, codes}
use hyrovi_proxy_manager.Js.Texts.{Distinct}
use hyrovi_proxy_manager.Security.Events.{Event, event_identity}
use hyrovi_proxy_manager.Security.Events.Memory.{no_memory, fresh_events}
use hyrovi_proxy_manager.Security.Events.Memory.Refinement.{
  AgreesAll, latest_events, fresh_events-latest_events, fresh_events-Distinct,
}

abbrev request : Text → Event
request id = record {
  node_id = codes "local";
  request_id = some id;
  timestamp = codes "2026-01-01T00:00:00Z";
  time = some 1000;
  ip = codes "8.8.8.8";
  method = codes "GET";
  host = codes "example.org";
  path = codes "/";
  status = 404;
  risk = 20;
  automation_risk = some 20;
  signals = [];
}

abbrev requests : List Event
requests = request (codes "a") ∷ request (codes "b") ∷ request (codes "a") ∷ []

fresh_events-latest_events_example :
    AgreesAll (latest_events requests []) (fresh_events requests no_memory)
fresh_events-latest_events_example =
    fresh_events-latest_events requests [] no_memory
      (record { order = refl; members = λ t. refl; distinct = tt })

fresh_events-Distinct_example : Distinct (map event_identity (fresh_events requests no_memory).0)
fresh_events-Distinct_example = fresh_events-Distinct requests (omega arith)
