-- ===== src/Security/Autopilot/Tests.antt =====
-- Runs of the autopilot on a concrete request.
use hyrovi_proxy_manager.Prelude.{List, [], ◌∷◌, some}
use hyrovi_proxy_manager.Js.Text.{codes}
use hyrovi_proxy_manager.Security.Events.{Event}
use hyrovi_proxy_manager.Security.Autopilot.{SecurityAction}

abbrev probe : Event
probe = record {
  node_id = codes "local";
  request_id = some (codes "r1");
  timestamp = codes "2026-01-01T00:00:00Z";
  time = some 1000;
  ip = codes "8.8.8.8";
  method = codes "GET";
  host = codes "example.org";
  path = codes "/.env";
  status = 404;
  risk = 59;
  automation_risk = some 59;
  signals = record { id = codes "sensitive_file_probe"; score = 55 } ∷ [];
}

abbrev log : List SecurityAction
log =
    record { kind = codes "block"; action = codes "started"; ip = codes "8.8.8.8"; at = some 500 }
    ∷ []
