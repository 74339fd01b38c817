-- ===== src/Security/Events/Enrich/Tests.antt =====
-- The score of concrete requests.
use hyrovi_proxy_manager.Prelude.{[], ◌∷◌, none, some, All, arith, refl}
use hyrovi_proxy_manager.Js.Text.{codes, text_eq}
use hyrovi_proxy_manager.Security.Events.Enrich.{Analyzed, enrich_events}
use hyrovi_proxy_manager.Security.Events.Enrich.Laws.{IsSound, InScale, enrich_events-InScale}

abbrev probe : Analyzed
probe = record {
  event = record {
    node_id = codes "local";
    request_id = none;
    timestamp = codes "2026-01-01T00:00:00Z";
    time = some 1000;
    ip = codes "8.8.8.8";
    method = codes "GET";
    host = codes "example.org";
    path = codes "/.env";
    status = 404;
    risk = 0;
    automation_risk = none;
    signals = [];
  };
  index = 0;
  base = record {
    risk = 59;
    automation_risk = 59;
    signals =
        record { id = codes "sensitive_file_probe"; score = 55 }
        ∷ record { id = codes "not_found"; score = 4 }
        ∷ [];
  };
}

sound : IsSound probe.base
unfolding text_eq
sound = record { within = omega arith; distinct = (refl, (refl, tt)) }

enrich_events-InScale_example : All (λ e. InScale e.event) (enrich_events (probe ∷ []))
enrich_events-InScale_example = enrich_events-InScale (probe ∷ []) (sound, tt)
