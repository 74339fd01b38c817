-- ===== src/Security/Monitor/Tests.antt =====
-- A round of the monitor over concrete requests.
use hyrovi_proxy_manager.Prelude.{true, false, List, [], ◌∷◌, none, some}
use hyrovi_proxy_manager.Js.Text.{Text, codes}
use hyrovi_proxy_manager.Js.Value.{bool, obj, field, end, decimal}
use hyrovi_proxy_manager.Security.Targets.{Net}
use hyrovi_proxy_manager.Security.Events.{Event}
use hyrovi_proxy_manager.Security.Policy.{Policy, normalize_policy}
use hyrovi_proxy_manager.Security.HostContext.{create_host_policy_context}
use hyrovi_proxy_manager.Security.Monitor.{Start, start_round}
use hyrovi_proxy_manager.Security.Monitor.Loop.{monitor_events}
use hyrovi_proxy_manager.Security.Monitor.Spared.{Spares, monitor_events-Spares}
use hyrovi_proxy_manager.Security.Monitor.Once.{AtMostOnce, monitor_events-AtMostOnce}

abbrev net : Net
net = record { is_ip = λ t. 4; parts = λ t. 8 ∷ 8 ∷ 8 ∷ 8 ∷ []; in_rule = λ a b ip. false }

abbrev policy : Policy
policy = normalize_policy net (obj (field (codes "autoBlockEnabled") (bool true) end))

abbrev start : Start
start = record {
  net = net;
  policy = policy;
  context =
      create_host_policy_context policy
        (record { id = 1; domain_names = codes "example.org" ∷ [] } ∷ []) [];
  blocks = [];
  rate_limits = [];
  challenges = [];
  actions = [];
  now = 5000;
  new_id = decimal;
}

abbrev attack_from : Text → Event
attack_from ip = record {
  node_id = codes "local";
  request_id = none;
  timestamp = codes "2026-01-01T00:00:00Z";
  time = some 4000;
  ip = ip;
  method = codes "GET";
  host = codes "example.org";
  path = codes "/../../etc/passwd";
  status = 404;
  risk = 100;
  automation_risk = some 100;
  signals =
      record { id = codes "sensitive_file_probe"; score = 55 }
      ∷ record { id = codes "path_traversal"; score = 60 }
      ∷ [];
}

abbrev attacks : List Event
attacks =
    attack_from (codes "8.8.8.8")
    ∷ attack_from (codes "8.8.8.8")
    ∷ attack_from (codes "9.9.9.9")
    ∷ []

monitor_events-Spares_example : Spares start (monitor_events start attacks (start_round start []))
monitor_events-Spares_example = monitor_events-Spares start attacks []

monitor_events-AtMostOnce_example :
    AtMostOnce start (monitor_events start attacks (start_round start []))
monitor_events-AtMostOnce_example = monitor_events-AtMostOnce start attacks []
