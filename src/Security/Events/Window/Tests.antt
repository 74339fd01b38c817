-- ===== src/Security/Events/Window/Tests.antt =====
-- The window over concrete requests.
use hyrovi_proxy_manager.Prelude.{List, [], ◌∷◌, ◌≡◌}
use hyrovi_proxy_manager.Js.Text.{codes}
use hyrovi_proxy_manager.Security.Events.Window.{Item, by_time, request_contexts}
use hyrovi_proxy_manager.Security.Events.Window.Equal.{
  counted_contexts, request_contexts-counted_contexts,
}

-- The last request comes 61 seconds after the first, which stands second in the log.
abbrev requests : List Item
requests =
    record { index = 0; path = codes "/b"; status = 404; time = 5000; base_automation_risk = 0 }
    ∷ record { index = 1; path = codes "/a"; status = 401; time = 1000; base_automation_risk = 35 }
    ∷ record {
      index = 2;
      path = codes "/b";
      status = 404;
      time = 62_000;
      base_automation_risk = 60;
    }
    ∷ []

request_contexts-counted_contexts_example :
    request_contexts requests ≡ counted_contexts [] (by_time requests)
request_contexts-counted_contexts_example = request_contexts-counted_contexts requests
