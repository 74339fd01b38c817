-- ===== src/Security/Enforcement/Operations/Tests.antt =====
-- Blocks and rate limits at concrete inputs.
use hyrovi_proxy_manager.Prelude.{ℕ, Bool, true, false, List, [], ◌∷◌, ◌≡◌, refl, none, some}
use hyrovi_proxy_manager.Prelude.Int.{pos}
use hyrovi_proxy_manager.Js.Text.{Text, codes, trim}
use hyrovi_proxy_manager.Js.Value.{str, num, decimal, texts, trimmed, to_text, parse_int}
use hyrovi_proxy_manager.Errors.{ok, control}
use hyrovi_proxy_manager.Security.Targets.{
  normalize_trusted_source, parse_target, parse_parts, parse_prefix, split_slashes, target_text,
}
use hyrovi_proxy_manager.Security.Policy.{int_or}
use hyrovi_proxy_manager.Security.Responses.{Restriction, until, create_block_record}
use hyrovi_proxy_manager.Security.Enforcement.{
  blocks, absent, rows, World, Env, attempt, rows_of, read_rows, write_rows, read_conf, write_conf,
  reload, record_action, record_actions, active_blocks, emergency_bypass_enabled, body_lines,
  render, restore_conf, replace_conf, apply_config, commit_rows, purge_rows, purge_expired,
}
use hyrovi_proxy_manager.Security.Enforcement.Operations.{
  minutes_of, new_row, draw_row, put_row, add_target, add_restriction, Request, add, remove, list,
  refresh, serve,
}
use hyrovi_proxy_manager.Security.Enforcement.Operations.Sound.{OnePerIp, serve-OnePerIp}
use hyrovi_proxy_manager.Security.Enforcement.Operations.Listed.{OnFile, add_restriction-OnFile}

abbrev env : Env
env = record {
  net = record { is_ip = λ t. 4; parts = λ t. 8 ∷ 8 ∷ 8 ∷ 8 ∷ []; in_rule = λ a b ip. false };
  new_id = decimal;
  bypass = [];
}

abbrev world : List Bool → World
world faults = record {
  file = absent;
  conf = none;
  loaded = [];
  log = [];
  faults = faults;
  drawn = 7;
}

abbrev requests : List (ℕ × Request)
requests =
    (1000, add (str (codes "8.8.8.8")) (num (pos 5)) (codes "scan") (codes "manual"))
    ∷ (2000, add (str (codes "8.8.8.8")) (num (pos 9)) (codes "again") (codes "manual"))
    ∷ (900_000, list)
    ∷ (901_000, remove (codes "7"))
    ∷ (902_000, refresh)
    ∷ []

-- The third call of the outside world fails.
serve-OnePerIp_example : OnePerIp (serve env blocks requests (world (false ∷ false ∷ true ∷ [])))
serve-OnePerIp_example = serve-OnePerIp env blocks requests (world (false ∷ false ∷ true ∷ [])) tt

abbrev row : Restriction
row = record {
  id = codes "7";
  ip = codes "8.8.8.8";
  reason = codes "scan";
  source = codes "manual";
  decision = none;
  created_at = some 1000;
  expires_at = until 301_000;
}

abbrev text : Text
text = render env blocks 1000 (row ∷ [])

abbrev after : World
after = record {
  file = rows (row ∷ []);
  conf = some text;
  loaded = text;
  log = (codes "started", row) ∷ [];
  faults = [];
  drawn = 8;
}

added :
    add_restriction env blocks 1000
      (str (codes "8.8.8.8"))
      (num (pos 5))
      (codes "scan")
      (codes "manual")
      (world [])
    ≡ (ok row, after)
unfolding texts control trimmed to_text trim decimal parse_int int_or normalize_trusted_source
    parse_target parse_parts parse_prefix split_slashes target_text create_block_record attempt
    rows_of read_rows write_rows read_conf write_conf reload record_action record_actions
    active_blocks emergency_bypass_enabled body_lines render restore_conf replace_conf apply_config
    commit_rows purge_rows purge_expired minutes_of new_row draw_row put_row add_target
    add_restriction
added = refl

add_restriction-OnFile_example :
    (target : Text) × (normalize_trusted_source env.net (str (codes "8.8.8.8")) ≡ some target)
    × OnFile env blocks 1000 target row after
add_restriction-OnFile_example =
    add_restriction-OnFile env blocks 1000 (str (codes "8.8.8.8")) (num (pos 5)) (codes "scan")
      (codes "manual") (world []) after row added
