-- ===== src/Security/Endpoints.antt =====
-- The rules for paths of a host, of backend/internal/security.js: the modes, the normal form of a path,
-- and the list of rules of any JSON value.
pub mod Order
use hyrovi_proxy_manager.Prelude.{
  ℕ, zero, suc, ◌+◌, ◌≤◌, ◌≡◌, refl, Bool, true, false, not, ◌&&◌, ◌||◌, Option, none, some, List,
  [], ◌∷◌, ◌++◌, map, any, all, take, filter, leb, ltb, ◌==◌, if◌then◌else◌, length, min, max,
}
use hyrovi_proxy_manager.Js.Text.{Text, codes, text_eq, trim, is_empty, includes_unit}
use hyrovi_proxy_manager.Js.Value.{
  Value, undefined, null, bool, num, arr, str, obj, items, trimmed, prop, is_object,
}

pub data Mode : Type 0 where
  off observe protect strict : Mode

unfoldable pub mode_text : Mode → Text
mode_text off = codes "off"
mode_text observe = codes "observe"
mode_text protect = codes "protect"
mode_text strict = codes "strict"

-- HOST_POLICY_MODES.has(v)
unfoldable pub parse_mode : Value → Option Mode
unfolding text_eq mode_text
parse_mode (str t) =
    if text_eq t (mode_text off)
    then some off
    else if text_eq t (mode_text observe)
    then some observe
    else if text_eq t (mode_text protect)
    then some protect
    else if text_eq t (mode_text strict)
    then some strict
    else none
parse_mode _ = none

pub record EndpointRule : Type 0 where
  pub path_prefix : Text
  pub mode : Mode

abbrev pub max_endpoint_rules_per_host : ℕ
max_endpoint_rules_per_host = 50

-- The part of a path before a query or a fragment: .split(/[?#]/, 1)[0]
unfoldable pub before_query : Text → Text
before_query [] = []
before_query (c ∷ s) =
    let rest = before_query s in if (c == b'?') || (c == b'#') then [] else c ∷ rest

abbrev pub starts_with_slash : Text → Bool
starts_with_slash [] = false
starts_with_slash (c ∷ s) = c == b'/'

abbrev pub with_slash : Text → Text
with_slash s = if starts_with_slash s then s else b'/' ∷ s

-- .replace(/\/{2,}/g, "/")
unfoldable pub collapse_slashes : Text → Text
collapse_slashes [] = []
collapse_slashes (c ∷ s) =
    let rest = collapse_slashes s in if (c == b'/') && starts_with_slash s then rest else c ∷ rest

-- .replace(/\/+$/, "")
unfoldable pub strip_slashes : Text → Text
strip_slashes [] = []
strip_slashes (c ∷ s) =
    let rest = strip_slashes s in if (c == b'/') && is_empty rest then [] else c ∷ rest

abbrev pub strip_if_long : Text → Text
strip_if_long s = if ltb 1 (length s) then strip_slashes s else s

unfoldable pub normalize_endpoint_path_prefix : Value → Option Text
unfolding trimmed includes_unit
normalize_endpoint_path_prefix v =
    let path = trimmed v in
    if is_empty path || includes_unit path 10 || includes_unit path 13
    then none
    else (let normal = strip_if_long (collapse_slashes (with_slash (before_query path))) in
        if leb (length normal) 200 then some normal else none)

-- One round of the loop of `normalizeEndpointRules`: the paths seen and the rules so far.
abbrev pub add_rule : Option Text → Option Mode → List EndpointRule → List EndpointRule
add_rule none m rules = rules
add_rule (some p) none rules = rules
add_rule (some p) (some m) rules =
    if any (λ r. text_eq r.path_prefix p) rules
    then rules
    else rules ++ (record { path_prefix = p; mode = m } ∷ [])

unfoldable pub endpoint_loop : List Value → List EndpointRule → List EndpointRule
unfolding text_eq
endpoint_loop [] rules = rules
endpoint_loop (v ∷ vs) rules = endpoint_loop vs (
    if is_object v
    then add_rule (normalize_endpoint_path_prefix (prop (codes "pathPrefix") v))
        (parse_mode (prop (codes "mode") v)) rules
    else rules)

-- The stable sort by length, longest first.
unfoldable pub insert_rule : EndpointRule → List EndpointRule → List EndpointRule
insert_rule r [] = r ∷ []
insert_rule r (x ∷ rest) =
    if leb (length x.path_prefix) (length r.path_prefix)
    then r ∷ x ∷ rest
    else x ∷ insert_rule r rest

unfoldable pub longest_first : List EndpointRule → List EndpointRule
longest_first [] = []
longest_first (r ∷ rest) = insert_rule r (longest_first rest)

unfoldable pub normalize_endpoint_rules : Value → List EndpointRule
normalize_endpoint_rules (arr vs) =
    longest_first (endpoint_loop (take max_endpoint_rules_per_host (items vs)) [])
normalize_endpoint_rules _ = []
