-- ===== src/Security/Rules.antt =====
-- The protection rules of backend/internal/security.js: what is done on each kind of attack.
pub mod Laws
pub mod Validated
mod Tests
use hyrovi_proxy_manager.Prelude.{
  ◌≡◌, refl, Bool, true, false, not, ◌&&◌, ◌||◌, Option, none, some, List, [], ◌∷◌, all,
  if◌then◌else◌, Bool-cases, inl, inr, arith,
}
use hyrovi_proxy_manager.Js.Text.{Text, codes, text_eq}
use hyrovi_proxy_manager.Js.Value.{Value, str, obj, Fields, end, field, prop, is_object}
use hyrovi_proxy_manager.Errors.{Error, validation_error, Result, ok, err}

pub data RuleKey : Type 0 where
  crawler ddos critical_files exploit auth_abuse recon unusual_methods : RuleKey

pub data Action : Type 0 where
  inherit auto observe deny rate_limit challenge block : Action

pub key_text : RuleKey → Text
key_text crawler = codes "crawler"
key_text ddos = codes "ddos"
key_text critical_files = codes "criticalFiles"
key_text exploit = codes "exploit"
key_text auth_abuse = codes "authAbuse"
key_text recon = codes "recon"
key_text unusual_methods = codes "unusualMethods"

pub action_text : Action → Text
action_text inherit = codes "inherit"
action_text auto = codes "auto"
action_text observe = codes "observe"
action_text deny = codes "deny"
action_text rate_limit = codes "rate_limit"
action_text challenge = codes "challenge"
action_text block = codes "block"

abbrev pub rule_keys : List RuleKey
rule_keys = crawler ∷ ddos ∷ critical_files ∷ exploit ∷ auth_abuse ∷ recon ∷ unusual_methods ∷ []

abbrev pub actions : List Action
actions = inherit ∷ auto ∷ observe ∷ deny ∷ rate_limit ∷ challenge ∷ block ∷ []

-- The member of a set of texts that a text is.
find_action : Text → List Action → Option Action
find_action t [] = none
find_action t (a ∷ rest) = if text_eq t (action_text a) then some a else find_action t rest

pub parse_action : Value → Option Action
unfolding find_action
parse_action (str t) = find_action t actions
parse_action _ = none

find_key : Text → List RuleKey → Option RuleKey
find_key t [] = none
find_key t (k ∷ rest) = if text_eq t (key_text k) then some k else find_key t rest

pub parse_key : Text → Option RuleKey
unfolding find_key
parse_key t = find_key t rule_keys

abbrev pub is_inherit : Action → Bool
is_inherit inherit = true
is_inherit _ = false

-- One action to each key.
abbrev pub Rules : Type 0
Rules = RuleKey → Action

abbrev pub default_rules : Rules
default_rules k = auto

-- The action that is taken from the input for one key.
pub chosen_action : Bool → Action → Option Action → Action
chosen_action allow_inherit fallback none = if allow_inherit then inherit else fallback
chosen_action allow_inherit fallback (some a) =
    if allow_inherit || not (is_inherit a) then a else if allow_inherit then inherit else fallback

pub normalize_protection_rules : Value → Rules → Bool → Rules
normalize_protection_rules v fallback allow_inherit k =
    chosen_action allow_inherit (fallback k) (parse_action (prop (key_text k) v))

abbrev pub resolve_action : Action → Action → Action
resolve_action inherit fallback = fallback
resolve_action a fallback = a

pub resolve_rules : Rules → Rules → Rules
resolve_rules rules fallback k = resolve_action (rules k) (fallback k)

pub resolve_protection_rules : Value → Rules → Rules
resolve_protection_rules v fallback =
    resolve_rules (normalize_protection_rules v fallback true) fallback

abbrev pub is_pre_request : RuleKey → Bool
is_pre_request critical_files = true
is_pre_request exploit = true
is_pre_request unusual_methods = true
is_pre_request _ = false

abbrev pub is_deny : Action → Bool
is_deny deny = true
is_deny _ = false

-- The checks on one entry of the object, in the order of the code.
pub check_rule : Bool → Option RuleKey → Option Action → Result (Unit {0})
check_rule allow_inherit none a = err (validation_error (codes "Unknown protection rule"))
check_rule allow_inherit (some k) none = err (validation_error (codes "Invalid action"))
check_rule allow_inherit (some k) (some a) =
    if not allow_inherit && is_inherit a
    then err (validation_error (codes "Invalid action"))
    else if is_deny a && not (is_pre_request k)
    then err (
        validation_error
          (codes "Deny request is not supported; use rate_limit, challenge or block"))
    else ok tt

abbrev pub and_then : Result (Unit {0}) → Result (Unit {0}) → Result (Unit {0})
and_then (ok _) r = r
and_then (err e) r = err e

pub check_entries : Bool → Fields → Result (Unit {0})
check_entries allow_inherit end = ok tt
check_entries allow_inherit (field k v rest) =
    let later = check_entries allow_inherit rest in
    and_then (check_rule allow_inherit (parse_key k) (parse_action v)) later

pub validate_protection_rules_input : Bool → Value → Result (Unit {0})
validate_protection_rules_input allow_inherit (obj fs) = check_entries allow_inherit fs
validate_protection_rules_input allow_inherit _ =
    err (validation_error (codes "Protection rules must be an object"))

-- The object that is stored for a set of rules.
rule_fields : Rules → List RuleKey → Fields
rule_fields rules [] = end
rule_fields rules (k ∷ ks) = field (key_text k) (str (action_text (rules k))) (rule_fields rules ks)

pub rules_value : Rules → Value
unfolding rule_fields
rules_value rules = obj (rule_fields rules rule_keys)

-- No rule is left to a fallback.
abbrev pub Decided : Rules → Type 0
Decided rules = (k : RuleKey) → is_inherit (rules k) ≡ false
