-- ===== src/Devices/Protocol.antt =====
-- backend/internal/security_device_protocol.js: the text that a device signs. `JSON.stringify` is
-- written out for texts, numbers and truth values.
use hyrovi_proxy_manager.Prelude.{
  ℕ, ◌+◌, ◌-◌, ◌/◌, ◌%◌, Bool, true, false, List, [], ◌∷◌, ◌++◌, ltb, ◌==◌, if◌then◌else◌,
}
use hyrovi_proxy_manager.Js.Text.{Text, codes, join}
use hyrovi_proxy_manager.Js.Value.{
  Value, undefined, null, bool, num, str, arr, obj, Items, nil, cons, Fields, end, field, decimal,
  decimal_ℤ, or_else,
}

-- The order of texts by code units, which `sort()` uses.
unfoldable pub text_leb : Text → Text → Bool
text_leb [] t = true
text_leb (c ∷ s) [] = false
text_leb (c ∷ s) (d ∷ t) = if c == d then text_leb s t else ltb c d

-- The entries of an object with their texts, in key order.
abbrev pub Entries : Type 0
Entries = List (Text × Text)

unfoldable pub insert_entry : Text × Text → Entries → Entries
unfolding text_leb
insert_entry e [] = e ∷ []
insert_entry e (f ∷ rest) = if text_leb e.0 f.0 then e ∷ (f ∷ rest) else f ∷ insert_entry e rest

abbrev hex_digit : ℕ → ℕ
hex_digit n = if ltb n 10 then b'0' + n else b'a' + (n - 10)

-- One unit of a quoted text. A lone surrogate, which JSON.stringify escapes, is left as it is.
quote_unit : ℕ → Text
quote_unit c =
    if c == b'"'
    then codes "\\\""
    else if c == 92
    then codes "\\\\"
    else if c == 8
    then codes "\\b"
    else if c == 9
    then codes "\\t"
    else if c == 10
    then codes "\\n"
    else if c == 12
    then codes "\\f"
    else if c == 13
    then codes "\\r"
    else if ltb c 32
    then codes "\\u00" ++ (hex_digit (c / 16) ∷ hex_digit (c % 16) ∷ [])
    else c ∷ []

quote_units : Text → Text
unfolding quote_unit
quote_units [] = []
quote_units (c ∷ s) = quote_unit c ++ quote_units s

-- JSON.stringify of a text.
unfoldable pub quote : Text → Text
unfolding quote_units
quote s = b'"' ∷ (quote_units s ++ (b'"' ∷ []))

entry_text : Text × Text → Text
entry_text e = quote e.0 ++ (codes ":" ++ e.1)

entry_lines : Entries → List Text
unfolding entry_text
entry_lines [] = []
entry_lines (e ∷ rest) = entry_text e ∷ entry_lines rest

mutual
  unfolding entry_lines join decimal_ℤ insert_entry

  pub stable_json : Value → Text
  stable_json undefined = codes "null"
  stable_json null = codes "null"
  stable_json (bool true) = codes "true"
  stable_json (bool false) = codes "false"
  stable_json (num z) = decimal_ℤ z
  stable_json (str s) = quote s
  stable_json (arr vs) = codes "[" ++ (join (codes ",") (stable_items vs) ++ codes "]")
  stable_json (obj fs) =
      codes "{" ++ (join (codes ",") (entry_lines (sorted_entries fs)) ++ codes "}")

  pub stable_items : Items → List Text
  stable_items nil = []
  stable_items (cons v vs) = stable_json v ∷ stable_items vs

  -- The keys in order, without those whose value is undefined.
  pub sorted_entries : Fields → Entries
  sorted_entries end = []
  sorted_entries (field k undefined fs) = sorted_entries fs
  sorted_entries (field k null fs) = insert_entry (k, codes "null") (sorted_entries fs)
  sorted_entries (field k (bool b) fs) = insert_entry (k, stable_json (bool b)) (sorted_entries fs)
  sorted_entries (field k (num z) fs) = insert_entry (k, stable_json (num z)) (sorted_entries fs)
  sorted_entries (field k (str s) fs) = insert_entry (k, stable_json (str s)) (sorted_entries fs)
  sorted_entries (field k (arr vs) fs) = insert_entry (k, stable_json (arr vs)) (sorted_entries fs)
  sorted_entries (field k (obj gs) fs) = insert_entry (k, stable_json (obj gs)) (sorted_entries fs)

-- [SIGNATURE_CONTEXT, deviceId, sequence, timestamp, bodyHash].join("\n")
unfoldable pub signing_message : (Text → Text) → Text → ℕ → ℕ → Value → Text
unfolding join decimal stable_json
signing_message sha256_hex device_id sequence timestamp body = join (codes "\n") (
    codes "HYROVI-SEC-DEVICE-V1"
    ∷ device_id
    ∷ decimal sequence
    ∷ decimal timestamp
    ∷ sha256_hex (stable_json (or_else body (obj end)))
    ∷ [])
