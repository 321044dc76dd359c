-- ===== src/Bridge/Payload.antt =====
-- `json.Unmarshal` of a payload as cmd/bridge/queue.go and
-- internal/api/sync_handler.go use it. The payloads that the hub writes name
-- each member once and in lower case, so that neither Go's choice among equal names nor its
-- disregard of case matters.
use bear_sync.Prelude.{String, Option, none, some, List, [], lookup}
use bear_sync.Models.WriteQueue.{text, texts, Payload, object, malformed}

-- A member of a Go struct with the type `string`, and with the type `[]string`: the zero value
-- where the object lacks it, `none` for an error.
unfoldable pub string_field : String → Payload → Option String
string_field k (malformed t) = none
string_field k (object m) = elim (lookup k m) [
  | none ↦ some ""
  | some (text v) ↦ some v
  | some (texts v) ↦ none
]

unfoldable pub strings_field : String → Payload → Option (List String)
strings_field k (malformed t) = none
strings_field k (object m) = elim (lookup k m) [
  | none ↦ some []
  | some (text v) ↦ none
  | some (texts v) ↦ some v
]

-- `v, _ := m[k].(string)` of a `map[string]any`, where an object that is none has no members.
unfoldable pub any_string : String → Payload → String
any_string k (malformed t) = ""
any_string k (object m) = elim (lookup k m) [ none ↦ "" | some (text v) ↦ v | some (texts v) ↦ "" ]
