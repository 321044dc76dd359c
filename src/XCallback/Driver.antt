-- ===== src/XCallback/Driver.antt =====
-- `Xcall` of internal/xcallback/xcallback.go. The program bear-xcall is unknown: a function of the
-- state of the machine and the arguments. `url.Values.Encode`, which sorts the parameters, base64,
-- JSON and the conversion of a text to bytes are parameters. The log is left out.
use Prim.Native.Char.{code}
use Prim.Native.String.{[] as empty, ◌∷◌ as ◌::◌, ◌++◌ as ◌<>◌}
use bear_sync.Prelude.{
  ℕ, String, Option, none, some, List, [], ◌∷◌, nat_eq, ltb, length, if◌then◌else◌, true, false,
}
use bear_sync.Bridge.Bear.{Problem, Fallible, fails, gives, Done}

-- `xcallResult` less its title and note, which nothing reads; of the error code only whether it is 0
-- matters.
pub record XcallResult : Type 0 where
  pub identifier : String
  pub error_code : ℕ
  pub error_msg : String

-- A call of bear-xcall: its arguments, and what it reads from stdin if it does.
pub record Command : Type 0 where
  pub args : List String
  pub stdin : Option String

pub record Machine : Type 1 where
  pub World : Type 0
  pub run : World → Command → World × Fallible (List ℕ)
  pub encode : List (String × String) → String
  pub base64 : List ℕ → String
  pub unmarshal : List ℕ → Option XcallResult

abbrev pub max_add_file_size : ℕ
max_add_file_size = 5242880

-- An error that is no `BearError`.
abbrev pub plain : String → Problem
plain msg = record { is_bear = false; msg = msg }

-- `strings.ReplaceAll(…, "+", "%20")`
unfoldable pub percent_spaces : String → String
percent_spaces empty = ""
percent_spaces (c :: s) =
    let rest = percent_spaces s in if nat_eq (code c) 43 then "%20" <> rest else c :: rest

-- With `strings.Join(tags, ",")`.
unfoldable pub join_commas : List String → String
join_commas [] = ""
join_commas (t ∷ []) = t
join_commas (t ∷ u ∷ tags) = t <> ("," <> join_commas (u ∷ tags))

module _ (M : Machine) where
  -- `encodeParams`
  unfoldable pub call_url : String → List (String × String) → String
  unfolding percent_spaces
  call_url action params =
      "bear://x-callback-url/" <> (action <> ("?" <> percent_spaces (M.encode params)))

  unfoldable pub parse_xcall_result : List ℕ → Option XcallResult
  parse_xcall_result [] = some (record { identifier = ""; error_code = 0; error_msg = "" })
  parse_xcall_result (b ∷ output) = M.unmarshal (b ∷ output)

  -- What a call returns of the output: the result, unless it has an error code.
  unfoldable pub checked : Fallible (List ℕ) → Fallible XcallResult
  unfolding parse_xcall_result
  checked (fails e) = fails e
  checked (gives output) = elim (parse_xcall_result output) [
    | none ↦ fails (plain "invalid bear-xcall JSON response")
    | some r ↦
        if nat_eq r.error_code 0
        then gives r
        else fails (record { is_bear = true; msg = r.error_msg })
  ]

  abbrev pub to_done : Fallible XcallResult → Fallible Done
  to_done (fails e) = fails e
  to_done (gives r) = gives Done.done

  abbrev pub to_identifier : Fallible XcallResult → Fallible String
  to_identifier (fails e) = fails e
  to_identifier (gives r) = gives r.identifier

  abbrev pub url_command : String → Command
  url_command url = record { args = "-url" ∷ url ∷ []; stdin = none }

  -- `executeAction`, which the other calls write out.
  unfoldable pub execute_action : M.World → String → M.World × Fallible Done
  unfolding checked
  execute_action s url = let (s', out) = M.run s (url_command url) in (s', to_done (checked out))

  module _ (token : String) where
    abbrev pub tags_param : List String → List (String × String)
    tags_param [] = []
    tags_param (t ∷ tags) = ("tags", join_commas (t ∷ tags)) ∷ []

    unfoldable pub create : M.World → String → String → List String → M.World × Fallible String
    unfolding checked call_url join_commas
    create s title body tags =
        let url = call_url "create" (
          ("token", token)
          ∷ ("title", title)
          ∷ ("text", body)
          ∷ ("show_window", "no")
          ∷ ("open_note", "no")
          ∷ tags_param tags) in
        let (s', out) = M.run s (url_command url) in (s', to_identifier (checked out))

    unfoldable pub update : M.World → String → String → M.World × Fallible Done
    unfolding execute_action call_url
    update s bear_id body = execute_action s (
        call_url "add-text" (
          ("token", token)
          ∷ ("id", bear_id)
          ∷ ("text", body)
          ∷ ("mode", "replace")
          ∷ ("show_window", "no")
          ∷ ("open_note", "no")
          ∷ []))

    unfoldable pub add_tag : M.World → String → String → M.World × Fallible Done
    unfolding execute_action call_url
    add_tag s bear_id tag = execute_action s (
        call_url "add-text" (
          ("token", token)
          ∷ ("id", bear_id)
          ∷ ("tags", tag)
          ∷ ("show_window", "no")
          ∷ ("open_note", "no")
          ∷ []))

    -- The parameters of `Trash` and `Archive`.
    abbrev pub note_params : String → List (String × String)
    note_params bear_id = ("token", token) ∷ ("id", bear_id) ∷ ("show_window", "no") ∷ []

    unfoldable pub trash : M.World → String → M.World × Fallible Done
    unfolding execute_action call_url
    trash s bear_id = execute_action s (call_url "trash" (note_params bear_id))

    unfoldable pub archive : M.World → String → M.World × Fallible Done
    unfolding execute_action call_url
    archive s bear_id = execute_action s (call_url "archive" (note_params bear_id))

    -- The URL is piped, since it may be too long for an argument.
    unfoldable pub add_file : M.World → String → String → List ℕ → M.World × Fallible Done
    unfolding checked call_url
    add_file s bear_id filename file =
        let url = call_url "add-file" (
          ("token", token)
          ∷ ("id", bear_id)
          ∷ ("filename", filename)
          ∷ ("file", M.base64 file)
          ∷ ("show_window", "no")
          ∷ ("open_note", "no")
          ∷ []) in
        let ran = M.run s (record { args = "-url" ∷ "-" ∷ []; stdin = some url }) in
        if ltb max_add_file_size (length file)
        then (s, fails (plain "bear-xcall add-file: file exceeds the limit"))
        else (ran.0, to_done (checked ran.1))

    unfoldable pub rename_tag : M.World → String → String → M.World × Fallible Done
    unfolding execute_action call_url
    rename_tag s old_name new_name = execute_action s (
        call_url "rename-tag" (
          ("token", token)
          ∷ ("name", old_name)
          ∷ ("new_name", new_name)
          ∷ ("show_window", "no")
          ∷ []))

    unfoldable pub delete_tag : M.World → String → M.World × Fallible Done
    unfolding execute_action call_url
    delete_tag s name =
        execute_action s
          (call_url "delete-tag" (("token", token) ∷ ("name", name) ∷ ("show_window", "no") ∷ []))
