-- ===== src/Api/Tokens.antt =====
-- `ParseConsumerTokens` of internal/api/token_parser.go and `authMiddleware` with
-- `matchConsumerToken` of internal/api/server.go. A Go map is an association list; the order in
-- which Go ranges over it, which may be any, is an argument.
use Prim.Native.Char.{Char, code}
use Prim.Native.String.{[] as empty, ◌∷◌ as ◌::◌, len, slice}
use bear_sync.Prelude.{
  ℕ, String, Bool, ◌||◌, Option, none, some, List, [], ◌∷◌, ◌==◌, nat_eq, ltb, not, ◌&&◌, matches,
  lookup, put, if◌then◌else◌,
}
use text.Mathlib.Text.{starts_with}
use bear_sync.Api.Title.{trim_space}

-- Go's `fmt.Errorf` of the parser.
pub data TokenError : Type 0 where
  no_tokens : TokenError
  bad_format empty_part : String → TokenError
  duplicate_name : String → TokenError
  duplicate_token : String → String → TokenError

pub data Parsed : Type 0 where
  rejects : TokenError → Parsed
  parsed : List (String × String) → Parsed

abbrev pub is_comma : Char → Bool
is_comma c = nat_eq (code c) 44

abbrev pub is_colon : Char → Bool
is_colon c = nat_eq (code c) 58

-- A character before the first of the parts.
abbrev pub onto_first : Char → List String → List String
onto_first c [] = (c :: empty) ∷ []
onto_first c (part ∷ parts) = (c :: part) ∷ parts

-- `strings.Split` at the characters that satisfy `p`.
unfoldable pub split_at : (Char → Bool) → String → List String
split_at p empty = "" ∷ []
split_at p (c :: s) = let rest = split_at p s in if p c then "" ∷ rest else onto_first c rest

-- The texts before and after the first colon: `strings.Index(entry, ":")` with the two slices.
unfoldable pub cut_colon : String → Option (String × String)
cut_colon empty = none
cut_colon (c :: s) =
    let rest = cut_colon s in
    if is_colon c
    then some ("", s)
    else elim rest [ none ↦ none | some (before, after) ↦ some (c :: before, after) ]

-- The loop over the entries, with `result` and `seenTokens`.
unfoldable pub parse_entries :
    List String → List (String × String) → List (String × String) → Parsed
unfolding cut_colon trim_space
parse_entries [] result seen = parsed result
parse_entries (e ∷ entries) result seen =
    let entry = trim_space e in
    elim (cut_colon entry) [
      | none ↦ rejects (bad_format entry)
      | some (before, after) ↦
          let name = trim_space before in
          let token = trim_space after in
          let more = parse_entries entries (put name token result) (put token name seen) in
          if name == "" || token == ""
          then rejects (empty_part entry)
          else elim (lookup name result) [
            | some t ↦ rejects (duplicate_name name)
            | none ↦ elim (lookup token seen) [
              | some other ↦ rejects (duplicate_token other name)
              | none ↦ more
            ]
          ]
    ]

unfoldable pub parse_consumer_tokens : String → Parsed
unfolding parse_entries split_at trim_space
parse_consumer_tokens raw =
    let text = trim_space raw in
    if text == "" then rejects no_tokens else parse_entries (split_at is_comma text) [] []

-- The loop, from the name that matched so far, over the names in the order of the range.
unfoldable pub match_names : List (String × String) → String → String → List String → String
match_names tokens token matched [] = matched
match_names tokens token matched (name ∷ names) =
    match_names tokens token (if matches (lookup name tokens) token then name else matched) names

unfoldable pub match_consumer_token : List (String × String) → List String → String → String
unfolding match_names
match_consumer_token tokens order token = match_names tokens token "" order

-- The scopes of the routes.
pub data Scope : Type 0 where
  consumer bridge any : Scope
  other : String → Scope

-- An error, or the request goes on, with the consumer that the context then has.
pub data Access : Type 0 where
  denied : ℕ → String → Access
  granted : Option String → Access

-- The token of the header `Bearer …`, of which there is at least one character.
unfoldable pub bearer_token : String → Option String
bearer_token header =
    if ltb (len header) 8 || not (starts_with header "Bearer ")
    then none
    else some (slice header 7 (len header))

abbrev pub by_scope : Scope → String → String → String → Access
by_scope consumer name bridge_token token =
    if name == "" then denied 403 "invalid token for consumer scope" else granted (some name)
by_scope bridge name bridge_token token =
    if token == bridge_token then granted none else denied 403 "invalid token for bridge scope"
by_scope any name bridge_token token =
    if name == "" && not (token == bridge_token) then denied 403 "invalid token" else granted none
by_scope (other s) name bridge_token token = denied 500 "unknown auth scope"

unfoldable pub auth_middleware :
    List (String × String) → String → Scope → List String → String → Access
unfolding bearer_token match_consumer_token
auth_middleware tokens bridge_token scope order header = elim (bearer_token header) [
  | none ↦ denied 401 "missing or invalid authorization header"
  | some token ↦ by_scope scope (match_consumer_token tokens order token) bridge_token token
]
