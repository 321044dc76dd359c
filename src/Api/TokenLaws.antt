-- ===== src/Api/TokenLaws.antt =====
-- Proofs about the consumer tokens of internal/api/token_parser.go and internal/api/server.go.
use bear_sync.Prelude.{
  String, true, false, ◌||◌, Option, none, some, List, [], ◌∷◌, ◌==◌, ◌≡◌, ◌↔◌, refl, sym, ap, ◌∙◌,
  ◌⊎◌, inl, inr, arith, eq_iff, str_eq_self, matches, lookup, put, lookup-put, any, Bool-cases,
  Option-cases, some_injective, if◌then◌else◌,
}
use mathlib.Core.Path.{subst}
use bear_sync.Api.Title.{trim_space}
use bear_sync.Api.Tokens.{
  parsed, is_comma, cut_colon, split_at, parse_entries, parse_consumer_tokens, match_names,
  match_consumer_token,
}

-- `seen` knows the name of each token, and no name is empty.
abbrev IsSeen : List (String × String) → List (String × String) → Type 0
IsSeen result seen =
    (n t : String) → lookup n result ≡ some t → (lookup t seen ≡ some n) × ((n == "") ≡ false)

IsSeen-put :
    (name token : String) (result seen : List (String × String))
    → (name == "") ≡ false
    → lookup token seen ≡ none
    → IsSeen result seen
    → IsSeen (put name token result) (put token name seen)
IsSeen-put name token result seen named fresh h = λ n t e.
    let after = sym (lookup-put name n token result) ∙ e in
    elim (Bool-cases (name == n)) [
      | inl same ↦
          let which : token ≡ t = some_injective (rw same at after) in
          let who = (eq_iff name n).0 same in
          (
            ap (λ x. lookup x (put token name seen)) (sym which)
                ∙ lookup-put token token name seen
                ∙ rw (str_eq_self token) (ap some who),
            ap (λ x. x == "") (sym who) ∙ named,
          )
      | inr differ ↦
          let (known, full) = h n t (rw differ at after) in
          elim (Bool-cases (token == t)) [
            | inl same ↦ cc (ap (λ x. lookup x seen) ((eq_iff token t).0 same), fresh, known)
            | inr apart ↦ (lookup-put token t name seen ∙ rw apart known, full)
          ]
    ]

parse_entries-IsSeen :
    (entries : List String) (result seen : List (String × String)) {tokens : List (String × String)}
    → IsSeen result seen
    → parse_entries entries result seen ≡ parsed tokens
    → (final : List (String × String)) × IsSeen tokens final
unfolding parse_entries
parse_entries-IsSeen [] result seen {tokens} h run =
    let same : result ≡ tokens = cc in (seen, subst (λ x. IsSeen x seen) same h)
parse_entries-IsSeen (e ∷ entries) result seen h run =
    elim (Option-cases (cut_colon (trim_space e))) [
      | inl bad ↦ cc (rw (bad, parse_entries) at run)
      | inr ((before, after), cut) ↦
          let name = trim_space before in
          let token = trim_space after in
          elim (Bool-cases (name == "" || token == "")) [
            | inl part ↦ cc (rw (cut, part, parse_entries) at run)
            | inr whole ↦ elim (Option-cases (lookup name result)) [
              | inr (t, twice) ↦ cc (rw (cut, whole, twice, parse_entries) at run)
              | inl once ↦ elim (Option-cases (lookup token seen)) [
                | inr (other, shared) ↦ cc (rw (cut, whole, once, shared, parse_entries) at run)
                | inl fresh ↦
                    parse_entries-IsSeen entries (put name token result) (put token name seen)
                      (IsSeen-put name token result seen (ground (arith, whole)) fresh h)
                      (rw (cut, whole, once, fresh, parse_entries) at run)
              ]
            ]
          ]
    ]

matches-some : (o : Option String) (token : String) → matches o token ≡ true → o ≡ some token
matches-some none token h = cc
matches-some (some t) token h = ap some ((eq_iff t token).0 h)

some-matches : (o : Option String) (token : String) → o ≡ some token → matches o token ≡ true
some-matches none token h = cc
some-matches (some t) token h = (eq_iff t token).1 (some_injective h)

module _ (tokens final : List (String × String)) (seen : IsSeen tokens final) (name token : String)
    (held : lookup name tokens ≡ some token) where
  -- Another name with the token is the same name.
  same_name : (n : String) → matches (lookup n tokens) token ≡ true → n ≡ name
  same_name n h =
      some_injective
        (sym ((seen n token (matches-some (lookup n tokens) token h)).0) ∙ (seen name token held).0)

  stays : (names : List String) → match_names tokens token name names ≡ name
  unfolding match_names
  stays [] = refl
  stays (n ∷ names) = elim (Bool-cases (matches (lookup n tokens) token)) [
    | inl h ↦
        rw (h, match_names)
          (ap (λ x. match_names tokens token x names) (same_name n h) ∙ stays names)
    | inr h ↦ rw (h, match_names) (stays names)
  ]

  found :
      (matched : String) (names : List String)
      → any (λ n. n == name) names ≡ true
      → match_names tokens token matched names ≡ name
  unfolding match_names
  found matched [] h = ground arith
  found matched (n ∷ names) h = elim (Bool-cases (n == name)) [
    | inl e ↦
        let same = (eq_iff n name).0 e in
        let hit : matches (lookup n tokens) token ≡ true =
          some-matches (lookup n tokens) token (ap (λ x. lookup x tokens) same ∙ held) in
        rw (hit, match_names) (ap (λ x. match_names tokens token x names) same ∙ stays names)
    | inr e ↦ found (if matches (lookup n tokens) token then n else matched) names (ground arith)
  ]

-- The name that comes out is the one that went in, or one whose token it is.
comes_from :
    (tokens : List (String × String)) (token matched : String) (names : List String)
    → let r = match_names tokens token matched names in
      (r ≡ matched) ⊎ (matches (lookup r tokens) token ≡ true)
unfolding match_names
comes_from tokens token matched [] = inl refl
comes_from tokens token matched (n ∷ names) = elim (Bool-cases (matches (lookup n tokens) token)) [
  | inl h ↦
      rw (h, match_names)
        (elim (comes_from tokens token n names) [
          | inl e ↦ inr (ap (λ x. matches (lookup x tokens) token) e ∙ h)
          | inr e ↦ inr e
        ])
  | inr h ↦ rw (h, match_names) (comes_from tokens token matched names)
]

-- With the tokens that the parser accepts, and whatever the order in which the matching ranges
-- over all of them, a token is matched to a name that is not empty exactly if it is the token
-- configured for that name.
pub match_consumer_token_iff :
    (raw : String) (tokens : List (String × String)) (order : List String) (name token : String)
    → parse_consumer_tokens raw ≡ parsed tokens
    → ((n t : String) → lookup n tokens ≡ some t → any (λ m. m == n) order ≡ true)
    → (name == "") ≡ false
    → (match_consumer_token tokens order token ≡ name) ↔ (lookup name tokens ≡ some token)
unfolding match_consumer_token parse_consumer_tokens
match_consumer_token_iff raw tokens order name token run whole named =
    let (final, seen) = parsed-IsSeen in
    (
      (λ h. elim (comes_from tokens token "" order) [
        | inl e ↦ cc (ap (λ x. x == "") (sym h ∙ e), named, str_eq_self "")
        | inr e ↦
            matches-some (lookup name tokens) token
              (ap (λ x. matches (lookup x tokens) token) (sym h) ∙ e)
      ]),
      (λ held. found tokens final seen name token held "" order (whole name token held)),
    )
  where
    parsed-IsSeen : (final : List (String × String)) × IsSeen tokens final
    parsed-IsSeen = elim (Bool-cases (trim_space raw == "")) [
      | inl e ↦ cc (rw (e, parse_consumer_tokens) at run)
      | inr e ↦
          parse_entries-IsSeen (split_at is_comma (trim_space raw)) [] [] (λ n t h. cc)
            (rw (e, parse_consumer_tokens) at run)
    ]
