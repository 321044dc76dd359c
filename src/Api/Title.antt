-- ===== src/Api/Title.antt =====
-- `extractTitleFromBody` of internal/api/notes_handler.go, with what it uses of Go's `strings`.
use Prim.Native.Char.{Char, code}
use Prim.Native.String.{String, [], ◌∷◌}
use bear_sync.Prelude.{Bool, ◌||◌, ◌&&◌, ◌==◌, leb, nat_eq, if◌then◌else◌}
use text.Mathlib.Text.{starts_with}

-- `unicode.IsSpace`
abbrev pub is_space : Char → Bool
is_space c =
    let n = code c in
    (leb 9 n && leb n 13)
    || nat_eq n 32
    || nat_eq n 133
    || nat_eq n 160
    || nat_eq n 5760
    || (leb 8192 n && leb n 8202)
    || nat_eq n 8232
    || nat_eq n 8233
    || nat_eq n 8239
    || nat_eq n 8287
    || nat_eq n 12288

abbrev is_newline : Char → Bool
is_newline c = nat_eq (code c) 10

abbrev is_hash : Char → Bool
is_hash c = nat_eq (code c) 35

-- The characters before the first that satisfies `p`: `body[:strings.IndexByte(body, '\n')]`.
unfoldable pub before_first : (Char → Bool) → String → String
before_first p [] = []
before_first p (c ∷ s) = let rest = before_first p s in if p c then [] else c ∷ rest

unfoldable pub trim_left : (Char → Bool) → String → String
trim_left p [] = []
trim_left p (c ∷ s) = let rest = trim_left p s in if p c then rest else c ∷ s

unfoldable pub trim_right : (Char → Bool) → String → String
trim_right p [] = []
trim_right p (c ∷ s) = let rest = trim_right p s in if p c && rest == "" then [] else c ∷ rest

unfoldable pub trim_space : String → String
unfolding trim_left trim_right
trim_space s = trim_right is_space (trim_left is_space s)

unfoldable pub extract_title_from_body : String → String
unfolding before_first trim_left trim_space
extract_title_from_body body =
    let trimmed = trim_space (before_first is_newline body) in
    if body == ""
    then ""
    else if starts_with trimmed "# " || starts_with trimmed "## "
    then trim_space (trim_left is_hash trimmed)
    else trimmed
