-- ===== src/XCallback/Spaces.antt =====
-- Proofs about the spaces in the URLs of internal/xcallback/xcallback.go.
use Prim.Native.Char.{Char, code}
use Prim.Native.String.{[] as empty, ◌∷◌ as ◌::◌, ◌++◌ as ◌<>◌}
use bear_sync.Prelude.{false, ◌≢◌, String, Bool, true, ◌≡◌, refl, nat_eq, nat_eq_iff}
use bear_sync.XCallback.Driver.{percent_spaces}

-- A text with `%20` for each plus sign.
pub data IsSpaced : String → String → Type 0 where
  ends : IsSpaced "" ""
  plus : (c : Char) (s t : String) → code c ≡ 43 → IsSpaced s t → IsSpaced (c :: s) ("%20" <> t)
  other : (c : Char) (s t : String) → code c ≢ 43 → IsSpaced s t → IsSpaced (c :: s) (c :: t)

pub percent_spaces-IsSpaced : (s : String) → IsSpaced s (percent_spaces s)
unfolding percent_spaces
percent_spaces-IsSpaced empty = ends
percent_spaces-IsSpaced (c :: s) = by_test (percent_spaces-IsSpaced s) (nat_eq (code c) 43) refl
  where
    by_test :
        IsSpaced s (percent_spaces s)
        → (b : Bool) → nat_eq (code c) 43 ≡ b
        → IsSpaced (c :: s) (percent_spaces (c :: s))
    by_test rest true e =
        rw (e, percent_spaces) (plus c s (percent_spaces s) ((nat_eq_iff (code c) 43).0 e) rest)
    by_test rest false e =
        rw (e, percent_spaces)
          (other c s (percent_spaces s) (λ h. cc (e, (nat_eq_iff (code c) 43).1 h)) rest)
