-- ===== src/Bridge/DeltaLaws.antt =====
-- Laws of calls that may fail, as cmd/bridge/sync.go chains them.
use bear_sync.Prelude.{◌≡◌, ◌⊎◌, refl, inl, inr}
use bear_sync.Bridge.Bear.{Problem, Fallible, fails, gives}
use bear_sync.Bridge.Reads.{◌>>=◌}

pub Fallible-split {ℓ} :
    {A : Type ℓ} (r : Fallible A) → ((e : Problem) × (r ≡ fails e)) ⊎ ((a : A) × (r ≡ gives a))
Fallible-split (fails e) = inl (e, refl)
Fallible-split (gives a) = inr (a, refl)

pub gives_injective {ℓ} : {A : Type ℓ} {a b : A} → gives a ≡ gives b → a ≡ b
gives_injective h = cc

pub >>=-eq-gives {ℓ κ} :
    {A : Type ℓ} {B : Type κ} (first : Fallible A) (next : A → Fallible B) {b : B}
    → (first >>= next) ≡ gives b
    → (a : A) × (first ≡ gives a) × (next a ≡ gives b)
>>=-eq-gives (fails e) next h = cc
>>=-eq-gives (gives a) next h = (a, refl, h)

-- The same for a proof that goes on with what the first call gave.
pub >>=-then {ℓ κ ι} :
    {A : Type ℓ} {B : Type κ} {C : Type ι} (m : Fallible A) {f : A → Fallible B} {b : B}
    → (m >>= f) ≡ gives b
    → ((a : A) → m ≡ gives a → f a ≡ gives b → C)
    → C
>>=-then m {f} run next = let (a, p, r) = >>=-eq-gives m f run in next a p r
