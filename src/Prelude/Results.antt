-- ===== src/Prelude/Results.antt =====
-- Code that may raise: a value, or the exception.
use mathlib.Core.Path.{ap, ◌≡◌, refl}
use mathlib.Core.Logic.{◌⊎◌, inl, inr}
use mathlib.Core.Bool.{Bool, true, false}

pub data Result {ℓ κ} (E : Type ℓ) (A : Type κ) : Type (ℓ ⊔ κ) where
  ok : A → Result E A
  err : E → Result E A

infixl 5 ◌>>=◌ ◌>>◌
abbrev pub ◌>>=◌ {ℓ κ μ} :
    {E : Type ℓ} {A : Type κ} {B : Type μ} → Result E A → (A → Result E B) → Result E B
ok value >>= next = next value
err error >>= next = err error

abbrev pub ◌>>◌ {ℓ κ} : {E : Type ℓ} {B : Type κ} → Result E (Unit {0}) → Result E B → Result E B
check >> rest = check >>= λ _. rest

-- `if test: raise e`
abbrev pub raise_if {ℓ} : {E : Type ℓ} → Bool → E → Result E (Unit {0})
raise_if true e = err e
raise_if false e = ok tt

-- A step that raises one kind of exception.
abbrev pub raising {ℓ κ μ} :
    {E : Type ℓ} {F : Type κ} {A : Type μ} → (E → F) → Result E A → Result F A
raising wrap (ok a) = ok a
raising wrap (err e) = err (wrap e)

abbrev pub succeeds {ℓ κ} : {E : Type ℓ} {A : Type κ} → Result E A → Bool
succeeds (ok a) = true
succeeds (err e) = false

-- A chain that returns had a first step that returned.
pub >>=-eq-ok {ℓ κ μ} :
    {E : Type ℓ} {A : Type κ} {B : Type μ} (step : Result E A) (next : A → Result E B) {final : B}
    → (step >>= next) ≡ ok final
    → (value : A) × (step ≡ ok value) × (next value ≡ ok final)
>>=-eq-ok (err error) next h = cc
>>=-eq-ok (ok value) next h = (value, refl, h)

pub ok-injective {ℓ κ} :
    {E : Type ℓ} {A : Type κ} {a b : A} → ◌≡◌ {A = Result E A} (ok a) (ok b) → a ≡ b
ok-injective h = cc

-- What a step with a wrapped exception returns.
pub raising-ok {ℓ κ μ} :
    {E : Type ℓ} {F : Type κ} {A : Type μ} (wrap : E → F) (r : Result E A) {a : A}
    → raising wrap r ≡ ok a
    → r ≡ ok a
raising-ok wrap (ok b) h = ap ok (ok-injective h)
raising-ok wrap (err e) h = cc

-- A chain that returns is past its first check.
pub past {ℓ κ} :
    {E : Type ℓ} {A : Type κ} (test : Bool) (e : E) {next : Result E A} {final : A}
    → (raise_if test e >> next) ≡ ok final
    → (test ≡ false) × (next ≡ ok final)
past true e h = cc
past false e h = (refl, h)

-- Every value that a step may return, or a chain, if every one of its last step does.
abbrev pub Every {ℓ κ} : {E : Type ℓ} {A : Type κ} → (A → Type 0) → Result E A → Type 0
Every P (ok a) = P a
Every P (err e) = Unit

pub Every-bind {ℓ κ μ} :
    {E : Type ℓ} {A : Type κ} {B : Type μ} (P : B → Type 0) (r : Result E A) (f : A → Result E B)
    → ((a : A) → Every P (f a))
    → Every P (r >>= f)
Every-bind P (ok a) f h = h a
Every-bind P (err e) f h = tt

pub Result-cases {ℓ κ} :
    {E : Type ℓ} {A : Type κ} (r : Result E A) → ((a : A) × (r ≡ ok a)) ⊎ ((e : E) × (r ≡ err e))
Result-cases (ok a) = inl (a, refl)
Result-cases (err e) = inr (e, refl)
