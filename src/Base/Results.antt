-- ===== src/Base/Results.antt =====
-- A computation that may raise: its value, or the error that it raised.
use mathlib.Core.Path.{◌≡◌, refl}
use mathlib.Core.Logic.{◌⊎◌, inl, inr}
use mathlib.Core.Bool.{Bool, true, false}

pub data Result {ℓ κ} (E : Type ℓ) (A : Type κ) : Type (ℓ ⊔ κ) where
  ok : A → Result E A
  err : E → Result E A

infixl 5 ◌>>=◌ ◌>>◌
abbrev pub ◌>>=◌ {ℓ κ μ} :
    {E : Type ℓ} {A : Type κ} {B : Type μ} → Result E A → (A → Result E B) → Result E B
ok a >>= f = f a
err e >>= f = err e

abbrev pub ◌>>◌ {ℓ κ μ} :
    {E : Type ℓ} {A : Type κ} {B : Type μ} → Result E A → Result E B → Result E B
m >> k = m >>= λ _. k

-- `if test: raise e`
abbrev pub raise_if {ℓ} : {E : Type ℓ} → Bool → E → Result E (Unit {0})
raise_if true e = err e
raise_if false e = ok tt

pub Result-cases {ℓ κ} :
    {E : Type ℓ} {A : Type κ} (r : Result E A) → ((a : A) × (r ≡ ok a)) ⊎ ((e : E) × (r ≡ err e))
Result-cases (ok a) = inl (a, refl)
Result-cases (err e) = inr (e, refl)

-- A bind that returned, in its parts.
pub data Bound {ℓ κ μ} {E : Type ℓ} {A : Type κ} {B : Type μ} (m : Result E A) (f : A → Result E B)
    (b : B) : Type (ℓ ⊔ κ ⊔ μ) where
  bound : (a : A) → m ≡ ok a → f a ≡ ok b → Bound m f b

pub >>=-Bound {ℓ κ μ} :
    {E : Type ℓ} {A : Type κ} {B : Type μ} (m : Result E A) (f : A → Result E B) {b : B}
    → (m >>= f) ≡ ok b
    → Bound m f b
>>=-Bound (ok a) f h = bound a refl h
>>=-Bound (err e) f h = cc

-- A guard that let the computation through.
pub data Passed {ℓ κ} {E : Type ℓ} {A : Type κ} (test : Bool) (k : Result E A) (a : A)
    : Type (ℓ ⊔ κ) where
  passed : test ≡ false → k ≡ ok a → Passed test k a

pub raise_if-Passed {ℓ κ} :
    {E : Type ℓ} {A : Type κ} (test : Bool) (e : E) (k : Result E A) {a : A}
    → (raise_if test e >> k) ≡ ok a
    → Passed test k a
raise_if-Passed true e k h = cc
raise_if-Passed false e k h = passed refl h

pub ok-injective {ℓ κ} :
    {E : Type ℓ} {A : Type κ} {a b : A} → ◌≡◌ {A = Result E A} (ok a) (ok b) → a ≡ b
ok-injective h = cc

-- A bind that raised, in its parts.
pub data Raised {ℓ κ μ} {E : Type ℓ} {A : Type κ} {B : Type μ} (m : Result E A) (f : A → Result E B)
    (e : E) : Type (ℓ ⊔ κ ⊔ μ) where
  at_once : m ≡ err e → Raised m f e
  later : (a : A) → m ≡ ok a → f a ≡ err e → Raised m f e

pub >>=-Raised {ℓ κ μ} :
    {E : Type ℓ} {A : Type κ} {B : Type μ} (m : Result E A) (f : A → Result E B) {e : E}
    → (m >>= f) ≡ err e
    → Raised m f e
>>=-Raised (ok a) f h = later a refl h
>>=-Raised (err e) f h = at_once cc

-- A guard that stopped the computation, or let it through to what raised.
pub data Stopped {ℓ κ} {E : Type ℓ} {A : Type κ} (test : Bool) (e : E) (k : Result E A) (raised : E)
    : Type (ℓ ⊔ κ) where
  here : test ≡ true → e ≡ raised → Stopped test e k raised
  beyond : test ≡ false → k ≡ err raised → Stopped test e k raised

pub raise_if-Stopped {ℓ κ} :
    {E : Type ℓ} {A : Type κ} (test : Bool) (e : E) (k : Result E A) {raised : E}
    → (raise_if test e >> k) ≡ err raised
    → Stopped test e k raised
raise_if-Stopped true e k h = here refl cc
raise_if-Stopped false e k h = beyond refl h

pub raise_if_passes {ℓ} :
    {E : Type ℓ} (test : Bool) (e : E) {u : Unit {0}} → raise_if test e ≡ ok u → test ≡ false
raise_if_passes true e h = cc
raise_if_passes false e h = refl
