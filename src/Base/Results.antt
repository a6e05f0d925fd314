-- ===== src/Base/Results.antt =====
-- Chains of steps that may stop the program: `none` is a failed assertion, a panic, or an access
-- that C++ leaves undefined.
use mathlib.Core.Path.{◌≡◌, refl, ap}
use mathlib.Core.Bool.{Bool, true, false}
use mathlib.Core.Option.{Option, none, some}

infixl 5 ◌>>=◌ ◌>>◌
abbrev pub ◌>>=◌ {ℓ κ} : {A : Type ℓ} {B : Type κ} → Option A → (A → Option B) → Option B
none >>= f = none
some a >>= f = f a

abbrev pub ◌>>◌ {ℓ} : {B : Type ℓ} → Option (Unit {0}) → Option B → Option B
m >> k = m >>= λ _. k

-- `asserts(b, …)`
abbrev pub asserts : Bool → Option (Unit {0})
asserts true = some tt
asserts false = none

pub >>=-eq-some {ℓ κ} :
    {A : Type ℓ} {B : Type κ} (m : Option A) (f : A → Option B) {b : B}
    → (m >>= f) ≡ some b
    → (a : A) × (m ≡ some a) × (f a ≡ some b)
>>=-eq-some none f h = cc
>>=-eq-some (some a) f h = (a, refl, h)

pub >>=-assoc {ℓ κ μ} :
    {A : Type ℓ} {B : Type κ} {C : Type μ} (m : Option A) (f : A → Option B) (g : B → Option C)
    → (m >>= f >>= g) ≡ (m >>= λ a. f a >>= g)
>>=-assoc none f g = refl
>>=-assoc (some a) f g = refl

pub some-triple {ℓ κ μ} :
    {A : Type ℓ} {B : Type κ} {C : Type μ} {a a' : A} {b b' : B} {c c' : C}
    → ◌≡◌ {A = Option (A × B × C)} (some (a, b, c)) (some (a', b', c'))
    → (a ≡ a') × (b ≡ b') × (c ≡ c')
some-triple {A = A} {B = B} {C = C} {a = a} {b = b} {c = c} e =
    let p =
      ap {B = A × B × C} (λ (o : Option (A × B × C)). elim o [ none ↦ (a, b, c) | some t ↦ t ]) e in
    (ap (λ t. t.0) p, ap (λ t. t.1) p, ap (λ t. t.2) p)

pub some-inj {ℓ} : {A : Type ℓ} {a b : A} → some a ≡ some b → a ≡ b
some-inj {A = A} {a = a} e = ap {B = A} (λ (o : Option A). elim o [ none ↦ a | some x ↦ x ]) e

pub >>=-some {ℓ} : {A : Type ℓ} (m : Option A) → (m >>= λ a. some a) ≡ m
>>=-some none = refl
>>=-some (some a) = refl
