-- ===== src/Base/Result.antt =====
-- What a call of the simulator comes to: it returns, or `FATAL` or a failed `ASSERT` ends the run.
use mathlib.Core.Path.{◌≡◌, refl}
use mathlib.Core.Bool.{Bool, true, false}
use mr_iss.Base.Tests.{if◌then◌else◌}

pub data Outcome {ℓ} (A : Type ℓ) : Type ℓ where
  done : A → Outcome A
  fatal : Outcome A

infixl 5 ◌>>=◌
abbrev pub ◌>>=◌ {ℓ κ} : {A : Type ℓ} {B : Type κ} → Outcome A → (A → Outcome B) → Outcome B
done a >>= f = f a
fatal >>= f = fatal

-- A bind that returns: its first part did.
pub >>=-eq-done {ℓ κ} :
    {A : Type ℓ} {B : Type κ} (m : Outcome A) (f : A → Outcome B) {b : B}
    → (m >>= f) ≡ done b
    → (a : A) × (m ≡ done a) × (f a ≡ done b)
>>=-eq-done (done a) f h = (a, refl, h)
>>=-eq-done fatal f h = cc

-- The call returns, and what it returns has the property.
abbrev pub Yields {ℓ} : {A : Type ℓ} → (A → Type 0) → Outcome A → Type 0
Yields P (done a) = P a
Yields P fatal = ⊥

-- What a call that returns returns.
pub Yields-done {ℓ} :
    {A : Type ℓ} {P : A → Type 0} (m : Outcome A) → Yields P m → (a : A) × P a × (m ≡ done a)
Yields-done (done a) h = (a, h, refl)
Yields-done fatal h = absurd h

pub Yields-bind {ℓ κ} :
    {A : Type ℓ} {B : Type κ} (Q : A → Type 0) (P : B → Type 0) (m : Outcome A) (f : A → Outcome B)
    → Yields Q m
    → ((a : A) → Q a → Yields P (f a))
    → Yields P (m >>= f)
Yields-bind Q P (done a) f h k = k a h
Yields-bind Q P fatal f h k = absurd h

-- A call chosen by a test: each branch may use what the test found.
pub Yields-test {ℓ} :
    {A : Type ℓ} (P : A → Type 0) (b : Bool) (m n : Outcome A)
    → (b ≡ true → Yields P m)
    → (b ≡ false → Yields P n)
    → Yields P (if b then m else n)
Yields-test P true m n f g = f refl
Yields-test P false m n f g = g refl

-- If the call returns, what it returns has the property.
abbrev pub Allows {ℓ} : {A : Type ℓ} → (A → Type 0) → Outcome A → Type 0
Allows P (done a) = P a
Allows P fatal = Unit {0}

pub Allows-bind {ℓ κ} :
    {A : Type ℓ} {B : Type κ} (P : B → Type 0) (m : Outcome A) (f : A → Outcome B)
    → ((a : A) → m ≡ done a → Allows P (f a))
    → Allows P (m >>= f)
Allows-bind P (done a) f k = k a refl
Allows-bind P fatal f k = tt

pub Allows-map {ℓ} :
    {A : Type ℓ} (P Q : A → Type 0) (m : Outcome A)
    → ((a : A) → P a → Q a)
    → Allows P m
    → Allows Q m
Allows-map P Q (done a) f h = f a h
Allows-map P Q fatal f h = tt

pub Allows-test {ℓ} :
    {A : Type ℓ} (P : A → Type 0) (b : Bool) (m n : Outcome A)
    → (b ≡ true → Allows P m)
    → (b ≡ false → Allows P n)
    → Allows P (if b then m else n)
Allows-test P true m n f g = f refl
Allows-test P false m n f g = g refl

pub Yields-Allows {ℓ} :
    {A : Type ℓ} (P : A → Type 0) (m : Outcome A)
    → Yields (λ _. Unit {0}) m
    → Allows P m
    → Yields P m
Yields-Allows P (done a) y h = h
Yields-Allows P fatal y h = y

pub Yields-and {ℓ} :
    {A : Type ℓ} (P Q : A → Type 0) (m : Outcome A)
    → Yields P m
    → Allows Q m
    → Yields (λ a. P a × Q a) m
Yields-and P Q (done a) y h = (y, h)
Yields-and P Q fatal y h = y

pub Yields-weaken {ℓ} :
    {A : Type ℓ} (P Q : A → Type 0) (m : Outcome A)
    → ((a : A) → P a → Q a)
    → Yields P m
    → Yields Q m
Yields-weaken P Q (done a) f h = f a h
Yields-weaken P Q fatal f h = h

pub Allows-then {ℓ κ} :
    {A : Type ℓ} {B : Type κ} (Q : A → Type 0) (P : B → Type 0) (m : Outcome A) (f : A → Outcome B)
    → Allows Q m
    → ((a : A) → Q a → Allows P (f a))
    → Allows P (m >>= f)
Allows-then Q P (done a) f h k = k a h
Allows-then Q P fatal f h k = tt

pub Allows-and {ℓ} :
    {A : Type ℓ} (P Q : A → Type 0) (m : Outcome A)
    → Allows P m
    → Allows Q m
    → Allows (λ a. P a × Q a) m
Allows-and P Q (done a) h k = (h, k)
Allows-and P Q fatal h k = tt

pub Allows-always {ℓ} : {A : Type ℓ} (P : A → Type 0) (m : Outcome A) → ((a : A) → P a) → Allows P m
Allows-always P (done a) h = h a
Allows-always P fatal h = tt

pub Yields-both {ℓ} :
    {A : Type ℓ} (P Q : A → Type 0) (m : Outcome A)
    → Yields P m
    → Yields Q m
    → Yields (λ a. P a × Q a) m
Yields-both P Q (done a) h k = (h, k)
Yields-both P Q fatal h k = h
