-- ===== src/Base/Tests.antt =====
-- Boolean tests on the native numbers, C's reading of a number as a truth value, and case lemmas.
use Prim.Native.Nat.{ℕ, zero, suc, ◌<◌, compare, Ordering}
use mathlib.Core.Path.{◌≡◌, refl}
use mathlib.Core.Logic.{◌≢◌, ◌↔◌, ◌⊎◌, inl, inr}
use mathlib.Core.Bool.{Bool, true, false, ◌&&◌}
use mathlib.Core.Option.{Option, none, some}
use mathlib.Core.List.{List, [], ◌∷◌}
use native.Mathlib.Omega.{arith}

abbrev pub ltb : ℕ → ℕ → Bool
ltb a b = elim (compare a b) [ Ordering.lt ↦ true | _ ↦ false ]

abbrev pub leb : ℕ → ℕ → Bool
leb a b = elim (compare a b) [ Ordering.gt ↦ false | _ ↦ true ]

infix 50 ◌==◌
abbrev pub ◌==◌ : ℕ → ℕ → Bool
a == b = elim (compare a b) [ Ordering.eq ↦ true | _ ↦ false ]

infix 1 if◌then◌else◌
abbrev pub if◌then◌else◌ {ℓ} : {A : Type ℓ} → Bool → A → A → A
if true then x else y = x
if false then x else y = y

-- `switch`: the first case with this number, else the default.
abbrev pub switch {ℓ} : {A : Type ℓ} → ℕ → List (ℕ × A) → A → A
switch n [] d = d
switch n ((k, a) ∷ cases) d = if n == k then a else switch n cases d

-- A property of both branches is one of what is chosen.
pub if_all {ℓ} :
    {A : Type ℓ} (P : A → Type 0) (b : Bool) (x y : A) → P x → P y → P (if b then x else y)
if_all P true x y p q = p
if_all P false x y p q = q

-- A property of every case and of the default is one of what is chosen.
abbrev pub Cases {ℓ} : {A : Type ℓ} → (A → Type 0) → List (ℕ × A) → Type 0
Cases P [] = Unit {0}
Cases P ((k, a) ∷ cases) = P a × Cases P cases

pub switch_all {ℓ} :
    {A : Type ℓ} (P : A → Type 0) (n : ℕ) (cases : List (ℕ × A)) (d : A)
    → Cases P cases
    → P d
    → P (switch n cases d)
switch_all P n [] d all h = h
switch_all P n ((k, a) ∷ cases) d (p, all) h =
    if_all P (n == k) a (switch n cases d) p (switch_all P n cases d all h)

-- `!!x`: a number is true when it is not 0.
abbrev pub truthy : ℕ → Bool
truthy n = if n == 0 then false else true

-- A truth value as the number 0 or 1.
abbrev pub to_int : Bool → ℕ
to_int b = if b then 1 else 0

pub ==_iff : (a b : ℕ) → ((a == b) ≡ true) ↔ (a ≡ b)
==_iff a b = ground arith

pub ==_of_ne : (a b : ℕ) → a ≢ b → (a == b) ≡ false
==_of_ne a b h = ground arith

pub ==_self : (a : ℕ) → (a == a) ≡ true
==_self a = ground arith

pub ltb_of_lt : (a b : ℕ) → a < b → ltb a b ≡ true
ltb_of_lt a b h = ground arith

pub Bool-cases : (b : Bool) → (b ≡ true) ⊎ (b ≡ false)
Bool-cases true = inl refl
Bool-cases false = inr refl

pub Option-cases {ℓ} : {A : Type ℓ} (o : Option A) → (o ≡ none) ⊎ ((a : A) × (o ≡ some a))
Option-cases none = inl refl
Option-cases (some a) = inr (a, refl)

-- Whether a test passes at every number below a bound, and what that says of one such number.
abbrev pub holds_below : ℕ → (ℕ → Bool) → Bool
holds_below zero test = true
holds_below (suc n) test = test n && holds_below n test

pub holds_below_at :
    (n : ℕ) (test : ℕ → Bool) (x : ℕ) → holds_below n test ≡ true → x < n → test x ≡ true
holds_below_at zero test x all h = absurd (omega arith)
holds_below_at (suc n) test x all h = ground (arith, holds_below_at n test x)

abbrev pub bool_eq : Bool → Bool → Bool
bool_eq true b = b
bool_eq false true = false
bool_eq false false = true

pub bool_eq_iff : (a b : Bool) → (bool_eq a b ≡ true) ↔ (a ≡ b)
bool_eq_iff a b = ground arith
