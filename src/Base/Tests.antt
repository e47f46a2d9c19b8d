-- ===== src/Base/Tests.antt =====
-- Boolean tests on the native numbers, the conditional, and `unsigned int` arithmetic.
use Prim.Native.Nat.{ℕ, ◌+◌, ◌-◌, ◌<◌, ◌≤◌, ◌%◌, ◌^◌, compare, Ordering}
use mathlib.Core.Path.{◌≡◌, refl}
use mathlib.Core.Logic.{◌⊎◌, inl, inr}
use mathlib.Core.Bool.{Bool, true, false}
use native.Mathlib.Omega.{arith}

abbrev pub ltb : ℕ → ℕ → Bool
ltb a b = elim (compare a b) [ Ordering.lt ↦ true | _ ↦ false ]

abbrev pub leb : ℕ → ℕ → Bool
leb a b = elim (compare a b) [ Ordering.gt ↦ false | _ ↦ true ]

infix 50 ◌==◌
abbrev pub ◌==◌ : ℕ → ℕ → Bool
a == b = elim (compare a b) [ Ordering.eq ↦ true | _ ↦ false ]

infix 1 if◌then◌else◌
abbrev pub if◌then◌else◌ {ℓ} : {A : Type ℓ} → Bool → A → A → A
if true then x else y = x
if false then x else y = y

-- C's `unsigned int`: the value modulo 2^32.
abbrev pub u32 : ℕ → ℕ
u32 n = n % 2 ^ 32

-- An `int` is kept as its pattern of 32 bits, which below 2^31 is the number itself. Signed
-- comparison of two patterns, and the 64-bit pattern that a conversion to a wider type makes.
abbrev pub int_lt : ℕ → ℕ → Bool
int_lt a b = ltb (u32 (a + 2 ^ 31)) (u32 (b + 2 ^ 31))

abbrev pub widen : ℕ → ℕ
widen n = if ltb n (2 ^ 31) then n else n + (2 ^ 64 - 2 ^ 32)

-- The macros MAX and MIN of bsp_exptable.h.
abbrev pub max_of : ℕ → ℕ → ℕ
max_of x y = if ltb y x then x else y

abbrev pub min_of : ℕ → ℕ → ℕ
min_of x y = if ltb x y then x else y

pub Bool-cases : (b : Bool) → (b ≡ true) ⊎ (b ≡ false)
Bool-cases true = inl refl
Bool-cases false = inr refl

pub ltb-true : (a b : ℕ) → a < b → ltb a b ≡ true
ltb-true a b h = ground arith

pub ltb-false : (a b : ℕ) → b ≤ a → ltb a b ≡ false
ltb-false a b h = ground arith

pub int_lt_lem : (a b : ℕ) → a < 2 ^ 31 → b < 2 ^ 31 → int_lt a b ≡ ltb a b
int_lt_lem a b h k = ground arith

pub widen_lem : (n : ℕ) → n < 2 ^ 31 → widen n ≡ n
widen_lem n h = ground arith

pub eq-true : (a b : ℕ) → a ≡ b → (a == b) ≡ true
eq-true a b h = ground arith

-- To prove an equation with a conditional on the right.
pub eq_if {ℓ} :
    {A : Type ℓ} {x y z : A} (b : Bool)
    → (b ≡ true → z ≡ x)
    → (b ≡ false → z ≡ y)
    → z ≡ (if b then x else y)
eq_if true p q = p refl
eq_if false p q = q refl
