-- ===== src/Prelude/Tests.antt =====
-- Boolean tests on the native numbers, the conditional, and the words that the program's integers are.
-- A w-bit integer of the program is the number below 2 ^ w that has its bits.
use Prim.Native.Nat.{ℕ, ◌^◌, ◌-◌, compare, Ordering}
use mathlib.Core.Path.{◌≡◌, refl}
use mathlib.Core.Logic.{◌⊎◌, inl, inr}
use mathlib.Core.Bool.{Bool, true, false}
use mathlib.Core.Option.{Option, none, some}

abbrev pub ltb : ℕ → ℕ → Bool
ltb a b = elim (compare a b) [ Ordering.lt ↦ true | _ ↦ false ]

abbrev pub leb : ℕ → ℕ → Bool
leb a b = elim (compare a b) [ Ordering.gt ↦ false | _ ↦ true ]

infix 50 ◌==◌
abbrev pub ◌==◌ : ℕ → ℕ → Bool
a == b = elim (compare a b) [ Ordering.eq ↦ true | _ ↦ false ]

infix 1 if◌then◌else◌
abbrev pub if◌then◌else◌ {ℓ} : {A : Type ℓ} → Bool → A → A → A
if true then x else y = x
if false then x else y = y

-- To split on a computed value and keep the equation.
pub Bool-cases : (b : Bool) → (b ≡ true) ⊎ (b ≡ false)
Bool-cases true = inl refl
Bool-cases false = inr refl

pub Option-cases {ℓ} : {A : Type ℓ} (o : Option A) → (o ≡ none) ⊎ ((a : A) × (o ≡ some a))
Option-cases none = inl refl
Option-cases (some a) = inr (a, refl)

abbrev pub is_some {ℓ} : {A : Type ℓ} → Option A → Bool
is_some none = false
is_some (some a) = true

-- -1 as an int, an int32_t and as an int64_t.
abbrev pub minus_one32 : ℕ
minus_one32 = 2 ^ 32 - 1

abbrev pub minus_one64 : ℕ
minus_one64 = 2 ^ 64 - 1

-- a == b for Booleans
abbrev pub same : Bool → Bool → Bool
same true b = b
same false true = false
same false false = true

-- The number of rounds of `for (int i = 0; i < destNum; ++i)` for an int16_t destNum.
abbrev pub rounds16 : ℕ → ℕ
rounds16 n = if ltb n (2 ^ 15) then n else 0
