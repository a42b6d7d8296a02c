-- ===== src/Attendance/Xor.antt =====
-- The exclusive or of the hash in packages/domain/src/attendance.ts, at any numbers.

use Prim.Native.Nat.{bit_xor, bit_xor-bitwise, digits, differ, ◌*◌, ◌%◌, ◌/◌}
use newport_ms.Base.{ℕ, zero, suc, ◌+◌, ◌≤◌, ◌<◌, ◌≡◌, refl, sym, ap, ◌∙◌, arith}

-- The digits of an exclusive or, the lowest first, with more steps than the first number has digits.
abbrev xor_digits : ℕ → ℕ → ℕ → ℕ
xor_digits n a b = digits (λ b. b) differ n a b

xor_digits_fuel : (n m a b : ℕ) → a ≤ n → a ≤ m → xor_digits n a b ≡ xor_digits m a b
xor_digits_fuel zero zero a b p q = refl
xor_digits_fuel zero (suc m) zero b p q = refl
xor_digits_fuel zero (suc m) (suc a) b p q = absurd (omega arith)
xor_digits_fuel (suc n) zero zero b p q = refl
xor_digits_fuel (suc n) zero (suc a) b p q = absurd (omega arith)
xor_digits_fuel (suc n) (suc m) zero b p q = refl
xor_digits_fuel (suc n) (suc m) (suc a) b p q =
    ap (λ x. x * 2 + differ (suc a % 2) (b % 2))
      (xor_digits_fuel n m (suc a / 2) (b / 2) (omega arith) (omega arith))

zero-bit_xor : (b : ℕ) → bit_xor 0 b ≡ b
zero-bit_xor b = bit_xor-bitwise 0 b

differ_small : (x y : ℕ) → x < 2 → y < 2 → (differ x y < 2) × (differ (differ x y) y ≡ x)
differ_small zero zero p q = (omega arith, refl)
differ_small zero (suc zero) p q = (omega arith, refl)
differ_small (suc zero) zero p q = (omega arith, refl)
differ_small (suc zero) (suc zero) p q = (omega arith, refl)
differ_small (suc (suc x)) y p q = absurd (omega arith)
differ_small zero (suc (suc y)) p q = absurd (omega arith)
differ_small (suc zero) (suc (suc y)) p q = absurd (omega arith)

differ_self : (x y z : ℕ) → x < 2 → y < 2 → z < 2 → differ x y ≡ differ x z → y ≡ z
differ_self zero y z p q r h = h
differ_self (suc zero) zero zero p q r h = refl
differ_self (suc zero) (suc zero) (suc zero) p q r h = refl
differ_self (suc zero) zero (suc zero) p q r h = omega (arith, h)
differ_self (suc zero) (suc zero) zero p q r h = omega (arith, h)
differ_self (suc zero) (suc (suc y)) z p q r h = absurd (omega arith)
differ_self (suc zero) zero (suc (suc z)) p q r h = absurd (omega arith)
differ_self (suc zero) (suc zero) (suc (suc z)) p q r h = absurd (omega arith)
differ_self (suc (suc x)) y z p q r h = absurd (omega arith)

bit_xor_step : (a b : ℕ) → bit_xor a b ≡ bit_xor (a / 2) (b / 2) * 2 + differ (a % 2) (b % 2)
bit_xor_step zero b = zero-bit_xor b ∙ omega (arith, zero-bit_xor (b / 2))
bit_xor_step (suc a) b =
    bit_xor-bitwise (suc a) b
    ∙ ap (λ x. x * 2 + differ (suc a % 2) (b % 2))
        (xor_digits_fuel a (suc a / 2) (suc a / 2) (b / 2) (omega arith) (omega arith)
          ∙ sym (bit_xor-bitwise (suc a / 2) (b / 2)))

-- An exclusive or with the same number a second time gives the first one back.
pub bit_xor_back : (n a b : ℕ) → a ≤ n → b ≤ n → bit_xor (bit_xor a b) b ≡ a
bit_xor_back zero zero zero p q = refl
bit_xor_back zero (suc a) b p q = absurd (omega arith)
bit_xor_back zero zero (suc b) p q = absurd (omega arith)
bit_xor_back (suc n) a b p q =
    back (bit_xor a b) (bit_xor (a / 2) (b / 2)) (bit_xor_step a b)
      (bit_xor_back n (a / 2) (b / 2) (omega arith) (omega arith))
      (differ_small (a % 2) (b % 2) (omega arith) (omega arith))
  where
    back :
        (r h : ℕ)
        → r ≡ h * 2 + differ (a % 2) (b % 2)
        → bit_xor h (b / 2) ≡ a / 2
        → (differ (a % 2) (b % 2) < 2) × (differ (differ (a % 2) (b % 2)) (b % 2) ≡ a % 2)
        → bit_xor r b ≡ a
    back r h e i (l, d) =
        bit_xor_step r b
        ∙ ap (λ x. bit_xor x (b / 2) * 2 + differ (r % 2) (b % 2))
            (half r h (differ (a % 2) (b % 2)) e l)
        ∙ ap (λ x. bit_xor h (b / 2) * 2 + differ x (b % 2)) (low r h (differ (a % 2) (b % 2)) e l)
        ∙ omega (arith, i, d)
      where
        half : (r h x : ℕ) → r ≡ h * 2 + x → x < 2 → r / 2 ≡ h
        half r h x e l = omega (arith, e, l)

        low : (r h x : ℕ) → r ≡ h * 2 + x → x < 2 → r % 2 ≡ x
        low r h x e l = omega (arith, e, l)

-- It tells two numbers apart.
pub bit_xor_apart : (n a b c : ℕ) → a ≤ n → b ≤ n → c ≤ n → bit_xor a b ≡ bit_xor a c → b ≡ c
bit_xor_apart zero a b c p q r h = omega arith
bit_xor_apart (suc n) a b c p q r h =
    halves
      (bit_xor_apart n (a / 2) (b / 2) (c / 2) (omega arith) (omega arith) (omega arith) (apart.0))
      (differ_self (a % 2) (b % 2) (c % 2) (omega arith) (omega arith) (omega arith) (apart.1))
  where
    split : (x y u v : ℕ) → x * 2 + u ≡ y * 2 + v → u < 2 → v < 2 → (x ≡ y) × (u ≡ v)
    split x y u v e k l = (omega (arith, e, k, l), omega (arith, e, k, l))

    apart :
        (bit_xor (a / 2) (b / 2) ≡ bit_xor (a / 2) (c / 2))
        × (differ (a % 2) (b % 2) ≡ differ (a % 2) (c % 2))
    apart =
        split (bit_xor (a / 2) (b / 2)) (bit_xor (a / 2) (c / 2)) (differ (a % 2) (b % 2))
          (differ (a % 2) (c % 2)) (sym (bit_xor_step a b) ∙ h ∙ bit_xor_step a c)
          ((differ_small (a % 2) (b % 2) (omega arith) (omega arith)).0)
          ((differ_small (a % 2) (c % 2) (omega arith) (omega arith)).0)

    halves : b / 2 ≡ c / 2 → b % 2 ≡ c % 2 → b ≡ c
    halves e f = omega (arith, e, f)

abbrev two_to : ℕ → ℕ
two_to zero = 1
two_to (suc k) = 2 * two_to k

-- It needs no more digits than the two numbers.
pub bit_xor-lt : (k a b : ℕ) → a < two_to k → b < two_to k → bit_xor a b < two_to k
bit_xor-lt zero zero zero p q = omega arith
bit_xor-lt zero (suc a) b p q = absurd (omega arith)
bit_xor-lt zero zero (suc b) p q = absurd (omega arith)
bit_xor-lt (suc k) a b p q = omega (
  arith,
  bit_xor_step a b,
  bit_xor-lt k (a / 2) (b / 2) (omega arith) (omega arith),
  (differ_small (a % 2) (b % 2) (omega arith) (omega arith)).0,
)
