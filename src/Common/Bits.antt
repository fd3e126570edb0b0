-- ===== src/Common/Bits.antt =====
-- Flag words. utils.h sets, clears and tests one bit of a 32-bit word by `|`, `& ~` and `&`.
use Prim.Native.Nat.{
  ℕ, zero, suc, ◌+◌, ◌-◌, ◌*◌, ◌/◌, ◌%◌, ◌^◌, ◌≤◌, ◌<◌, min, max, bit_and, bit_or, digits,
  bit_and-bitwise, bit_or-bitwise,
}
use mathlib.Core.Path.{◌≡◌, refl, ap, ◌∙◌}
use mathlib.Core.Bool.{Bool, false, not, ◌&&◌, ◌||◌}
use mathlib.Core.Logic.{inl, inr}
use native.Mathlib.Omega.{arith}
use native.Mathlib.Nat.{pow-suc, one-le-pow}
use firewall.Common.Tests.{◌==◌, ltb, Bool-cases}

-- The bit of weight 2 ^ k.
pub testbit : ℕ → ℕ → Bool
testbit x zero = x % 2 == 1
testbit x (suc k) = testbit (x / 2) k

testbit_zero : (k : ℕ) → testbit 0 k ≡ false
unfolding testbit
testbit_zero zero = refl
testbit_zero (suc k) = testbit_zero k

-- One binary digit put below the others.
testbit_digit : (q d k : ℕ) → d ≤ 1 → testbit (q * 2 + d) (suc k) ≡ testbit q k
unfolding testbit
testbit_digit q d k h = let e : (q * 2 + d) / 2 ≡ q = omega arith in rw e

testbit-and_digits :
    (n a b k : ℕ) → a ≤ n → testbit (digits (λ y. 0) min n a b) k ≡ (testbit a k && testbit b k)
unfolding testbit
testbit-and_digits zero zero b k h = rw testbit_zero
testbit-and_digits zero (suc a) b k h = absurd (omega arith)
testbit-and_digits (suc n) zero b k h = rw testbit_zero
testbit-and_digits (suc n) (suc a) b zero h = ground arith
testbit-and_digits (suc n) (suc a) b (suc k) h =
    testbit_digit (digits (λ y. 0) min n (suc a / 2) (b / 2)) (min (suc a % 2) (b % 2)) k
      (omega arith)
    ∙ testbit-and_digits n (suc a / 2) (b / 2) k (omega arith)

testbit-or_digits :
    (n a b k : ℕ) → a ≤ n → testbit (digits (λ y. y) max n a b) k ≡ (testbit a k || testbit b k)
unfolding testbit
testbit-or_digits zero zero b k h = rw testbit_zero
testbit-or_digits zero (suc a) b k h = absurd (omega arith)
testbit-or_digits (suc n) zero b k h = rw testbit_zero
testbit-or_digits (suc n) (suc a) b zero h = ground arith
testbit-or_digits (suc n) (suc a) b (suc k) h =
    testbit_digit (digits (λ y. y) max n (suc a / 2) (b / 2)) (max (suc a % 2) (b % 2)) k
      (omega arith)
    ∙ testbit-or_digits n (suc a / 2) (b / 2) k (omega arith)

pub testbit-bit_and : (a b k : ℕ) → testbit (bit_and a b) k ≡ (testbit a k && testbit b k)
testbit-bit_and a b k = rw bit_and-bitwise (testbit-and_digits a a b k (omega arith))

pub testbit-bit_or : (a b k : ℕ) → testbit (bit_or a b) k ≡ (testbit a k || testbit b k)
testbit-bit_or a b k = rw bit_or-bitwise (testbit-or_digits a a b k (omega arith))

-- `1 << k` has the bit k alone.
testbit-pow : (a k : ℕ) → testbit (2 ^ a) k ≡ (a == k)
unfolding testbit
testbit-pow zero zero = refl
testbit-pow zero (suc k) = testbit_zero k ∙ ground arith
testbit-pow (suc a) zero = ground (arith, pow-suc 2 a)
testbit-pow (suc a) (suc k) =
    let e : 2 ^ suc a / 2 ≡ 2 ^ a = omega (arith, pow-suc 2 a) in
    rw e (testbit-pow a k ∙ ground arith)

-- The word of `w` ones.
testbit_ones : (w k : ℕ) → testbit (2 ^ w - 1) k ≡ ltb k w
unfolding testbit
testbit_ones zero k = testbit_zero k ∙ ground arith
testbit_ones (suc w) zero = ground (arith, pow-suc 2 w, one-le-pow w 2)
testbit_ones (suc w) (suc k) =
    let e : (2 ^ suc w - 1) / 2 ≡ 2 ^ w - 1 = omega (arith, pow-suc 2 w) in
    rw e (testbit_ones w k ∙ ground arith)

pow_lt : (a w : ℕ) → a < w → 2 ^ a < 2 ^ w
pow_lt a zero h = absurd (omega arith)
pow_lt zero (suc w) h = omega (arith, pow-suc 2 w, one-le-pow w 2)
pow_lt (suc a) (suc w) h = omega (arith, pow-suc 2 w, pow-suc 2 a, pow_lt a w (omega arith))

-- The word of `w` bits in which the bit `a` alone is clear.
testbit_hole : (w a k : ℕ) → a < w → testbit (2 ^ w - 1 - 2 ^ a) k ≡ (ltb k w && not (a == k))
unfolding testbit
testbit_hole zero a k h = absurd (omega arith)
testbit_hole (suc w) zero zero h = ground (arith, pow-suc 2 w, one-le-pow w 2)
testbit_hole (suc w) zero (suc k) h =
    let e : (2 ^ suc w - 1 - 2 ^ 0) / 2 ≡ 2 ^ w - 1 = omega (arith, pow-suc 2 w) in
    rw e (testbit_ones w k ∙ ground arith)
testbit_hole (suc w) (suc a) zero h =
    ground (arith, pow-suc 2 w, pow-suc 2 a, pow_lt a w (omega arith))
testbit_hole (suc w) (suc a) (suc k) h =
    let e : (2 ^ suc w - 1 - 2 ^ suc a) / 2 ≡ 2 ^ w - 1 - 2 ^ a =
      omega (arith, pow-suc 2 w, pow-suc 2 a, pow_lt a w (omega arith)) in
    rw e (testbit_hole w a k (omega arith) ∙ ground arith)

-- `fw3_setbit(field, flag)`.
unfoldable pub setbit : ℕ → ℕ → ℕ
setbit field flag = bit_or field (2 ^ flag)

-- `fw3_delbit(field, flag)` on a word of 32 bits.
unfoldable pub delbit : ℕ → ℕ → ℕ
delbit field flag = bit_and field (2 ^ 32 - 1 - 2 ^ flag)

-- `fw3_hasbit(field, flag)`, as a condition.
unfoldable pub hasbit : ℕ → ℕ → Bool
hasbit field flag = not (bit_and field (2 ^ flag) == 0)

-- A number with no bit is zero.
zero_of_testbit : (n x : ℕ) → x ≤ n → ((k : ℕ) → testbit x k ≡ false) → x ≡ 0
unfolding testbit
zero_of_testbit zero x le h = omega arith
zero_of_testbit (suc n) zero le h = refl
zero_of_testbit (suc n) (suc x) le h =
    let half : suc x / 2 ≡ 0 = zero_of_testbit n (suc x / 2) (omega arith) (λ k. h (suc k)) in
    ground (arith, h 0)

testbit-and_pow : (x a k : ℕ) → testbit (bit_and x (2 ^ a)) k ≡ (testbit x k && (a == k))
testbit-and_pow x a k = rw (testbit-bit_and, testbit-pow)

pub hasbit-testbit : (x a : ℕ) → hasbit x a ≡ testbit x a
unfolding hasbit
hasbit-testbit x a = elim (Bool-cases (testbit x a)) [
  | inl on ↦ ground (
    arith,
    testbit-and_pow x a a,
    testbit_zero a,
    λ (e : bit_and x (2 ^ a) ≡ 0). ap (λ w. testbit w a) e,
  )
  | inr off ↦ ground (
    arith,
    zero_of_testbit (bit_and x (2 ^ a)) (bit_and x (2 ^ a)) (omega arith)
        (λ k. testbit-and_pow x a k ∙ ground arith),
  )
]

-- What each operation does to each bit.
pub hasbit-setbit : (x a k : ℕ) → hasbit (setbit x a) k ≡ (hasbit x k || (a == k))
unfolding setbit
hasbit-setbit x a k = rw (hasbit-testbit, hasbit-testbit, testbit-bit_or, testbit-pow)

pub hasbit-delbit :
    (x a k : ℕ) → a < 32 → k < 32 → hasbit (delbit x a) k ≡ (hasbit x k && not (a == k))
unfolding delbit
hasbit-delbit x a k ha hk =
    rw (hasbit-testbit, hasbit-testbit, testbit-bit_and)
      (ap (λ b. testbit x k && b) (testbit_hole 32 a k ha) ∙ ground arith)
