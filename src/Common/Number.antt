-- ===== src/Common/Number.antt =====
-- Numbers as text: `%u` and `%x`.
use Prim.Native.Nat.{ℕ, zero, suc, ◌+◌, ◌-◌, ◌*◌, ◌/◌, ◌%◌, ◌^◌, ◌<◌, ◌≤◌}
use mathlib.Core.Path.{◌≡◌, refl}
use mathlib.Core.Logic.{inl, inr}
use native.Mathlib.Omega.{arith}
use mathlib.Core.Bool.{true, false, ◌&&◌, ◌||◌}
use mathlib.Core.List.{[], ◌∷◌, ◌++◌}
use firewall.Common.Tests.{ltb, leb, ◌==◌, if◌then◌else◌, Bool-cases}
use firewall.Common.Lists.{drop, length, length-append}
use firewall.Common.CString.{CString, skip_spaces, begins}

-- The digit of a number below sixteen.
unfoldable pub digit : ℕ → ℕ
digit d = if ltb d 10 then b'0' + d else b'a' + (d - 10)

-- The digits of `n`, on fuel; `n + 1` is enough for a base of two or more.
unfoldable pub print_digits : ℕ → ℕ → ℕ → CString
unfolding digit
print_digits zero base n = []
print_digits (suc fuel) base n = elim (ltb n base) [
  | true ↦ digit n ∷ []
  | false ↦ print_digits fuel base (n / base) ++ digit (n % base) ∷ []
]

-- `%u`.
unfoldable pub print_decimal : ℕ → CString
unfolding print_digits
print_decimal n = print_digits (suc n) 10 n

-- `%x`.
unfoldable pub print_hex : ℕ → CString
unfolding print_digits
print_hex n = print_digits (suc n) 16 n

-- The digits at the head of a string: their value, how many they are, and what follows them.
unfoldable pub scan_digits : ℕ → CString → ℕ × ℕ × CString
scan_digits acc [] = (acc, 0, [])
scan_digits acc (c ∷ s) =
    let (n, count, rest) = scan_digits (acc * 10 + (c - b'0')) s in
    if leb b'0' c && leb c b'9' then (n, suc count, rest) else (acc, 0, c ∷ s)

-- `strtoul` to base ten, where `bits` is the width of `unsigned long`: the value and `*endptr`. With
-- no digit the value is 0 and `*endptr` the string itself; a value too large is the largest one; a
-- minus sign negates the value modulo `2 ^ bits`.
unfoldable pub strtoul : ℕ → CString → ℕ × CString
unfolding scan_digits
strtoul bits s =
    let body = skip_spaces s in
    let negative = begins (b'-' ∷ []) body in
    let signed = negative || begins (b'+' ∷ []) body in
    let (n, count, rest) = scan_digits 0 (if signed then drop 1 body else body) in
    if count == 0
    then (0, s)
    else if leb (2 ^ bits) n
    then (2 ^ bits - 1, rest)
    else (if negative then (2 ^ bits - n) % 2 ^ bits else n, rest)

-- The number that a text of decimal digits stands for.
abbrev decode : ℕ → CString → ℕ
decode acc [] = acc
decode acc (c ∷ s) = decode (acc * 10 + (c - b'0')) s

decode-snoc :
    (acc : ℕ) (s : CString) (c : ℕ) → decode acc (s ++ c ∷ []) ≡ decode acc s * 10 + (c - b'0')
decode-snoc acc [] c = refl
decode-snoc acc (x ∷ s) c = decode-snoc (acc * 10 + (x - b'0')) s c

digit-decimal : (d : ℕ) → d < 10 → digit d - b'0' ≡ d
unfolding digit
digit-decimal d h = ground arith

print_digits_last : (fuel n : ℕ) → ltb n 10 ≡ true → print_digits (suc fuel) 10 n ≡ digit n ∷ []
unfolding print_digits
print_digits_last fuel n h = ground arith

print_digits_more :
    (fuel n : ℕ)
    → ltb n 10 ≡ false
    → print_digits (suc fuel) 10 n ≡ print_digits fuel 10 (n / 10) ++ digit (n % 10) ∷ []
unfolding print_digits
print_digits_more fuel n h = ground arith

length-print_digits : (k fuel n : ℕ) → n < 10 ^ suc k → length (print_digits fuel 10 n) ≤ suc k
length-print_digits k zero n h = unfold print_digits in omega arith
length-print_digits zero (suc fuel) n h = rw (print_digits_last fuel n (ground arith)) (omega arith)
length-print_digits (suc k) (suc fuel) n h = elim (Bool-cases (ltb n 10)) [
  | inl small ↦ rw (print_digits_last fuel n (ground arith)) (omega arith)
  | inr large ↦
      rw
        (
          print_digits_more fuel n large,
          length-append (print_digits fuel 10 (n / 10)) (digit (n % 10) ∷ []),
        )
        (omega (arith, length-print_digits k fuel (n / 10) (omega arith)))
]

-- A number of at most `k + 1` digits.
pub length-print_decimal : (k n : ℕ) → n < 10 ^ suc k → length (print_decimal n) ≤ suc k
unfolding print_decimal
length-print_decimal k n h = length-print_digits k (suc n) n h

decode-print_digits : (fuel n : ℕ) → n < fuel → decode 0 (print_digits fuel 10 n) ≡ n
decode-print_digits zero n h = absurd (omega arith)
decode-print_digits (suc fuel) n h = elim (Bool-cases (ltb n 10)) [
  | inl small ↦ rw (print_digits_last fuel n small) (omega (arith, digit-decimal n (ground arith)))
  | inr large ↦
      let shorter : n / 10 < fuel = ground arith in
      let last : n % 10 < 10 = omega arith in
      rw
        (
          print_digits_more fuel n large,
          decode-snoc 0 (print_digits fuel 10 (n / 10)) (digit (n % 10)),
        )
        (omega (arith, decode-print_digits fuel (n / 10) shorter, digit-decimal (n % 10) last))
]

-- The fuel that `print_decimal` gives is enough: its text stands for the number.
decode-print_decimal : (n : ℕ) → decode 0 (print_decimal n) ≡ n
unfolding print_decimal
decode-print_decimal n = decode-print_digits (suc n) n (omega arith)
