-- ===== src/Common/CString.antt =====
-- C strings, as lists of bytes without the terminating NUL, and the C library's functions on them.
use Prim.Native.Char.{code}
use Prim.Native.Nat.{ℕ, ◌+◌, ◌-◌, ◌<◌}
use Prim.Native.String.{String}
use mathlib.Core.Path.{◌≡◌, refl}
use mathlib.Core.Bool.{Bool, true, false, ◌&&◌, ◌||◌}
use mathlib.Core.List.{List, [], ◌∷◌}
use mathlib.Core.Logic.{◌↔◌}
use native.Mathlib.Omega.{arith}
use firewall.Common.Tests.{◌==◌, leb, if◌then◌else◌}
use firewall.Common.Lists.{length, take, length-take, take_all}

abbrev pub CString : Type 0
CString = List ℕ

-- The bytes of a literal, which is ASCII wherever it is used here.
abbrev pub codes : String → CString
codes String.[] = []
codes (String.◌∷◌ c s) = code c ∷ codes s

-- `!strcmp(a, b)`.
unfoldable pub streq : CString → CString → Bool
streq [] [] = true
streq [] (y ∷ b) = false
streq (x ∷ a) [] = false
streq (x ∷ a) (y ∷ b) = x == y && streq a b

pub streq_iff : (a b : CString) → (streq a b ≡ true) ↔ (a ≡ b)
unfolding streq
streq_iff [] [] = ground arith
streq_iff [] (y ∷ b) = ground arith
streq_iff (x ∷ a) [] = ground arith
streq_iff (x ∷ a) (y ∷ b) = ground (arith, streq_iff a b)

pub streq_refl : (a : CString) → streq a a ≡ true
streq_refl a = (streq_iff a a).1 refl

-- `tolower` in the C locale.
unfoldable pub tolower : ℕ → ℕ
tolower c = if leb b'A' c && leb c b'Z' then c + 32 else c

-- `!strncasecmp(val, name, strlen(val))`: `val` begins `name`, whatever the case.
unfoldable pub begins_nocase : CString → CString → Bool
unfolding tolower
begins_nocase [] name = true
begins_nocase (x ∷ val) [] = false
begins_nocase (x ∷ val) (y ∷ name) = tolower x == tolower y && begins_nocase val name

-- `!strncmp(s, prefix, strlen(prefix))`.
unfoldable pub begins : CString → CString → Bool
begins [] s = true
begins (x ∷ prefix) [] = false
begins (x ∷ prefix) (y ∷ s) = x == y && begins prefix s

-- `isspace` in the C locale.
unfoldable pub isspace : ℕ → Bool
isspace c = c == b' ' || leb 9 c && leb c 13

-- `while (isspace(*val)) val++`.
unfoldable pub skip_spaces : CString → CString
unfolding isspace
skip_spaces [] = []
skip_spaces (c ∷ s) = if isspace c then skip_spaces s else c ∷ s

-- What `snprintf` leaves in a buffer of `size` bytes, for an output `s`.
unfoldable pub snprintf : ℕ → CString → CString
snprintf size s = take (size - 1) s

pub length-snprintf : (size : ℕ) (s : CString) → 0 < size → length (snprintf size s) < size
unfolding snprintf
length-snprintf size s h = omega (arith, length-take (size - 1) s)

-- An output that fits is written whole.
pub snprintf_fits : (size : ℕ) (s : CString) → length s < size → snprintf size s ≡ s
unfolding snprintf
snprintf_fits size s h = take_all (size - 1) s (omega arith)

-- `!strcasecmp(a, b)`.
unfoldable pub streq_nocase : CString → CString → Bool
unfolding tolower
streq_nocase [] [] = true
streq_nocase [] (y ∷ b) = false
streq_nocase (x ∷ a) [] = false
streq_nocase (x ∷ a) (y ∷ b) = tolower x == tolower y && streq_nocase a b

-- The string is among those of a list.
unfoldable pub elem : CString → List CString → Bool
elem a [] = false
elem a (b ∷ bs) = streq a b || elem a bs
