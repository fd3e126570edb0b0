-- ===== src/Utils/Flags.antt =====
-- The two flag words that a zone, the defaults and a set keep, one for each family, and the macros
-- of utils.h that read and write them.
use firewall.Common.{ℕ, ◌<◌, Bool, true, false, ◌&&◌, ◌||◌, not, ◌≡◌, arith, ◌==◌, if◌then◌else◌}
use firewall.Common.Bits.{setbit, delbit, hasbit, hasbit-setbit, hasbit-delbit}
use firewall.Options.Family

-- `uint32_t flags[2]`.
pub record Flags : Type 0 where
  pub v4 : ℕ
  pub v6 : ℕ

-- `field[family == FW3_FAMILY_V6]`.
unfoldable pub word : Flags → ℕ → ℕ
word field family = if family == Family.v6 then field.v6 else field.v4

unfoldable pub set : Flags → ℕ → ℕ → Flags
set field family flag =
    if family == Family.v6
    then record field { v6 = setbit field.v6 flag }
    else record field { v4 = setbit field.v4 flag }

unfoldable pub del : Flags → ℕ → ℕ → Flags
del field family flag =
    if family == Family.v6
    then record field { v6 = delbit field.v6 flag }
    else record field { v4 = delbit field.v4 flag }

unfoldable pub has : Flags → ℕ → ℕ → Bool
unfolding word
has field family flag = hasbit (word field family) flag

-- `fw3_is_family(p, f)` for a `p` that is not NULL.
unfoldable pub is_family : ℕ → ℕ → Bool
is_family family f = family == Family.any || family == f

-- Two families have one flag word.
abbrev pub same_word : ℕ → ℕ → Bool
same_word f g = elim (f == Family.v6) [ true ↦ g == Family.v6 | false ↦ not (g == Family.v6) ]

pub has-set :
    (x : Flags) (f a g b : ℕ) → has (set x f a) g b ≡ (has x g b || same_word f g && a == b)
unfolding has set
has-set x f a g b = ground (arith, hasbit-setbit x.v4 a b, hasbit-setbit x.v6 a b)

pub has-del :
    (x : Flags) (f a g b : ℕ)
    → a < 32
    → b < 32
    → has (del x f a) g b ≡ (has x g b && not (same_word f g && a == b))
unfolding has del
has-del x f a g b ha hb = ground (arith, hasbit-delbit x.v4 a b ha hb, hasbit-delbit x.v6 a b ha hb)

-- Setting a bit that is set changes no test.
pub has-set_again : (x : Flags) (f a b : ℕ) → has x f a ≡ true → has (set x f a) f b ≡ has x f b
unfolding has
has-set_again x f a b on = ground (arith, has-set x f a f b)

-- A bit that was set is read back.
pub has-set_self : (x : Flags) (f a : ℕ) → has (set x f a) f a ≡ true
has-set_self x f a = ground (arith, has-set x f a f a)

-- Setting a bit clears none.
pub has-set_mono : (x : Flags) (f a g b : ℕ) → has x g b ≡ true → has (set x f a) g b ≡ true
has-set_mono x f a g b on = ground (arith, has-set x f a g b)
