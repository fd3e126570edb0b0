-- ===== src/Utils/Netmask.antt =====
-- `fw3_netmask2bitlen` and `fw3_bitlen2netmask` of utils.c. An IPv4 mask is its 32-bit number in host
-- order, an IPv6 mask its sixteen bytes; the tag of the union is the family.
use firewall.Common.{
  below, below-at, ℕ, zero, suc, ◌+◌, ◌-◌, ◌*◌, ◌/◌, ◌%◌, ◌^◌, Bool, true, false, List, [], ◌∷◌,
  map, ◌≡◌, refl, ap, arith, Option, none, some, ◌==◌, ltb, leb, if◌then◌else◌, get_or, inl, inr,
  Bool-cases,
}
use firewall.Options.Types.{InetAddr, in4, in6}

-- The loop over an IPv4 mask, with `todo` turns before 32.
unfoldable pub count_v4 : ℕ → ℕ → ℕ → ℕ
count_v4 zero w bits = bits
count_v4 (suc todo) w bits = elim (leb (2 ^ 31) (w * 2 ^ bits % 2 ^ 32)) [
  | true ↦ count_v4 todo w (bits + 1)
  | false ↦ bits
]

-- The loop over an IPv6 mask, with `todo` turns before 128.
unfoldable pub count_v6 : ℕ → List ℕ → ℕ → ℕ
count_v6 zero mask bits = bits
count_v6 (suc todo) mask bits = elim (get_or mask (bits / 8) 0 * 2 ^ (bits % 8) / 128 % 2 == 1) [
  | true ↦ count_v6 todo mask (bits + 1)
  | false ↦ bits
]

unfoldable pub netmask2bitlen : InetAddr → ℕ
unfolding count_v4 count_v6
netmask2bitlen (in4 w) = count_v4 32 w 0
netmask2bitlen (in6 mask) = count_v6 128 mask 0

-- The first loop of the IPv6 case, with `todo` bytes to write.
unfoldable pub fill : ℕ → ℕ → List ℕ
fill zero rem = []
fill (suc todo) rem =
    let b = if ltb 8 rem then 8 else rem in 255 * 2 ^ (8 - b) % 256 ∷ fill todo (rem - b)

-- The number of bits is given as its sign and its absolute value; no negative number has that of 0.
unfoldable pub bitlen2netmask_v4 : Bool → ℕ → Option InetAddr
bitlen2netmask_v4 negative bits =
    let mask = if bits == 0 then 0 else 2 ^ 32 - 1 - (2 ^ (32 - bits) - 1) in
    if ltb 32 bits then none else some (in4 (if negative then 2 ^ 32 - 1 - mask else mask))

unfoldable pub bitlen2netmask_v6 : Bool → ℕ → Option InetAddr
unfolding fill
bitlen2netmask_v6 negative bits =
    if ltb 128 bits
    then none
    else some (in6 (if negative then map (λ b. 255 - b) (fill 16 bits) else fill 16 bits))

-- The round trip at one number of bits, as a test.
abbrev returns : Option InetAddr → ℕ → Bool
returns none n = false
returns (some mask) n = netmask2bitlen mask == n

returns_v4 : below 33 (λ n. returns (bitlen2netmask_v4 false n) n) ≡ true
unfolding netmask2bitlen bitlen2netmask_v4
returns_v4 = refl

returns_v6 : below 129 (λ n. returns (bitlen2netmask_v6 false n) n) ≡ true
unfolding netmask2bitlen bitlen2netmask_v6
returns_v6 = refl

-- The prefix length of a mask, where one is made.
abbrev pub length_of : Option InetAddr → Option ℕ
length_of none = none
length_of (some mask) = some (netmask2bitlen mask)

length_of-returns :
    (made : Option InetAddr) (n : ℕ) → returns made n ≡ true → length_of made ≡ some n
length_of-returns none n h = cc
length_of-returns (some mask) n h = ap some (ground arith)

length_v4 : (n : ℕ) → length_of (bitlen2netmask_v4 false n) ≡ (if leb n 32 then some n else none)
length_v4 n = elim (Bool-cases (leb n 32)) [
  | inl small ↦ rw small (
      length_of-returns (bitlen2netmask_v4 false n) n
        (below-at 33 (λ k. returns (bitlen2netmask_v4 false k) k) n returns_v4 (ground arith)))
  | inr large ↦
      let lt : ltb 32 n ≡ true = ground arith in rw large (unfold bitlen2netmask_v4 in rw lt refl)
]

length_v6 : (n : ℕ) → length_of (bitlen2netmask_v6 false n) ≡ (if leb n 128 then some n else none)
length_v6 n = elim (Bool-cases (leb n 128)) [
  | inl small ↦ rw small (
      length_of-returns (bitlen2netmask_v6 false n) n
        (below-at 129 (λ k. returns (bitlen2netmask_v6 false k) k) n returns_v6 (ground arith)))
  | inr large ↦
      let lt : ltb 128 n ≡ true = ground arith in rw large (unfold bitlen2netmask_v6 in rw lt refl)
]

-- A number of bits becomes a mask whose prefix length is that number, if it is at most 32 for IPv4
-- and at most 128 for IPv6; a larger one is refused.
pub netmask2bitlen-bitlen2netmask :
    (n : ℕ)
    → (length_of (bitlen2netmask_v4 false n) ≡ (if leb n 32 then some n else none))
      × (length_of (bitlen2netmask_v6 false n) ≡ (if leb n 128 then some n else none))
netmask2bitlen-bitlen2netmask n = (length_v4 n, length_v6 n)
