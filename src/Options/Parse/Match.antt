-- ===== src/Options/Parse/Match.antt =====
-- The parsers of marks, DSCP classes, set matches, include types and reflection sources. `strtoul`
-- is the C library's with base 0, which the model takes as a parameter: none where it finds no number,
-- and otherwise the number and what stands behind it. A `uint32_t` is cut to 32 bits.
use firewall.Common.{
  ℕ, ◌%◌, ◌^◌, ◌-◌, ◌<◌, Bool, true, false, ◌||◌, List, [], ◌∷◌, map, Option, none, some, ◌≡◌,
  arith, ◌==◌, ltb, null, take, if◌then◌else◌, All, ◌⊎◌, inl, inr, ◌>>=◌,
}
use firewall.Common.CString.{CString, codes, streq, begins, snprintf}
use firewall.Options.Types.{Mark, Dscp, SetMatch}
use firewall.Options.Parse.Enum.{parse_enum}
use firewall.Options.Parse.Words.{negation, split_at}

abbrev pub Strtoul : Type 0
Strtoul = CString → Option (ℕ × CString)

-- `n = strtoul(val, &e, 0)`, and `e == val || *e`.
unfoldable pub whole_number : Strtoul → CString → Option ℕ
whole_number strtoul val = elim (strtoul val) [
  | none ↦ none
  | some (n, e) ↦ if null e then some (n % 2 ^ 32) else none
]

-- The mask: all ones if none is given.
unfoldable pub mask_of : Strtoul → Option CString → Option ℕ
unfolding whole_number
mask_of strtoul none = some (2 ^ 32 - 1)
mask_of strtoul (some s) = whole_number strtoul s

unfoldable pub parse_mark : Strtoul → CString → Option Mark
unfolding whole_number mask_of
parse_mark strtoul val = do
  let (invert, rest) = negation val
  let (number, s) = split_at b'/' rest
  n ← whole_number strtoul number
  m ← mask_of strtoul s
  some (record { set = true; invert = invert; mark = n; mask = m })

abbrev pub dscp_classes : List (CString × ℕ)
dscp_classes =
    (codes "CS0", 0)
    ∷ (codes "CS1", 8)
    ∷ (codes "CS2", 16)
    ∷ (codes "CS3", 24)
    ∷ (codes "CS4", 32)
    ∷ (codes "CS5", 40)
    ∷ (codes "CS6", 48)
    ∷ (codes "CS7", 56)
    ∷ (codes "BE", 0)
    ∷ (codes "LE", 1)
    ∷ (codes "AF11", 10)
    ∷ (codes "AF12", 12)
    ∷ (codes "AF13", 14)
    ∷ (codes "AF21", 18)
    ∷ (codes "AF22", 20)
    ∷ (codes "AF23", 22)
    ∷ (codes "AF31", 26)
    ∷ (codes "AF32", 28)
    ∷ (codes "AF33", 30)
    ∷ (codes "AF41", 34)
    ∷ (codes "AF42", 36)
    ∷ (codes "AF43", 38)
    ∷ (codes "EF", 46)
    ∷ []

-- The loop over the classes.
unfoldable pub find_class : CString → List (CString × ℕ) → Option ℕ
find_class val [] = none
find_class val ((name, dscp) ∷ classes) =
    let rest = find_class val classes in if streq name val then some dscp else rest

-- A number that is no class.
unfoldable pub dscp_number : Strtoul → CString → Option ℕ
unfolding whole_number
dscp_number strtoul val = elim (whole_number strtoul val) [
  | none ↦ none
  | some n ↦ if ltb 63 n then none else some n
]

unfoldable pub dscp_value : Strtoul → CString → Option ℕ
unfolding find_class dscp_number
dscp_value strtoul val = elim (find_class val dscp_classes) [
  | some dscp ↦ some dscp
  | none ↦ dscp_number strtoul val
]

unfoldable pub parse_dscp : Strtoul → CString → Option Dscp
unfolding dscp_value
parse_dscp strtoul val = do
  let (invert, rest) = negation val
  n ← dscp_value strtoul rest
  some (record { set = true; invert = invert; dscp = n })

-- `strtok`'s delimiters: for the name, and for the directions behind it.
abbrev is_blank : ℕ → Bool
is_blank c = c == b' ' || c == 9

abbrev is_separator : ℕ → Bool
is_separator c = is_blank c || c == b','

unfoldable pub skip_blanks : CString → CString
skip_blanks [] = []
skip_blanks (c ∷ s) = if is_blank c then skip_blanks s else c ∷ s

-- The word up to the first blank, and what stands behind that.
unfoldable pub take_word : CString → CString × CString
take_word [] = ([], [])
take_word (c ∷ s) =
    let (word, rest) = take_word s in if is_blank c then ([], s) else (c ∷ word, rest)

abbrev direction : CString → Option CString
direction p =
    if begins (codes "dest") p || begins (codes "dst") p
    then some (codes "dst")
    else if begins (codes "src") p
    then some (codes "src")
    else none

-- The words that `strtok` finds between separators; `within` tells whether the byte before is of a word.
unfoldable pub tokens : Bool → CString → List CString
tokens within [] = []
tokens within (c ∷ s) =
    let outside = tokens false s in
    let inside = tokens true s in
    if is_separator c then outside else if within then inside else (c ∷ word_of s) ∷ inside
  where
    word_of : CString → CString
    word_of [] = []
    word_of (c ∷ s) = let rest = word_of s in if is_separator c then [] else c ∷ rest

-- The directions past the last word are NULL, and not in the list.
unfoldable pub parse_setmatch : CString → Option SetMatch
unfolding skip_blanks take_word tokens
parse_setmatch val =
    let (invert, rest) = negation val in
    let (name, after) = take_word (skip_blanks rest) in
    if null (skip_blanks rest)
    then none
    else some (record {
      set = true;
      invert = invert;
      name = snprintf 32 name;
      dir = map direction (take 3 (tokens false after));
      ptr = none;
    })

abbrev include_types : List CString
include_types = codes "script" ∷ codes "restore" ∷ []

unfoldable pub parse_include_type : CString → Option ℕ
unfolding parse_enum
parse_include_type val = parse_enum val include_types 0

abbrev reflection_sources : List CString
reflection_sources = codes "internal" ∷ codes "external" ∷ []

unfoldable pub parse_reflection_source : CString → Option ℕ
unfolding parse_enum
parse_reflection_source val = parse_enum val reflection_sources 0

find_class-bounds :
    (val : CString) (classes : List (CString × ℕ)) (n : ℕ)
    → All (λ (c : CString × ℕ). c.1 < 64) classes
    → find_class val classes ≡ some n
    → n < 64
unfolding find_class
find_class-bounds val [] n all h = absurd (ground arith)
find_class-bounds val ((name, dscp) ∷ classes) n (small, all) h =
    ground (arith, find_class-bounds val classes n all)

class_or_number :
    (a b : Option ℕ) (n : ℕ)
    → (elim a [ some d ↦ some d | none ↦ b ]) ≡ some n
    → (a ≡ some n) ⊎ (b ≡ some n)
class_or_number none b n h = inr h
class_or_number (some d) b n h = inl h

dscp_number-bounds :
    (strtoul : Strtoul) (val : CString) (n : ℕ) → dscp_number strtoul val ≡ some n → n < 64
unfolding dscp_number
dscp_number-bounds strtoul val n h = ground arith

-- Whatever `strtoul` reads: a class or a number that is accepted is set, and has six bits.
parse_dscp-bounds :
    (strtoul : Strtoul) (val : CString) (d : Dscp)
    → parse_dscp strtoul val ≡ some d
    → (d.set ≡ true) × (d.dscp < 64)
unfolding parse_dscp dscp_value
parse_dscp-bounds strtoul val d h =
    let rest : CString = (negation val).1 in
    let value : dscp_value strtoul rest ≡ some d.dscp = ground arith in
    let small : d.dscp < 64 =
      elim (class_or_number (find_class rest dscp_classes) (dscp_number strtoul rest) d.dscp
        value) [
          | inl e ↦ find_class-bounds rest dscp_classes d.dscp (ground arith) e
          | inr e ↦ dscp_number-bounds strtoul rest d.dscp e
        ] in
    (ground arith, small)

-- Whatever `strtoul` reads: a mark and its mask that are accepted are set, and below 2 ^ 32.
parse_mark-bounds :
    (strtoul : Strtoul) (val : CString) (m : Mark)
    → parse_mark strtoul val ≡ some m
    → (m.set ≡ true) × (m.mark < 2 ^ 32) × (m.mask < 2 ^ 32)
unfolding parse_mark whole_number mask_of
parse_mark-bounds strtoul val m h = ground arith
