-- ===== src/Options/Parse/Days.antt =====
-- The words of days that `fw3_parse_weekdays` and `fw3_parse_monthdays` write fit their fields.
use firewall.Common.{
  ℕ, ◌≤◌, ◌<◌, Bool, true, false, List, [], ◌∷◌, Option, some, ◌≡◌, arith, Option-cases, inl, inr,
}
use firewall.Common.Bits.{setbit, hasbit, hasbit-setbit}
use firewall.Common.CString.{CString}
use firewall.Options.Parse.Enum.{parse_enum, parse_enum-IsFirst, get_elem?-lt}
use firewall.Options.Parse.Words.{negation}
use firewall.Options.Parse.Time.{
  parse_day, parse_weekday, set_days, split_words, start, weekdays, parse_weekdays, parse_monthdays,
}

-- A parser of days yields none above `max`.
abbrev UpTo : (CString → Option ℕ) → ℕ → Type 0
UpTo parse max = (word : CString) (d : ℕ) → parse word ≡ some d → d ≤ max

parse_day-UpTo : (bits max : ℕ) → UpTo (parse_day bits max) max
unfolding parse_day
parse_day-UpTo bits max word d h = ground arith

parse_weekday-UpTo : (bits : ℕ) → UpTo (parse_weekday bits) 7
unfolding parse_weekday
parse_weekday-UpTo bits word d h = elim (Option-cases (parse_enum word weekdays 1)) [
  | inl missing ↦ parse_day-UpTo bits 7 word d (ground arith)
  | inr (w, found) ↦
      let same : w ≡ d = ground arith in
      let (k, name, e, at, hit, before) = parse_enum-IsFirst word weekdays 1 w found in
      let lt : k < 7 = get_elem?-lt weekdays k name at in omega arith
]

set_days-high :
    (parse : CString → Option ℕ) (max : ℕ) (words : List CString) (field w k : ℕ)
    → UpTo parse max
    → set_days parse words field ≡ some w
    → max < k
    → hasbit field k ≡ false
    → hasbit w k ≡ false
unfolding set_days
set_days-high parse max [] field w k up h lt off = let e : field ≡ w = ground arith in rw (← e) off
set_days-high parse max (word ∷ words) field w k up h lt off = elim (Option-cases (parse word)) [
  | inl missing ↦ absurd (ground arith)
  | inr (d, found) ↦
      let le : d ≤ max = up word d found in
      set_days-high parse max words (setbit field d) w k up (ground arith) lt
        (ground (arith, hasbit-setbit field d k))
]

start-high :
    (invert : Bool) (field k : ℕ)
    → 0 < k
    → hasbit field k ≡ false
    → hasbit (start invert field) k ≡ false
start-high true field k lt off = ground (arith, hasbit-setbit field 0 k)
start-high false field k lt off = off

-- A list of days of the month that is accepted, whatever its text, sets no bit above 31, so that the
-- field of 32 bits holds what it sets.
pub parse_monthdays-bounds :
    (bits field w k : ℕ) (val : CString)
    → parse_monthdays bits field val ≡ some w
    → 31 < k
    → hasbit field k ≡ false
    → hasbit w k ≡ false
unfolding parse_monthdays
parse_monthdays-bounds bits field w k val h lt off =
    let (invert, rest) = negation val in
    set_days-high (parse_day bits 31) 31 (split_words [] rest) (start invert field) w k
      (parse_day-UpTo bits 31) h lt (start-high invert field k (omega arith) off)

-- A list of weekdays that is accepted, whatever its text, sets no bit above 7, so that the field of 8
-- bits holds what it sets.
parse_weekdays-bounds :
    (bits field w k : ℕ) (val : CString)
    → parse_weekdays bits field val ≡ some w
    → 7 < k
    → hasbit field k ≡ false
    → hasbit w k ≡ false
unfolding parse_weekdays
parse_weekdays-bounds bits field w k val h lt off =
    let (invert, rest) = negation val in
    set_days-high (parse_weekday bits) 7 (split_words [] rest) (start invert field) w k
      (parse_weekday-UpTo bits) h lt (start-high invert field k (omega arith) off)
