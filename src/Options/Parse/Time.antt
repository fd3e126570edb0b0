-- ===== src/Options/Parse/Time.antt =====
-- The parsers of times of day, weekdays and days of the month. `bits` is the width of
-- `unsigned long`; an `unsigned int` is cut to 32 bits.
use firewall.Common.{
  ℕ, ◌+◌, ◌*◌, ◌%◌, ◌^◌, ◌<◌, Bool, not, ◌||◌, List, [], ◌∷◌, ◌++◌, Option, none, some, ◌==◌, ltb,
  null, ◌≡◌, arith, if◌then◌else◌, drop,
}
use firewall.Common.Bits.{setbit}
use firewall.Common.CString.{CString, codes, begins}
use firewall.Common.Number.{strtoul}
use firewall.Options.Parse.Enum.{parse_enum}
use firewall.Options.Parse.Words.{negation}

-- `(unsigned int)strtoul(s, &p, 10)`.
abbrev read_uint : ℕ → CString → ℕ × CString
read_uint bits s = let (n, rest) = strtoul bits s in (n % 2 ^ 32, rest)

abbrev seconds : ℕ → ℕ → ℕ → ℕ
seconds hour min sec = 60 * 60 * hour + 60 * min + sec

unfoldable pub parse_time : ℕ → CString → Option ℕ
parse_time bits val =
    let (hour, p) = read_uint bits val in
    let (min, q) = read_uint bits (drop 1 p) in
    let (sec, r) = read_uint bits (drop 1 q) in
    if not (begins (codes ":") p) || ltb 23 hour
    then none
    else if not (begins (codes ":") q || null q) || ltb 59 min
    then none
    else if null q
    then some (seconds hour min 0)
    else if not (null r) || ltb 59 sec
    then none
    else some (seconds hour min sec)

-- The words that `strtok` finds between spaces and tabs.
abbrev put_word : CString → List CString → List CString
put_word [] words = words
put_word (c ∷ word) words = (c ∷ word) ∷ words

-- The word that is read so far is in order.
unfoldable pub split_words : CString → CString → List CString
split_words word [] = put_word word []
split_words word (c ∷ val) =
    if c == b' ' || c == 9
    then put_word word (split_words [] val)
    else split_words (word ++ c ∷ []) val

abbrev pub weekdays : List CString
weekdays =
    codes "monday"
    ∷ codes "tuesday"
    ∷ codes "wednesday"
    ∷ codes "thursday"
    ∷ codes "friday"
    ∷ codes "saturday"
    ∷ codes "sunday"
    ∷ []

-- A number from 1 to `max` with nothing behind it.
unfoldable pub parse_day : ℕ → ℕ → CString → Option ℕ
parse_day bits max word =
    let (d, rest) = read_uint bits word in
    if not (null rest) || ltb d 1 || ltb max d then none else some d

unfoldable pub parse_weekday : ℕ → CString → Option ℕ
unfolding parse_day
parse_weekday bits word = elim (parse_enum word weekdays 1) [
  | some w ↦ some w
  | none ↦ parse_day bits 7 word
]

-- The loop over the words: each sets its bit.
unfoldable pub set_days : (CString → Option ℕ) → List CString → ℕ → Option ℕ
set_days parse [] field = some field
set_days parse (word ∷ words) field = elim (parse word) [
  | none ↦ none
  | some d ↦ set_days parse words (setbit field d)
]

-- A negated list sets the bit 0 too.
abbrev pub start : Bool → ℕ → ℕ
start invert field = if invert then setbit field 0 else field

unfoldable pub parse_weekdays : ℕ → ℕ → CString → Option ℕ
unfolding negation split_words set_days parse_weekday
parse_weekdays bits field val =
    let (invert, rest) = negation val in
    set_days (parse_weekday bits) (split_words [] rest) (start invert field)

unfoldable pub parse_monthdays : ℕ → ℕ → CString → Option ℕ
unfolding negation split_words set_days parse_day
parse_monthdays bits field val =
    let (invert, rest) = negation val in
    set_days (parse_day bits 31) (split_words [] rest) (start invert field)

-- Whatever is read, a time of day that `fw3_parse_time` accepts is less than a day.
pub parse_time-bounds :
    (bits : ℕ) (val : CString) (t : ℕ) → parse_time bits val ≡ some t → t < 24 * 60 * 60
unfolding parse_time
parse_time-bounds bits val t h = ground arith
