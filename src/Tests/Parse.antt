-- ===== src/Tests/Parse.antt =====
-- The results on the value parsers at concrete inputs.
use firewall.Common.{
  ◌-◌, [], ◌∷◌, none, ◌*◌, ◌<◌, ◌≤◌, ◌+◌, true, false, some, none, ◌≡◌, refl, arith, ◌^◌,
}
use firewall.Common.Bits.{hasbit, setbit}
use firewall.Common.CString.{codes, begins_nocase, skip_spaces, begins}
use firewall.Common.Number.{strtoul}
use firewall.Options.Flag
use firewall.Options.Names.{flag_names, name_at}
use firewall.Options.Parse.Enum.{
  parse_enum, parse_target, target_names, IsFirst, parse_enum-IsFirst, parse_target-name_at,
}
use firewall.Options.Parse.Time.{parse_time, parse_weekdays, parse_monthdays}
use firewall.Options.Parse.Time.{parse_time-bounds}
use firewall.Options.Parse.Port.{parse_port, sets_errno, parse_port-bounds}
use firewall.Options.Parse.Match.{parse_setmatch, parse_dscp, parse_mark, whole_number}
use firewall.Options.Parse.Days.{parse_monthdays-bounds}

target_mark : parse_target (codes "mark") ≡ some Flag.mark
unfolding parse_target begins_nocase flag_names
target_mark = refl

parse_enum-IsFirst_example : IsFirst (codes "mark") target_names Flag.accept Flag.mark
unfolding parse_target
parse_enum-IsFirst_example =
    parse_enum-IsFirst (codes "mark") target_names Flag.accept Flag.mark target_mark

parse_target-name_at_example : parse_target (name_at flag_names Flag.drop) ≡ some Flag.drop
parse_target-name_at_example = parse_target-name_at Flag.drop (omega arith) (omega arith)

time_of_day : parse_time 32 (codes "23:59:01") ≡ some 86341
unfolding parse_time strtoul skip_spaces begins
time_of_day = refl

-- A minus sign wraps around, and the hour is refused.
negative_hour : parse_time 64 (codes "-1:00") ≡ none
unfolding parse_time strtoul skip_spaces begins
negative_hour = refl

parse_time-bounds_example : 86341 < 24 * 60 * 60
parse_time-bounds_example = parse_time-bounds 32 (codes "23:59:01") 86341 time_of_day

some_days : parse_monthdays 32 0 (codes "! 1 31") ≡ some (2 ^ 31 + 3)
unfolding parse_monthdays strtoul skip_spaces setbit begins
some_days = refl

parse_monthdays-bounds_example : hasbit (2 ^ 31 + 3) 32 ≡ false
unfolding hasbit
parse_monthdays-bounds_example =
    parse_monthdays-bounds 32 0 (2 ^ 31 + 3) 32 (codes "! 1 31") some_days (omega arith) refl

weekend : parse_weekdays 32 0 (codes "sat 7") ≡ some 192
unfolding parse_weekdays parse_enum begins_nocase strtoul skip_spaces setbit begins
weekend = refl

mail_ports :
    parse_port 32 false false (codes "20-25")
    ≡ some (record { set = true; invert = false; port_min = 20; port_max = 25 })
unfolding parse_port sets_errno firewall.Options.Parse.Words.negation strtoul skip_spaces begins
mail_ports = refl

-- A number beyond 65535 is cut to sixteen bits.
wrapped_port :
    parse_port 32 false false (codes "65558")
    ≡ some (record { set = true; invert = false; port_min = 22; port_max = 22 })
unfolding parse_port sets_errno firewall.Options.Parse.Words.negation strtoul skip_spaces begins
wrapped_port = refl

parse_port-bounds_example : (true ≡ true) × (20 ≤ 25) × (25 < 2 ^ 16)
parse_port-bounds_example =
    parse_port-bounds 32 false false (codes "20-25")
      (record { set = true; invert = false; port_min = 20; port_max = 25 }) mail_ports

-- Where an earlier call has left ERANGE or EINVAL in `errno`, the text is refused.
stale_errno : parse_port 32 false true (codes "80") ≡ none
unfolding parse_port
stale_errno = refl

two_directions :
    parse_setmatch (codes "!mail  dest,src")
    ≡ some (record {
      set = true;
      invert = true;
      name = codes "mail";
      dir = some (codes "dst") ∷ some (codes "src") ∷ [];
      ptr = none;
    })
unfolding parse_setmatch firewall.Options.Parse.Words.negation
    firewall.Options.Parse.Match.skip_blanks firewall.Options.Parse.Match.take_word
    firewall.Options.Parse.Match.tokens begins skip_spaces firewall.Common.CString.snprintf
two_directions = refl

expedited :
    parse_dscp (λ val. none) (codes "!EF") ≡ some (record { set = true; invert = true; dscp = 46 })
unfolding parse_dscp firewall.Options.Parse.Words.negation firewall.Options.Parse.Match.dscp_value
    firewall.Options.Parse.Match.find_class firewall.Common.CString.streq skip_spaces
expedited = refl

-- With no mask every bit is compared.
full_mask :
    parse_mark (λ val. some (16, [])) (codes "0x10")
    ≡ some (record { set = true; invert = false; mark = 16; mask = 2 ^ 32 - 1 })
unfolding parse_mark firewall.Options.Parse.Words.negation firewall.Options.Parse.Words.split_at
    whole_number firewall.Options.Parse.Match.mask_of
full_mask = refl
