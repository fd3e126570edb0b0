-- ===== src/Zones/Load/Bits.antt =====
-- The steps of `fw3_load_zones` that mark bits only add to them.
use firewall.Common.{
  ℕ, Bool, true, false, List, [], ◌∷◌, none, some, ◌≡◌, refl, arith, null, Bool-cases, Option-cases,
  inl, inr,
}
use firewall.Options.Family
use firewall.Options.Flag
use firewall.Options.Types.{CtHelperMatch, Zone}
use firewall.Options.Types.Config.{CtHelper}
use firewall.Utils.Flags.{Flags, has, has-set_self, has-set_mono}
use firewall.Rules.Check.{to_src_target}
use firewall.Zones.Load.{
  mark_nat, resolve_cthelpers, resolve_matches, mark_policies, set_if, match_helper, mark_helper,
}

pub has-mark_policies_mono :
    (family : ℕ) (z : Zone) (f a : ℕ)
    → has z.flags f a ≡ true
    → has (mark_policies family z).flags f a ≡ true
unfolding mark_policies
has-mark_policies_mono family z f a on = has-set_mono _ family z.policy_output f a (
    has-set_mono _ family z.policy_forward f a
      (has-set_mono z.flags family (to_src_target z.policy_input) f a on))

-- What the last two steps keep of a zone.
abbrev pub Alike : Zone → Zone → Type 0
Alike a b =
    (b.name ≡ a.name)
    × (b.masq ≡ a.masq)
    × (b.policy_input ≡ a.policy_input)
    × (b.policy_output ≡ a.policy_output)
    × (b.policy_forward ≡ a.policy_forward)

set_if-has :
    (on : Bool) (family flag : ℕ) (flags : Flags) (f a : ℕ)
    → has flags f a ≡ true
    → has (set_if on family flag flags) f a ≡ true
set_if-has true family flag flags f a h = has-set_mono flags family flag f a h
set_if-has false family flag flags f a h = h

resolve_matches-none :
    (helpers : List CtHelper) (m : CtHelperMatch) (ms : List CtHelperMatch) (flags : Flags)
    → match_helper helpers m ≡ none
    → (resolve_matches helpers (m ∷ ms) flags).1 ≡ (resolve_matches helpers ms flags).1
unfolding resolve_matches
resolve_matches-none helpers m ms flags h = ground arith

resolve_matches-some :
    (helpers : List CtHelper) (m : CtHelperMatch) (ms : List CtHelperMatch) (flags : Flags) (i : ℕ)
    → match_helper helpers m ≡ some i
    → (resolve_matches helpers (m ∷ ms) flags).1
      ≡ (resolve_matches helpers ms (mark_helper helpers i flags)).1
unfolding resolve_matches
resolve_matches-some helpers m ms flags i h = ground arith

mark_helper-has :
    (helpers : List CtHelper) (i : ℕ) (flags : Flags) (f a : ℕ)
    → has flags f a ≡ true
    → has (mark_helper helpers i flags) f a ≡ true
unfolding mark_helper
mark_helper-has helpers i flags f a h =
    set_if-has _ Family.v6 Flag.helper _ f a (set_if-has _ Family.v4 Flag.helper flags f a h)

resolve_matches-has :
    (helpers : List CtHelper) (ms : List CtHelperMatch) (flags : Flags) (f a : ℕ)
    → has flags f a ≡ true
    → has (resolve_matches helpers ms flags).1 f a ≡ true
resolve_matches-has helpers [] flags f a on = unfold resolve_matches in on
resolve_matches-has helpers (m ∷ ms) flags f a on = elim (Option-cases (match_helper helpers m)) [
  | inl missing ↦
      rw (resolve_matches-none helpers m ms flags missing)
        (resolve_matches-has helpers ms flags f a on)
  | inr (i, found) ↦ rw (resolve_matches-some helpers m ms flags i found) (
      resolve_matches-has helpers ms (mark_helper helpers i flags) f a
        (mark_helper-has helpers i flags f a on))
]

pub resolve_cthelpers-has :
    (helpers : List CtHelper) (z : Zone) (f a : ℕ)
    → has z.flags f a ≡ true
    → has (resolve_cthelpers helpers z).flags f a ≡ true
unfolding resolve_cthelpers
resolve_cthelpers-has helpers z f a on = elim (Bool-cases (null z.cthelpers)) [
  | inl empty ↦
      rw empty (
        set_if-has _ Family.v6 Flag.helper _ f a
          (set_if-has _ Family.v4 Flag.helper z.flags f a on))
  | inr more ↦ rw more (resolve_matches-has helpers z.cthelpers z.flags f a on)
]

pub resolve_cthelpers-Alike :
    (helpers : List CtHelper) (z : Zone) → Alike z (resolve_cthelpers helpers z)
unfolding resolve_cthelpers
resolve_cthelpers-Alike helpers z = elim (Bool-cases (null z.cthelpers)) [
  | inl empty ↦ rw empty (refl, refl, refl, refl, refl)
  | inr more ↦ rw more (refl, refl, refl, refl, refl)
]

pub mark_nat-snat : (z : Zone) → z.masq ≡ true → has (mark_nat z).flags Family.v4 Flag.snat ≡ true
unfolding mark_nat
mark_nat-snat z on = set_if-has z.custom_chains Family.v4 Flag.dnat _ Family.v4 Flag.snat (
    set_if-has z.custom_chains Family.v4 Flag.snat _ Family.v4 Flag.snat
      (rw on (has-set_self z.flags Family.v4 Flag.snat)))
