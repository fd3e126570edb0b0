-- ===== src/Zones/Load/Loaded.antt =====
-- What holds of a zone that `fw3_load_zones` keeps.
use firewall.Common.{
  ℕ, ◌≤◌, true, false, not, ◌||◌, List, [], ◌∷◌, none, some, ◌≡◌, refl, arith, null, length, All,
  Bool-cases, Option-cases, inl, inr,
}
use firewall.Options.Family
use firewall.Options.Flag
use firewall.Options.Types.{Defaults, Zone}
use firewall.Options.Types.Config.{State}
use firewall.Utils.Flags.{Flags, has, has-set_self, has-set_mono}
use firewall.Utils.Flags
use firewall.Ubus.{Interface}
use firewall.Zones.ChainNames.{zone_maxnamelen}
use firewall.Rules.Check.{to_src_target}
use firewall.Defaults.Check.{IsPolicy, IsParsed}
use firewall.Zones.Load.{
  zone_policy, inherit, resolve_zone_options, mark_nat, resolve_cthelpers, mark_policies, load_zone,
  load_sections, load_zones,
}
use firewall.Zones.Load.Bits.{
  has-mark_policies_mono, resolve_cthelpers-has, resolve_cthelpers-Alike, mark_nat-snat,
}

-- Each policy of a zone has its bit in the word of a family.
pub record HasPolicies (family : ℕ) (z : Zone) : Type 0 where
  pub input : has z.flags family (to_src_target z.policy_input) ≡ true
  pub output : has z.flags family z.policy_output ≡ true
  pub forward : has z.flags family z.policy_forward ≡ true

pub record IsLoaded (z : Zone) : Type 0 where
  pub named : null z.name ≡ false
  pub short : length z.name ≤ zone_maxnamelen
  pub policy_input : IsPolicy z.policy_input
  pub policy_output : IsPolicy z.policy_output
  pub policy_forward : IsPolicy z.policy_forward
  pub bits_v4 : HasPolicies Family.v4 z
  pub bits_v6 : HasPolicies Family.v6 z
  pub snat : (not z.masq || has z.flags Family.v4 Flag.snat) ≡ true

-- The options of a section: its policies are unset or from the parser's table.
pub record IsSection (z : Zone) : Type 0 where
  pub policy_input : IsParsed z.policy_input
  pub policy_output : IsParsed z.policy_output
  pub policy_forward : IsParsed z.policy_forward

-- The policies of the defaults, once they are checked.
pub record HasPolicy (d : Defaults) : Type 0 where
  pub policy_input : IsPolicy d.policy_input
  pub policy_output : IsPolicy d.policy_output
  pub policy_forward : IsPolicy d.policy_forward

zone_policy-IsPolicy : (pol def : ℕ) → IsParsed pol → IsPolicy def → IsPolicy (zone_policy pol def)
unfolding zone_policy
zone_policy-IsPolicy pol def p d = ground arith

mark_policies-HasPolicies : (family : ℕ) (z : Zone) → HasPolicies family (mark_policies family z)
unfolding mark_policies
mark_policies-HasPolicies family z =
    let input = Flags.set z.flags family (to_src_target z.policy_input) in
    let forward = Flags.set input family z.policy_forward in
    record {
      input = has-set_mono forward family z.policy_output family _ (
          has-set_mono input family z.policy_forward family _
            (has-set_self z.flags family (to_src_target z.policy_input)));
      output = has-set_self forward family z.policy_output;
      forward =
          has-set_mono forward family z.policy_output family _
            (has-set_self input family z.policy_forward);
    }

-- What a section that is kept has passed, as equations.
load_zone-guards :
    (interfaces : List Interface) (state : State) (s z : Zone)
    → load_zone interfaces state s ≡ some z
    → (null s.name ≡ false)
      × (length s.name ≤ zone_maxnamelen)
      × (z
          ≡ mark_policies Family.v6 (
              mark_policies Family.v4 (
                resolve_cthelpers state.cthelpers (
                  mark_nat
                    (resolve_zone_options interfaces state.defaults (inherit state.defaults s))))))
unfolding load_zone inherit
load_zone-guards interfaces state s z h = ground arith

HasPolicies-mark_policies :
    (family f : ℕ) (z : Zone) → HasPolicies family z → HasPolicies family (mark_policies f z)
unfolding mark_policies
HasPolicies-mark_policies family f z h = record {
  input = has-mark_policies_mono f z family _ h.input;
  output = has-mark_policies_mono f z family _ h.output;
  forward = has-mark_policies_mono f z family _ h.forward;
}

-- The last two steps of the load make the bits; the rest is known before them.
marked-IsLoaded :
    (c : Zone)
    → null c.name ≡ false
    → length c.name ≤ zone_maxnamelen
    → IsPolicy c.policy_input
    → IsPolicy c.policy_output
    → IsPolicy c.policy_forward
    → (not c.masq || has c.flags Family.v4 Flag.snat) ≡ true
    → IsLoaded (mark_policies Family.v6 (mark_policies Family.v4 c))
marked-IsLoaded c named short input output forward snat = record {
  named = unfold mark_policies in named;
  short = unfold mark_policies in short;
  policy_input = unfold mark_policies in input;
  policy_output = unfold mark_policies in output;
  policy_forward = unfold mark_policies in forward;
  bits_v4 =
      HasPolicies-mark_policies Family.v4 Family.v6 (mark_policies Family.v4 c)
        (mark_policies-HasPolicies Family.v4 c);
  bits_v6 = mark_policies-HasPolicies Family.v6 (mark_policies Family.v4 c);
  snat = elim (Bool-cases c.masq) [
    | inl on ↦
        let bit : has c.flags Family.v4 Flag.snat ≡ true = ground arith in
        let kept =
          has-mark_policies_mono Family.v6 (mark_policies Family.v4 c) Family.v4 Flag.snat
            (has-mark_policies_mono Family.v4 c Family.v4 Flag.snat bit) in
        ground (arith, kept)
    | inr off ↦ unfold mark_policies in rw off refl
  ];
}

-- What the steps before them make of the section's options.
resolved_facts :
    (interfaces : List Interface) (defs : Defaults) (s : Zone)
    → HasPolicy defs
    → IsSection s
    → null s.name ≡ false
    → length s.name ≤ zone_maxnamelen
    → (r : Zone) × (r ≡ mark_nat (resolve_zone_options interfaces defs (inherit defs s)))
      × (null r.name ≡ false)
      × (length r.name ≤ zone_maxnamelen)
      × IsPolicy r.policy_input
      × IsPolicy r.policy_output
      × IsPolicy r.policy_forward
      × ((not r.masq || has r.flags Family.v4 Flag.snat) ≡ true)
resolved_facts interfaces defs s d p named short =
    let o : Zone = resolve_zone_options interfaces defs (inherit defs s) in
    (
      mark_nat o,
      refl,
      unfold mark_nat resolve_zone_options inherit in named,
      unfold mark_nat resolve_zone_options inherit in short,
      unfold mark_nat resolve_zone_options inherit in
          zone_policy-IsPolicy s.policy_input defs.policy_input p.policy_input d.policy_input,
      unfold mark_nat resolve_zone_options inherit in
          zone_policy-IsPolicy s.policy_output defs.policy_output p.policy_output d.policy_output,
      unfold mark_nat resolve_zone_options inherit in
          zone_policy-IsPolicy s.policy_forward defs.policy_forward p.policy_forward
            d.policy_forward,
      elim (Bool-cases o.masq) [
        | inl on ↦ let bit = mark_nat-snat o on in ground (arith, bit)
        | inr off ↦ unfold mark_nat in rw off refl
      ],
    )

-- One section, under the conditions of the whole load.
pub load_zone-IsLoaded :
    (interfaces : List Interface) (state : State) (s z : Zone)
    → HasPolicy state.defaults
    → IsSection s
    → load_zone interfaces state s ≡ some z
    → IsLoaded z
load_zone-IsLoaded interfaces state s z d p h =
    let (named, short, e) = load_zone-guards interfaces state s z h in
    let (r, er, named', short', pi, po, pf, snat) =
      resolved_facts interfaces state.defaults s d p named short in
    let c : Zone = resolve_cthelpers state.cthelpers r in
    let (name, masq, input, output, forward) = resolve_cthelpers-Alike state.cthelpers r in
    rw (e, ← er)
      (marked-IsLoaded c (rw name named') (rw name short') (rw input pi) (rw output po)
        (rw forward pf)
        (rw masq (elim (Bool-cases r.masq) [
          | inl on ↦
              let bit : has r.flags Family.v4 Flag.snat ≡ true = ground arith in
              let kept = resolve_cthelpers-has state.cthelpers r Family.v4 Flag.snat bit in
              rw (on, kept) refl
          | inr off ↦ rw off refl
        ])))

load_sections-none :
    (interfaces : List Interface) (state : State) (s : Zone) (sections : List Zone)
    → load_zone interfaces state s ≡ none
    → load_sections interfaces state (s ∷ sections) ≡ load_sections interfaces state sections
unfolding load_sections
load_sections-none interfaces state s sections h = ground arith

load_sections-some :
    (interfaces : List Interface) (state : State) (s z : Zone) (sections : List Zone)
    → load_zone interfaces state s ≡ some z
    → load_sections interfaces state (s ∷ sections) ≡ z ∷ load_sections interfaces state sections
unfolding load_sections
load_sections-some interfaces state s z sections h = ground arith

load_sections-IsLoaded :
    (interfaces : List Interface) (state : State) (sections : List Zone)
    → HasPolicy state.defaults
    → All IsSection sections
    → All IsLoaded (load_sections interfaces state sections)
load_sections-IsLoaded interfaces state [] d p = unfold load_sections in tt
load_sections-IsLoaded interfaces state (s ∷ sections) d p =
    elim (Option-cases (load_zone interfaces state s)) [
      | inl freed ↦
          rw (load_sections-none interfaces state s sections freed)
            (load_sections-IsLoaded interfaces state sections d p.1)
      | inr (z, kept) ↦ rw (load_sections-some interfaces state s z sections kept) (
        load_zone-IsLoaded interfaces state s z d p.0 kept,
        load_sections-IsLoaded interfaces state sections d p.1,
      )
    ]

-- Whatever the message bus says of the network: after `fw3_load_zones`, while the defaults are checked
-- and the sections' policies are unset or from the parser's table, each zone has a name of at most
-- FW3_ZONE_MAXNAMELEN bytes, policies among ACCEPT, REJECT and DROP with their bits in both words, and
-- the bit of its source NAT chain if it masquerades.
pub load_zones-IsLoaded :
    (interfaces : List Interface) (state : State) (sections : List Zone)
    → HasPolicy state.defaults
    → All IsSection sections
    → All IsLoaded (load_zones interfaces state sections).zones
unfolding load_zones
load_zones-IsLoaded interfaces state sections d p =
    load_sections-IsLoaded interfaces state sections d p
