-- ===== src/Zones/Rules/Exists.antt =====
-- The chains between which a zone's policies stand are chains that the printing of its chains creates.
use firewall.Common.{ℕ, Bool, true, false, [], ◌∷◌, ◌≡◌, refl, arith, All, inl, inr, Bool-cases}
use firewall.Options.Family
use firewall.Options.Flag
use firewall.Options.Types.{Zone}
use firewall.Utils.Flags.{has, is_family}
use firewall.Iptables.{IptCall, target, append}
use firewall.Zones.Chains.Exists.{
  Creates, input_chain_exists, output_chain_exists, dest_chain_exists, src_chain_exists,
  forward_chain_exists,
}
use firewall.Zones.Grows.{Grows}
use firewall.Zones.Load.Loaded.{IsLoaded, HasPolicies}
use firewall.Zones.Verdicts.{src_of, dest_of}
use firewall.Zones.Rules.Jumps.{policy_jumps}
use firewall.Rules.Check.{to_src_target}
use firewall.Rules.Print.Targets.{IsOpenFamily}

-- The call appends a jump to a chain that the printing of the zone's chains creates, in another one.
abbrev pub Lands : ℕ → Bool → Zone → IptCall → Type 0
Lands f reload z (append (target t ∷ []) c) = Creates f reload z t × Creates f reload z c
Lands f reload z _ = false ≡ true

policies_of : (f : ℕ) (z : Zone) → IsOpenFamily f → IsLoaded z → HasPolicies f z
policies_of f z (inl e) h = rw e h.bits_v4
policies_of f z (inr e) h = rw e h.bits_v6

-- For a loaded zone and an open family that it concerns: the printing of its chains creates the chains of
-- the verdicts of its three policies, and the three chains that jump to them.
pub policy_jumps-Lands :
    (f : ℕ) (reload : Bool) (z : Zone)
    → IsLoaded z
    → IsOpenFamily f
    → is_family z.family f ≡ true
    → All (Lands f reload z) (policy_jumps z)
unfolding policy_jumps src_of dest_of
policy_jumps-Lands f reload z h open_family fam =
    let bits = policies_of f z open_family h in
    (
      (
        src_chain_exists f reload z z.policy_input h.policy_input bits.input fam h.short,
        input_chain_exists f reload z fam h.short,
      ),
      (
        (
          dest_chain_exists f reload z z.policy_forward h.policy_forward bits.forward fam h.short,
          forward_chain_exists f reload z fam h.short,
        ),
        (
          (
            dest_chain_exists f reload z z.policy_output h.policy_output bits.output fam h.short,
            output_chain_exists f reload z fam h.short,
          ),
          tt,
        ),
      ),
    )

regrown :
    (a b : Zone)
    → Grows a b
    → (f : ℕ) → HasPolicies f a
    → HasPolicies f (record a { flags = b.flags })
regrown a b g f h = record {
  input = g.bits f (to_src_target a.policy_input) h.input;
  output = g.bits f a.policy_output h.output;
  forward = g.bits f a.policy_forward h.forward;
}

-- A zone that has grown since it was loaded.
pub IsLoaded-Grows : (a b : Zone) → Grows a b → IsLoaded a → IsLoaded b
IsLoaded-Grows a b g h = rw g.same (record {
  named = h.named;
  short = h.short;
  policy_input = h.policy_input;
  policy_output = h.policy_output;
  policy_forward = h.policy_forward;
  bits_v4 = regrown a b g Family.v4 h.bits_v4;
  bits_v6 = regrown a b g Family.v6 h.bits_v6;
  snat = elim (Bool-cases a.masq) [
    | inl on ↦
        let old : has a.flags Family.v4 Flag.snat ≡ true = let masked = h.snat in ground arith in
        let kept = g.bits Family.v4 Flag.snat old in rw (on, kept) refl
    | inr off ↦ rw off refl
  ];
})
