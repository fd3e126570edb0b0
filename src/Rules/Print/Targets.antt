-- ===== src/Rules/Print/Targets.antt =====
-- The chain to which a verdict rule jumps is a chain that the printing of its zone creates.
use firewall.Common.{
  ℕ, ◌≤◌, Bool, true, false, not, ◌&&◌, List, Option, none, some, ◌≡◌, sym, ap, ◌∙◌, arith,
  get_elem?, All-get_elem?, length, subst, Option-cases, ◌⊎◌, inl, inr, if◌then◌else◌,
}
use firewall.Options.Family
use firewall.Options.Names.{flag_names, name_at}
use firewall.Options.Types.{Zone}
use firewall.Options.Types.Config.{Rule, State}
use firewall.Utils.Flags.{has, is_family}
use firewall.Zones.ChainNames.{zone_maxnamelen}
use firewall.Zones.Chains.Exists.{
  IsVerdict, Creates, dest_chain, src_chain, dest_chain_exists, src_chain_exists,
}
use firewall.Rules.Check.{need_src_action_chain, to_src_target}
use firewall.Rules.Load.{load_rules}
use firewall.Rules.Load.Served.{Served, logs}
use firewall.Rules.Load.Invariant.{load_rules-AllServed}
use firewall.Rules.Print.{jump_name, verdict_name}

abbrev pub logging : Option Zone → ℕ → Option Zone
logging none t = none
logging (some z) t = if logs z t then some z else none

abbrev zone_of : List Zone → Option ℕ → Option Zone
zone_of zones none = none
zone_of zones (some i) = get_elem? zones i

-- The zone whose verdict chain a rule jumps to: its destination, or else a source that logs.
unfoldable pub jump_zone : List Zone → Rule → Option Zone
jump_zone zones r = elim r.dest_zone [
  | some d ↦ get_elem? zones d
  | none ↦ logging (zone_of zones r.src_zone) r.target
]

abbrev pub IsOpenFamily : ℕ → Type 0
IsOpenFamily f = (f ≡ Family.v4) ⊎ (f ≡ Family.v6)

verdict_name-eq : (t : ℕ) → IsVerdict t → verdict_name t ≡ name_at flag_names t
unfolding verdict_name
verdict_name-eq t (inl e) = rw e
verdict_name-eq t (inr (inl e)) = rw e
verdict_name-eq t (inr (inr e)) = rw e

pub either_word :
    (z : Zone) (f t : ℕ)
    → IsOpenFamily f
    → has z.flags Family.v4 t ≡ true
    → has z.flags Family.v6 t ≡ true
    → has z.flags f t ≡ true
either_word z f t (inl e) on4 on6 = rw e on4
either_word z f t (inr e) on4 on6 = rw e on6

-- The name of the jump, where a destination is set.
jump_name-dest :
    (zones : List Zone) (r : Rule)
    → (r.dest.set && not r.dest.any) ≡ true
    → IsVerdict r.target
    → jump_name zones r ≡ dest_chain r.dest.name r.target
unfolding jump_name
jump_name-dest zones r on v = rw (on, verdict_name-eq r.target v)

need_src_action_chain-logs :
    (zones : List Zone) (s t : ℕ) (z : Zone)
    → get_elem? zones s ≡ some z
    → logs z t ≡ true
    → need_src_action_chain zones (some s) t ≡ true
unfolding need_src_action_chain
need_src_action_chain-logs zones s t z at on = ground arith

-- The name of the jump, where only a source that logs is set.
jump_name-src :
    (zones : List Zone) (r : Rule) (s : ℕ) (z : Zone)
    → (r.dest.set && not r.dest.any) ≡ false
    → r.src_zone ≡ some s
    → get_elem? zones s ≡ some z
    → logs z r.target ≡ true
    → IsVerdict r.target
    → jump_name zones r ≡ src_chain r.src.name r.target
unfolding jump_name
jump_name-src zones r s z off e at on v =
    rw (off, e, need_src_action_chain-logs zones s r.target z at on, verdict_name-eq r.target v)

module _ (zones : List Zone) (r : Rule) (served : Served zones r)
    (verdict : IsVerdict r.target) where
  jump_dest :
      (f : ℕ) (reload : Bool) (z : Zone) (d : ℕ)
      → r.dest_zone ≡ some d
      → get_elem? zones d ≡ some z
      → IsOpenFamily f
      → is_family z.family f ≡ true
      → length z.name ≤ zone_maxnamelen
      → Creates f reload z (jump_name zones r)
  jump_dest f reload z d e at open_family fam short =
      let (y, at', called, on4, on6) = served.dest d e in
      let same : y ≡ z = ground arith in
      let name : z.name ≡ r.dest.name = ap (λ (w : Zone). w.name) (sym same) ∙ called in
      rw (jump_name-dest zones r (served.dest_set d e) verdict, ← name)
        (dest_chain_exists f reload z r.target verdict
          (subst (λ (w : Zone). has w.flags f r.target ≡ true) same
            (either_word y f r.target open_family on4 on6))
          fam short)

  jump_src :
      (f : ℕ) (reload : Bool) (z : Zone) (s : ℕ)
      → r.dest_zone ≡ none
      → r.src_zone ≡ some s
      → get_elem? zones s ≡ some z
      → logs z r.target ≡ true
      → IsOpenFamily f
      → is_family z.family f ≡ true
      → length z.name ≤ zone_maxnamelen
      → Creates f reload z (jump_name zones r)
  jump_src f reload z s e e' at on open_family fam short =
      let (y, at', called, bits) = served.src s e e' in
      let same : y ≡ z = ground arith in
      let name : z.name ≡ r.src.name = ap (λ (w : Zone). w.name) (sym same) ∙ called in
      let (on4, on6) = bits (subst (λ (w : Zone). logs w r.target ≡ true) (sym same) on) in
      rw (jump_name-src zones r s z (served.no_dest e) e' at on verdict, ← name)
        (src_chain_exists f reload z r.target verdict
          (subst (λ (w : Zone). has w.flags f (to_src_target r.target) ≡ true) same
            (either_word y f (to_src_target r.target) open_family on4 on6))
          fam short)

-- The two cases of `jump_zone`.
jump_zone-cases :
    (zones : List Zone) (r : Rule) (z : Zone)
    → jump_zone zones r ≡ some z
    → ((d : ℕ) × (r.dest_zone ≡ some d) × (get_elem? zones d ≡ some z))
      ⊎ ((s : ℕ) × (r.dest_zone ≡ none)
          × (r.src_zone ≡ some s)
          × (get_elem? zones s ≡ some z)
          × (logs z r.target ≡ true))
unfolding jump_zone
jump_zone-cases zones r z h = elim (Option-cases r.dest_zone) [
  | inr (d, e) ↦ inl (d, e, ground arith)
  | inl e ↦ elim (Option-cases r.src_zone) [
    | inl e' ↦ absurd (ground arith)
    | inr (s, e') ↦ inr (s, e, e', ground arith, ground arith)
  ]
]

-- For a rule among those that `fw3_load_rules` keeps, whose target is a verdict and that jumps to a
-- chain of a zone: when that zone's chains are printed into the filter table of a family that
-- concerns it, with a name of at most eleven bytes, the chain to which the rule jumps is created.
pub load_rules-jump_exists :
    (state : State) (sections : List (Bool × Rule)) (n : ℕ) (r : Rule) (z : Zone) (f : ℕ)
    (reload : Bool)
    → get_elem? (load_rules state sections).rules n ≡ some r
    → IsVerdict r.target
    → jump_zone (load_rules state sections).zones r ≡ some z
    → IsOpenFamily f
    → is_family z.family f ≡ true
    → length z.name ≤ zone_maxnamelen
    → Creates f reload z (jump_name (load_rules state sections).zones r)
load_rules-jump_exists state sections n r z f reload at verdict jumps open_family fam short =
    let zones = (load_rules state sections).zones in
    let served : Served zones r =
      All-get_elem? (Served zones) (load_rules state sections).rules n r
        (load_rules-AllServed state sections) at in
    elim (jump_zone-cases zones r z jumps) [
      | inl (d, e, at') ↦ jump_dest zones r served verdict f reload z d e at' open_family fam short
      | inr (s, e, e', at', on) ↦
          jump_src zones r served verdict f reload z s e e' at' on open_family fam short
    ]
