-- ===== src/Forwards/Exists.antt =====
-- The two chains that a forward's rule stands between are chains that its zones' printing creates.
use firewall.Common.{
  append_assoc, ℕ, ◌≤◌, Bool, true, false, not, ◌&&◌, ◌||◌, List, ◌++◌, Option, none, some, ◌≡◌,
  refl, sym, ap, ◌∙◌, subst, arith, get_elem?, All-get_elem?, length, inl,
}
use firewall.Common.CString.{codes}
use firewall.Options.Flag
use firewall.Options.Types.{Zone}
use firewall.Options.Types.Config.{Forward, State}
use firewall.Utils.Flags.{has, is_family}
use firewall.Zones.ChainNames.{zone_maxnamelen}
use firewall.Options.Names.{name_at, flag_names}
use firewall.Zones.Chains.Exists.{Creates, dest_chain, dest_chain_exists, forward_chain_exists}
use firewall.Rules.Print.Targets.{IsOpenFamily, either_word}
use firewall.Forwards.Check.{load_forwards}
use firewall.Forwards.Served.{Served, load_forwards-AllServed}
use firewall.Forwards.Print.{append_chain, set_target, deref}

deref_pointer :
    (zones : List Zone) (p : Option ℕ) (z : Zone)
    → deref zones p ≡ some z
    → (i : ℕ) × (p ≡ some i) × (get_elem? zones i ≡ some z)
deref_pointer zones none z h = cc
deref_pointer zones (some i) z h = (i, refl, h)

append_chain-named :
    (fwd : Forward)
    → (fwd.src.set && not fwd.src.any) ≡ true
    → append_chain fwd ≡ codes "zone_" ++ fwd.src.name ++ codes "_forward"
unfolding append_chain
append_chain-named fwd h = ground arith

set_target-named :
    (fwd : Forward)
    → (fwd.dest.set && not fwd.dest.any) ≡ true
    → set_target fwd ≡ dest_chain fwd.dest.name Flag.accept
unfolding set_target name_at flag_names
set_target-named fwd h =
    let e : (fwd.dest.any || not fwd.dest.set) ≡ false = ground arith in rw e (simp append_assoc)

module _ (state : State) (sections : List (Bool × Forward)) (n : ℕ) (fwd : Forward) (z : Zone) where
  loaded_Served :
      get_elem? (load_forwards state sections).forwards n ≡ some fwd
      → Served (load_forwards state sections).zones fwd
  loaded_Served at =
      All-get_elem? (Served (load_forwards state sections).zones)
        (load_forwards state sections).forwards n fwd (load_forwards-AllServed state sections) at

  -- For a forward that `fw3_load_forwards` keeps and that has a destination zone: when that zone's
  -- chains are printed into the filter table of a family that concerns it, with a name of at most
  -- eleven bytes, the chain that is the forward's target is created.
  pub load_forwards-target_exists :
      (f : ℕ) (reload : Bool)
      → get_elem? (load_forwards state sections).forwards n ≡ some fwd
      → deref (load_forwards state sections).zones fwd.dest_zone ≡ some z
      → IsOpenFamily f
      → is_family z.family f ≡ true
      → length z.name ≤ zone_maxnamelen
      → Creates f reload z (set_target fwd)
  load_forwards-target_exists f reload at dest open_family fam short =
      let served = loaded_Served at in
      let (i, e, at') = deref_pointer (load_forwards state sections).zones fwd.dest_zone z dest in
      let (y, at'', called, on4, on6) = served.dest i e in
      let same : y ≡ z = cc (at', at'') in
      let name : z.name ≡ fwd.dest.name = ap (λ (w : Zone). w.name) (sym same) ∙ called in
      rw (set_target-named fwd (served.dest_set i e), ← name)
        (dest_chain_exists f reload z Flag.accept (inl refl)
          (subst (λ (w : Zone). has w.flags f Flag.accept ≡ true) same
            (either_word y f Flag.accept open_family on4 on6))
          fam short)

  -- For a forward that `fw3_load_forwards` keeps and that has a source zone: when that zone's chains
  -- are printed into the filter table of a family that concerns it, with a name of at most eleven
  -- bytes, the chain to which the forward's rule is appended is created.
  pub load_forwards-chain_exists :
      (f : ℕ) (reload : Bool)
      → get_elem? (load_forwards state sections).forwards n ≡ some fwd
      → deref (load_forwards state sections).zones fwd.src_zone ≡ some z
      → is_family z.family f ≡ true
      → length z.name ≤ zone_maxnamelen
      → Creates f reload z (append_chain fwd)
  load_forwards-chain_exists f reload at src fam short =
      let served = loaded_Served at in
      let (i, e, at') = deref_pointer (load_forwards state sections).zones fwd.src_zone z src in
      let (y, at'', called) = served.src i e in
      let same : y ≡ z = cc (at', at'') in
      let name : z.name ≡ fwd.src.name = ap (λ (w : Zone). w.name) (sym same) ∙ called in
      rw (append_chain-named fwd (served.src_set i e), ← name)
        (forward_chain_exists f reload z fam short)
