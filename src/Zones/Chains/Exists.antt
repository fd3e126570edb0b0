-- ===== src/Zones/Chains/Exists.antt =====
-- A chain of the table whose bit is set is among those that `print_zone_chain` creates.
use firewall.Common.{
  ℕ, zero, suc, ◌+◌, ◌-◌, ◌≤◌, Bool, true, List, [], ◌∷◌, ◌++◌, map, ◌≡◌, ◌⊎◌, refl, arith, some,
  keep, get_elem?, All-get_elem?, length, append_assoc, inl, inr,
}
use firewall.Common.CString.{CString, codes, elem, streq_refl}
use firewall.Options.Types.{ChainSpec, Zone}
use firewall.Options.Flag
use firewall.Options.Family
use firewall.Options.Table
use firewall.Options.Names.{flag_names, name_at}
use firewall.Utils.Flags.{has, is_family, has-set_mono}
use firewall.Utils.Flags
use firewall.Iptables.{Handle}
use firewall.Iptables.Chains.{selected, created}
use firewall.Zones.ChainNames.{zone_chains, format_chain, zone_maxnamelen}
use firewall.Zones.ChainNames.Fits.{IsWhole, expand, zone_chains_fit}
use firewall.Zones.Chains.{print_zone_chain, mark_table}
use firewall.Zones.Chains.Pairing.{chain_names, created-print_zone_chain}

module _ {ℓ} {A : Type ℓ} (f : A → CString) (p : A → Bool) where
  elem-keep :
      (xs : List A) (k : ℕ) (c : A)
      → get_elem? xs k ≡ some c
      → p c ≡ true
      → elem (f c) (map f (keep p xs)) ≡ true
  unfolding elem
  elem-keep [] k c at h = cc
  elem-keep (x ∷ xs) zero c at h = ground (arith, streq_refl (f c))
  elem-keep (x ∷ xs) (suc k) c at h = ground (arith, elem-keep xs k c at h)

-- The filter table of a family.
abbrev pub filter_of : ℕ → Handle
filter_of family = record { family = family; table = Table.filter }

pub has-mark_table_mono :
    (h : Handle) (z : Zone) (f a : ℕ)
    → has z.flags f a ≡ true
    → has (mark_table h z).flags f a ≡ true
unfolding mark_table
has-mark_table_mono h z f a on = ground (
  arith,
  has-set_mono z.flags h.family h.table f a,
  has-set_mono (Flags.set z.flags h.family h.table) h.family Flag.custom_chains f a,
)

-- The entry `k` of the table, for a zone that the open family concerns.
pub entry_exists :
    (h : Handle) (reload : Bool) (z : Zone) (k : ℕ) (c : ChainSpec)
    → get_elem? zone_chains k ≡ some c
    → selected h (mark_table h z).flags c ≡ true
    → is_family z.family h.family ≡ true
    → length z.name ≤ zone_maxnamelen
    → elem (expand c.format z.name) (created (print_zone_chain h reload z).1) ≡ true
unfolding mark_table
entry_exists h reload z k c at sel fam short =
    let whole : IsWhole z.name c =
      All-get_elem? (IsWhole z.name) zone_chains k c (zone_chains_fit z.name short) at in
    rw (created-print_zone_chain h reload z fam, ← whole.0)
      (unfold chain_names in
        elem-keep (λ (d : ChainSpec). format_chain d.format z.name)
          (selected h (mark_table h z).flags) zone_chains k c at sel)

selected-filter_of :
    (family flag : ℕ) (z : Zone) (fmt : CString)
    → has z.flags family flag ≡ true
    → selected
        (filter_of family)
        (mark_table (filter_of family) z).flags
        (record { family = Family.any; table = Table.filter; flag = flag; format = fmt })
      ≡ true
unfolding selected is_family
selected-filter_of family flag z fmt on =
    ground (arith, has-mark_table_mono (filter_of family) z family flag on)

-- The names of the chains that hold a zone's verdicts.
abbrev pub dest_chain : CString → ℕ → CString
dest_chain name t = codes "zone_" ++ name ++ codes "_dest_" ++ name_at flag_names t

abbrev pub src_chain : CString → ℕ → CString
src_chain name t = codes "zone_" ++ name ++ codes "_src_" ++ name_at flag_names t

abbrev pub IsVerdict : ℕ → Type 0
IsVerdict t = (t ≡ Flag.accept) ⊎ ((t ≡ Flag.reject) ⊎ (t ≡ Flag.drop))

-- The printing of a zone's chains in the filter table creates the chain.
abbrev pub Creates : ℕ → Bool → Zone → CString → Type 0
Creates family reload z name =
    elem name (created (print_zone_chain (filter_of family) reload z).1) ≡ true

-- `k` is the verdict's entry of the table, and `fmt` its format.
entry_of_verdict :
    (family : ℕ) (reload : Bool) (z : Zone) (k flag : ℕ) (fmt name : CString)
    → get_elem? zone_chains k
      ≡ some (record { family = Family.any; table = Table.filter; flag = flag; format = fmt })
    → expand fmt z.name ≡ name
    → has z.flags family flag ≡ true
    → is_family z.family family ≡ true
    → length z.name ≤ zone_maxnamelen
    → Creates family reload z name
entry_of_verdict family reload z k flag fmt name at e on fam short = rw (← e) (
    entry_exists (filter_of family) reload z k _ at (selected-filter_of family flag z fmt on) fam
      short)

-- For a zone of the family, with a short name and the bit of a verdict set: printing the zone's
-- chains of the filter table creates the chain `zone_<name>_dest_<target>`.
pub dest_chain_exists :
    (family : ℕ) (reload : Bool) (z : Zone) (t : ℕ)
    → IsVerdict t
    → has z.flags family t ≡ true
    → is_family z.family family ≡ true
    → length z.name ≤ zone_maxnamelen
    → Creates family reload z (dest_chain z.name t)
unfolding zone_chains expand name_at flag_names
dest_chain_exists family reload z t (inl e) on fam short = rw e (
    entry_of_verdict family reload z 6 Flag.accept (codes "zone_?_dest_ACCEPT") _ refl
      (simp append_assoc) (rw e at on) fam short)
dest_chain_exists family reload z t (inr (inl e)) on fam short = rw e (
    entry_of_verdict family reload z 7 Flag.reject (codes "zone_?_dest_REJECT") _ refl
      (simp append_assoc) (rw e at on) fam short)
dest_chain_exists family reload z t (inr (inr e)) on fam short = rw e (
    entry_of_verdict family reload z 8 Flag.drop (codes "zone_?_dest_DROP") _ refl
      (simp append_assoc) (rw e at on) fam short)

-- Likewise for the chain `zone_<name>_src_<target>` and the bit of the verdict on a source.
pub src_chain_exists :
    (family : ℕ) (reload : Bool) (z : Zone) (t : ℕ)
    → IsVerdict t
    → has z.flags family (Flag.src_accept - Flag.accept + t) ≡ true
    → is_family z.family family ≡ true
    → length z.name ≤ zone_maxnamelen
    → Creates family reload z (src_chain z.name t)
unfolding zone_chains expand name_at flag_names
src_chain_exists family reload z t (inl e) on fam short = rw e (
    entry_of_verdict family reload z 3 Flag.src_accept (codes "zone_?_src_ACCEPT") _ refl
      (simp append_assoc) (rw e at on) fam short)
src_chain_exists family reload z t (inr (inl e)) on fam short = rw e (
    entry_of_verdict family reload z 4 Flag.src_reject (codes "zone_?_src_REJECT") _ refl
      (simp append_assoc) (rw e at on) fam short)
src_chain_exists family reload z t (inr (inr e)) on fam short = rw e (
    entry_of_verdict family reload z 5 Flag.src_drop (codes "zone_?_src_DROP") _ refl
      (simp append_assoc) (rw e at on) fam short)

-- For a zone of the family with a short name: printing its chains of the filter table creates the
-- chain `zone_<name>_forward`, whatever bits are set.
pub forward_chain_exists :
    (family : ℕ) (reload : Bool) (z : Zone)
    → is_family z.family family ≡ true
    → length z.name ≤ zone_maxnamelen
    → Creates family reload z (codes "zone_" ++ z.name ++ codes "_forward")
unfolding zone_chains expand selected is_family
forward_chain_exists family reload z fam short =
    let name : expand (codes "zone_?_forward") z.name
        ≡ codes "zone_" ++ z.name ++ codes "_forward" =
      simp append_assoc in
    rw (← name) (entry_exists (filter_of family) reload z 2 _ refl (ground arith) fam short)

-- Likewise for `zone_<name>_input` and `zone_<name>_output`.
pub input_chain_exists :
    (family : ℕ) (reload : Bool) (z : Zone)
    → is_family z.family family ≡ true
    → length z.name ≤ zone_maxnamelen
    → Creates family reload z (codes "zone_" ++ z.name ++ codes "_input")
unfolding zone_chains expand selected is_family
input_chain_exists family reload z fam short =
    let name : expand (codes "zone_?_input") z.name ≡ codes "zone_" ++ z.name ++ codes "_input" =
      simp append_assoc in
    rw (← name) (entry_exists (filter_of family) reload z 0 _ refl (ground arith) fam short)

pub output_chain_exists :
    (family : ℕ) (reload : Bool) (z : Zone)
    → is_family z.family family ≡ true
    → length z.name ≤ zone_maxnamelen
    → Creates family reload z (codes "zone_" ++ z.name ++ codes "_output")
unfolding zone_chains expand selected is_family
output_chain_exists family reload z fam short =
    let name : expand (codes "zone_?_output") z.name ≡ codes "zone_" ++ z.name ++ codes "_output" =
      simp append_assoc in
    rw (← name) (entry_exists (filter_of family) reload z 1 _ refl (ground arith) fam short)
