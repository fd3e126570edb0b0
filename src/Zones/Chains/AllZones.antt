-- ===== src/Zones/Chains/AllZones.antt =====
-- The chains of all zones of a state, over a whole print and a whole flush.
use firewall.Common.{
  ap, map-append, ◌||◌, not, arith, Bool, true, false, List, [], ◌∷◌, ◌++◌, map, ◌≡◌, refl, ap₂,
  sym, ◌∙◌, ◌==◌, keep, append-nil, Bool-cases, inl, inr, ◌<◌, All,
}
use firewall.Common.CString.{CString, codes, begins}
use firewall.Options.Types.{ChainSpec, Zone}
use firewall.Options.Flag
use firewall.Utils.Flags.{has, is_family, has-del}
use firewall.Iptables.{Handle}
use firewall.Iptables.Chains.{
  for_each, selected, created, deletions, flushed, created-append, deletions-append, flushed-append,
  flushed-flush_chain, flushed-delete_chain,
}
use firewall.Zones.ChainNames.{zone_chains, format_chain}
use firewall.Zones.Chains.{print_zone_chain, print_zone_chains, flushable, flush_zone, flush_zones}
use firewall.Zones.Chains.Pairing.{print-flush_zone}

-- A zone that the open family does not concern has no mark of the open table.
abbrev pub Unmarked : Handle → Zone → Type 0
Unmarked h z = (is_family z.family h.family || not (has z.flags h.family h.table)) ≡ true

skipped :
    (h : Handle) (reload again : Bool) (z : Zone)
    → Unmarked h z
    → deletions (flush_zone h again (print_zone_chain h reload z).0).1
      ≡ for_each again (created (print_zone_chain h reload z).1)
skipped h reload again z u = elim (Bool-cases (is_family z.family h.family)) [
  | inl fam ↦ print-flush_zone h reload again z fam
  | inr other ↦
      let off : has z.flags h.family h.table ≡ false = ground arith in
      unfold print_zone_chain flush_zone in rw (other, off)
]

-- For zones that bear no mark of the open table unless the open family concerns them: on the zones that
-- `fw3_print_zone_chains` leaves, `fw3_flush_zones` asks for the deletion of each chain that was created,
-- and of no other, in the order of their creation; a chain in use is spared exactly if the flush is for
-- a reload.
pub print-flush_zones :
    (h : Handle) (reload again : Bool) (zones : List Zone)
    → All (Unmarked h) zones
    → deletions (flush_zones h again (print_zone_chains h reload zones).0).1
      ≡ for_each again (created (print_zone_chains h reload zones).1)
unfolding print_zone_chains flush_zones
print-flush_zones h reload again [] u = refl
print-flush_zones h reload again (z ∷ zones) u =
    deletions-append (flush_zone h again (print_zone_chain h reload z).0).1
      (flush_zones h again (print_zone_chains h reload zones).0).1
    ∙ ap₂ ◌++◌ (skipped h reload again z u.0) (print-flush_zones h reload again zones u.1)
    ∙ sym (map-append (λ c. (again, c)) (created (print_zone_chain h reload z).1) _)
    ∙ ap (for_each again)
        (sym (created-append (print_zone_chain h reload z).1 (print_zone_chains h reload zones).1))

abbrev pub IsZoneName : CString → Type 0
IsZoneName name = begins (codes "zone_") name ≡ true

-- Each entry of the table is a chain of the user's or has a format that begins `zone_`.
abbrev IsOwn : Zone → ChainSpec → Type 0
IsOwn z c = not (c.flag == Flag.custom_chains) ≡ true → IsZoneName (format_chain c.format z.name)

zone_chains-IsOwn : (z : Zone) → All (IsOwn z) zone_chains
unfolding zone_chains format_chain begins
zone_chains-IsOwn z = ground arith

own_flushed :
    (h : Handle) (z : Zone) (cs : List ChainSpec)
    → All (IsOwn z) cs
    → All IsZoneName (map (λ c. format_chain c.format z.name) (keep (flushable h true z) cs))
unfolding flushable
own_flushed h z [] u = tt
own_flushed h z (c ∷ cs) u = ground (arith, own_flushed h z cs u.1)

-- On a reload no chain of the user's is flushed: each chain that is flushed has a name that
-- begins `zone_`.
pub flush_zone-keeps_custom :
    (h : Handle) (z : Zone) → All IsZoneName (flushed (flush_zone h true z).1)
unfolding flush_zone
flush_zone-keeps_custom h z = elim (Bool-cases (has z.flags h.family h.table)) [
  | inr off ↦ rw off tt
  | inl on ↦
      rw (on, flushed-append)
        (rw
          (
            flushed-flush_chain (λ (c : ChainSpec). format_chain c.format z.name)
                (keep (flushable h true z) zone_chains),
            flushed-delete_chain (λ (c : ChainSpec). format_chain c.format z.name) true
                (keep (selected h z.flags) zone_chains),
            append-nil,
          )
          (own_flushed h z zone_chains (zone_chains-IsOwn z)))
]

-- A flush clears the mark of the open table, so a second flush makes no call and changes nothing.
flush_zone-flush_zone :
    (h : Handle) (reload again : Bool) (z : Zone)
    → h.table < 4
    → flush_zone h again (flush_zone h reload z).0 ≡ ((flush_zone h reload z).0, [])
unfolding flush_zone
flush_zone-flush_zone h reload again z small = elim (Bool-cases (has z.flags h.family h.table)) [
  | inr off ↦ rw (off, off)
  | inl on ↦
      ground (arith, has-del z.flags h.family h.table h.family h.table (omega arith) (omega arith))
]
