-- ===== src/Redirects/Kept.antt =====
-- Loading redirects keeps what the zones owe them.
use firewall.Common.{
  ℕ, true, false, List, Option, some, ◌≡◌, refl, ap, sym, arith, ◌∙◌, is_some, inl, inr,
}
use firewall.Options.Flag
use firewall.Options.Types.{Address, Device, Port, Zone}
use firewall.Options.Types.Config.{Redirect, State}
use firewall.Zones.Lookup.{set_v4}
use firewall.Zones.Grows.{Extends, Grows-set_v4}
use firewall.Rules.Check.{resolve_zone}
use firewall.Rules.Load.Served.{resolve_zone-Named}
use firewall.Redirects.{
  place, reflects, modify_at, mark_dnat, or_port, finish_dnat, finish_snat, dnat_valid, snat_valid,
}
use firewall.Redirects.Served.{
  Served, Called, Called-Extends, masquerades-Extends, Extends-modify_at, HasBit-modify_at,
  has-set_v4, has-set_reflection,
}
use firewall.Redirects.Marked.{
  Extends-mark_dnat, mark_dnat-dnat, mark_dnat-helper, mark_dnat-reflection, place-Called,
}

-- A successful step: the zones have grown, they serve the section, and the list is as it was.
abbrev pub Kept : State → State → Redirect → Type 0
Kept state state' r =
    Extends state.zones state'.zones × Served state'.zones r × (state'.redirects ≡ state.redirects)

pub resolve_zone-Called :
    (zones : List Zone) (dev : Device) (p : Option ℕ)
    → resolve_zone zones dev ≡ some p
    → Called zones p dev.name
resolve_zone-Called zones dev p h i e =
    let (z, at, called) = resolve_zone-Named zones dev i (h ∙ ap some e) in (z, at, λ _. called)

reflects-dest :
    (zones : List Zone) (r : Redirect) → reflects zones r ≡ true → is_some r.dest_zone ≡ true
reflects-dest zones r h = ground arith

mark_dnat-Served :
    (zones : List Zone) (r : Redirect)
    → is_some r.src_zone ≡ true
    → r.target ≡ Flag.dnat
    → Called zones r.src_zone r.src.name
    → Called zones r.dest_zone r.dest.name
    → Served (mark_dnat zones r) r
mark_dnat-Served zones r given e src dest =
    let x = Extends-mark_dnat zones r in
    record {
      src = Called-Extends zones (mark_dnat zones r) r.src_zone r.src.name x src;
      dest = Called-Extends zones (mark_dnat zones r) r.dest_zone r.dest.name x dest;
      target = inl e;
      dnat = λ _. mark_dnat-dnat zones r given src;
      snat = λ e'. absurd (let clash : Flag.dnat ≡ Flag.snat = sym e ∙ e' in omega arith);
      helper = λ _ on. mark_dnat-helper zones r given src on;
      reflection = λ _ on.
          let old : reflects zones r ≡ true =
            rw (← masquerades-Extends zones (mark_dnat zones r) r.src_zone r.src.name x src) on in
          let bit = mark_dnat-reflection zones r (reflects-dest zones r old) dest old in
          (
            bit Flag.accept (λ z. (has-set_reflection z).0),
            bit Flag.dnat (λ z. (has-set_reflection z).1),
            bit Flag.snat (λ z. (has-set_reflection z).2),
          );
    }

-- The port is no part of what is owed.
Served-port :
    (zones : List Zone) (r : Redirect) (p : Port)
    → Served zones r
    → Served zones (record r { port_redir = p })
Served-port zones r p h = record {
  src = h.src;
  dest = h.dest;
  target = h.target;
  dnat = h.dnat;
  snat = h.snat;
  helper = h.helper;
  reflection = h.reflection;
}

pub finish_dnat-Done :
    (addrs : Zone → List Address) (state state' : State) (r r' : Redirect)
    → finish_dnat addrs state r ≡ some (state', r')
    → (is_some r.src_zone ≡ true)
      × (state' ≡ record state { zones = mark_dnat state.zones (place addrs state.zones r) })
      × (r' ≡ record (place addrs state.zones r) { port_redir = or_port r.port_redir r.port_dest })
unfolding finish_dnat dnat_valid
finish_dnat-Done addrs state state' r r' h = ground arith

pub finish_dnat-Kept :
    (addrs : Zone → List Address) (state state' : State) (r r' : Redirect)
    → finish_dnat addrs state r ≡ some (state', r')
    → r.target ≡ Flag.dnat
    → Called state.zones r.src_zone r.src.name
    → Called state.zones r.dest_zone r.dest.name
    → Kept state state' r'
finish_dnat-Kept addrs state state' r r' h e src dest =
    let (given, es, er) = finish_dnat-Done addrs state state' r r' h in
    let (l, d, p, ep, called) = place-Called addrs state.zones r dest in
    let placed : Redirect = record r { local = l; dest = d; dest_zone = p } in
    rw (es, er, ep)
      (
        Extends-mark_dnat state.zones placed,
        Served-port (mark_dnat state.zones placed) placed (or_port r.port_redir r.port_dest)
            (mark_dnat-Served state.zones placed given e src called),
        refl,
      )

pub finish_snat-Done :
    (state state' : State) (r r' : Redirect)
    → finish_snat state r ≡ some (state', r')
    → (is_some r.dest_zone ≡ true)
      × (state' ≡ record state { zones = modify_at r.dest_zone (set_v4 Flag.snat) state.zones })
      × (r' ≡ r)
unfolding finish_snat snat_valid
finish_snat-Done state state' r r' h = ground arith

modify_at-Served :
    (zones : List Zone) (r : Redirect)
    → is_some r.dest_zone ≡ true
    → r.target ≡ Flag.snat
    → Called zones r.src_zone r.src.name
    → Called zones r.dest_zone r.dest.name
    → Served (modify_at r.dest_zone (set_v4 Flag.snat) zones) r
modify_at-Served zones r given e src dest =
    let zones' = modify_at r.dest_zone (set_v4 Flag.snat) zones in
    let x = Extends-modify_at r.dest_zone (set_v4 Flag.snat) zones (Grows-set_v4 Flag.snat) in
    let clash : r.target ≡ Flag.dnat → false ≡ true =
      λ e'. let same : Flag.snat ≡ Flag.dnat = sym e ∙ e' in ground arith in
    record {
      src = Called-Extends zones zones' r.src_zone r.src.name x src;
      dest = Called-Extends zones zones' r.dest_zone r.dest.name x dest;
      target = inr e;
      dnat = λ e'. absurd (ground (arith, clash e'));
      snat = λ _.
          HasBit-modify_at r.dest_zone (set_v4 Flag.snat) Flag.snat zones r.dest.name given dest
            (has-set_v4 Flag.snat);
      helper = λ e' _. absurd (ground (arith, clash e'));
      reflection = λ e' _. absurd (ground (arith, clash e'));
    }

pub finish_snat-Kept :
    (state state' : State) (r r' : Redirect)
    → finish_snat state r ≡ some (state', r')
    → r.target ≡ Flag.snat
    → Called state.zones r.src_zone r.src.name
    → Called state.zones r.dest_zone r.dest.name
    → Kept state state' r'
finish_snat-Kept state state' r r' h e src dest =
    let (given, es, er) = finish_snat-Done state state' r r' h in
    rw (es, er)
      (
        Extends-modify_at r.dest_zone (set_v4 Flag.snat) state.zones (Grows-set_v4 Flag.snat),
        modify_at-Served state.zones r given e src dest,
        refl,
      )
