-- ===== src/Main/Tables/Rules.antt =====
-- The functions that print rules create no chain.
use firewall.Common.{
  ℕ, suc, Bool, true, false, not, ◌||◌, List, [], ◌∷◌, ◌++◌, Option, ◌≡◌, refl, arith, ◌==◌,
  if◌then◌else◌, concat_map, foreach, ◌∙◌,
}
use firewall.Options.Types.{Protocol, Zone}
use firewall.Options.Types.Config.{Forward, Ipset, Rule, Snat, State}
use firewall.Options.Types.{Defaults}
use firewall.Options.Table
use firewall.Iptables.{Handle, Trace}
use firewall.Iptables.Silent.{
  Silent, Silent-nil, Silent-append, Silent-if, Silent-map, Silent-concat_map,
}
use firewall.Defaults.Rules.{
  print_default_head_rules, filter_head_rules, nat_head_rules, custom_jump, conntrack_rules,
  offload_rule, syn_flood_rules, reject_rules, tail_rule, print_default_tail_rules,
}
use firewall.Rules.Print.{Match, print_rule, is_skipped}
use firewall.Rules.Expand.{expand_rule, expand_rules, print_rules, is_printed, helper_is_family}
use firewall.Snats.Print
use firewall.Utils.Flags.{is_family}
use firewall.Options.Family
use firewall.Snats.Print.{
  InetNtop, print_snat, print_protocols, expand_snat, expand_snats, print_snats,
}
use firewall.Main.Tables.Sections.{sections}
use firewall.Forwards.Print.{deref, zone_is_family, print_forward, print_forwards}

pub Silent-head : (h : Handle) (d : Defaults) → Silent (print_default_head_rules h d)
unfolding print_default_head_rules nat_head_rules filter_head_rules offload_rule syn_flood_rules
    reject_rules custom_jump conntrack_rules concat_map
Silent-head h d = record { nothing = ground arith }

pub Silent-tail : (h : Handle) (d : Defaults) → Silent (print_default_tail_rules h d)
unfolding print_default_tail_rules tail_rule
Silent-tail h d = record { nothing = ground arith }

-- A step that prints rules: it creates no chain, and keeps the zones, the defaults and the sections.
pub record Quiet (s : State) (x : State × Trace) : Type 0 where
  pub silent : Silent x.1
  pub zones : x.0.zones ≡ s.zones
  pub defaults : x.0.defaults ≡ s.defaults
  pub sections : sections x.0 ≡ sections s

pub Quiet-stay : (s : State) → Quiet s (s, [])
Quiet-stay s = record { silent = Silent-nil; zones = refl; defaults = refl; sections = refl }

pub Quiet-if :
    (s : State) (b : Bool) (x y : State × Trace)
    → Quiet s x
    → Quiet s y
    → Quiet s (if b then x else y)
Quiet-if s true x y hx hy = hx
Quiet-if s false x y hx hy = hy

-- One step after another.
pub Quiet-then :
    (s : State) (x y : State × Trace) → Quiet s x → Quiet x.0 y → Quiet s (y.0, x.1 ++ y.1)
Quiet-then s x y hx hy = record {
  silent = Silent-append x.1 y.1 hx.silent hy.silent;
  zones = hy.zones ∙ hx.zones;
  defaults = hy.defaults ∙ hx.defaults;
  sections = hy.sections ∙ hx.sections;
}

-- A step that marks the sets.
pub Quiet-marked :
    (s : State) (sets : List Ipset) (t : Trace) → Silent t → Quiet s (record s { ipsets = sets }, t)
unfolding sections
Quiet-marked s sets t h = record { silent = h; zones = refl; defaults = refl; sections = refl }

Silent-print_rule :
    (h : Handle) (s : State) (r : Rule) (n : ℕ) (m : Match) → Silent (print_rule h s r n m)
unfolding print_rule
Silent-print_rule h s r n m =
    Silent-if (is_skipped h s r m) [] _ Silent-nil
      (Silent-concat_map _ _ (λ i. Silent-map _ _ (λ o. record { nothing = refl })))

Quiet-expand_rule :
    (h : Handle) (exists : Ipset → Bool) (s : State) (r : Rule) (n : ℕ)
    → Quiet s (expand_rule h exists s r n)
unfolding expand_rule
Quiet-expand_rule h exists s r n = Quiet-if s (not (is_printed h exists s r)) _ _ (Quiet-stay s) (
    Quiet-if s
      (not (helper_is_family s.cthelpers r.helper.ptr h.family)
        || not (helper_is_family s.cthelpers r.set_helper.ptr h.family))
      _ _ (Quiet-marked s _ [] Silent-nil)
      (Quiet-marked s _ _
        (Silent-concat_map _ _ (λ p. Silent-concat_map _ _ (λ m. Silent-print_rule h _ r n m)))))

Quiet-expand_rules :
    (h : Handle) (exists : Ipset → Bool) (s : State) (rs : List Rule) (n : ℕ)
    → Quiet s (expand_rules h exists s rs n)
unfolding expand_rules
Quiet-expand_rules h exists s [] n = Quiet-stay s
Quiet-expand_rules h exists s (r ∷ rs) n =
    Quiet-then s _ _ (Quiet-expand_rule h exists s r n)
      (Quiet-expand_rules h exists (expand_rule h exists s r n).0 rs (suc n))

pub Quiet-rules :
    (h : Handle) (exists : Ipset → Bool) (s : State) → Quiet s (print_rules h exists s)
unfolding print_rules
Quiet-rules h exists s = Quiet-expand_rules h exists s s.rules 0

Silent-print_forward :
    (h : Handle) (zones : List Zone) (f : Forward) → Silent (print_forward h zones f)
unfolding print_forward
Silent-print_forward h zones f =
    let src = deref zones f.src_zone in
    let dest = deref zones f.dest_zone in
    Silent-if (not (h.table == Table.filter)) _ _ Silent-nil (
      Silent-if (not (is_family f.family h.family)) _ _ Silent-nil (
        Silent-if (not (zone_is_family src h.family) || not (zone_is_family dest h.family)) _ _
          Silent-nil (record { nothing = refl })))

pub Silent-forwards : (h : Handle) (s : State) → Silent (print_forwards h s)
unfolding print_forwards
Silent-forwards h s = Silent-concat_map _ _ (λ f. Silent-print_forward h s.zones f)

Silent-print_snat :
    (ntop : InetNtop) (h : Handle) (s : Snat) (n : ℕ) (p : Option Protocol)
    → Silent (print_snat ntop h s n p)
unfolding print_snat
Silent-print_snat ntop h s n p =
    Silent-if (h.table == Table.nat) _ _ (record { nothing = refl }) Silent-nil

Silent-print_protocols :
    (ntop : InetNtop) (h : Handle) (s : Snat) (n : ℕ) (ps : List (Option Protocol))
    → Silent (print_protocols ntop h s n ps)
unfolding print_protocols
Silent-print_protocols ntop h s n [] = Silent-nil
Silent-print_protocols ntop h s n (p ∷ ps) =
    Silent-append _ _ (Silent-print_snat ntop h s n p) (Silent-print_protocols ntop h s n ps)

Quiet-expand_snat :
    (ntop : InetNtop) (exists : Ipset → Bool) (h : Handle) (s : State) (x : Snat) (n : ℕ)
    → Quiet s (expand_snat ntop exists h s x n)
unfolding expand_snat
Quiet-expand_snat ntop exists h s x n =
    Quiet-if s (not (Print.is_printed exists h s x)) _ _ (Quiet-stay s)
      (Quiet-marked s _ _ (Silent-print_protocols ntop h x n (foreach x.proto)))

Quiet-expand_snats :
    (ntop : InetNtop) (exists : Ipset → Bool) (h : Handle) (s : State) (ss : List Snat) (n : ℕ)
    → Quiet s (expand_snats ntop exists h s ss n)
unfolding expand_snats
Quiet-expand_snats ntop exists h s [] n = Quiet-stay s
Quiet-expand_snats ntop exists h s (x ∷ ss) n =
    Quiet-then s _ _ (Quiet-expand_snat ntop exists h s x n)
      (Quiet-expand_snats ntop exists h (expand_snat ntop exists h s x n).0 ss (suc n))

pub Quiet-snats :
    (ntop : InetNtop) (exists : Ipset → Bool) (h : Handle) (s : State)
    → Quiet s (print_snats ntop exists h s)
unfolding print_snats
Quiet-snats ntop exists h s =
    Quiet-if s (h.family == Family.v6 || not (h.table == Table.nat)) _ _ (Quiet-stay s)
      (Quiet-expand_snats ntop exists h s s.snats 0)
