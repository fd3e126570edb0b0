-- ===== src/Forwards/Served.antt =====
-- The zones answer for every forward that is loaded.
use firewall.Common.{
  ℕ, Bool, true, false, not, ◌&&◌, List, [], ◌∷◌, ◌++◌, Option, none, some, ◌≡◌, sym, ap, subst,
  ◌∙◌, arith, get_elem?, All, Option-cases, inl, inr,
}
use firewall.Options.Family
use firewall.Options.Flag
use firewall.Options.Types.{Zone, Device}
use firewall.Options.Types.Config.{Forward, State}
use firewall.Utils.Flags.{has}
use firewall.Zones.Lookup.{set_both, get_elem?-modify_self}
use firewall.Zones.Grows.{Extends, Extends-refl, Extends-modify, has-set_both}
use firewall.Rules.Check.{resolve_zone}
use firewall.Rules.Load.Served.{Named, resolve_zone-Named, resolve_zone_null, resolve_zone_set}
use firewall.Rules.Load.Invariant.{All-append_one}
use firewall.Forwards.Check.{check_forward, mark_dest, load_forward, load_sections, load_forwards}

-- The pointers of a forward name the zones of its options, a missing pointer means that the option
-- names no zone, and the destination has the ACCEPT bit in both words.
pub record Served (zones : List Zone) (f : Forward) : Type 0 where
  pub src : (i : ℕ) → f.src_zone ≡ some i → Named zones f.src i
  pub src_set : (i : ℕ) → f.src_zone ≡ some i → (f.src.set && not f.src.any) ≡ true
  pub no_src : f.src_zone ≡ none → (f.src.set && not f.src.any) ≡ false
  pub dest :
      (i : ℕ)
      → f.dest_zone ≡ some i
      → (z : Zone) × (get_elem? zones i ≡ some z)
        × (z.name ≡ f.dest.name)
        × (has z.flags Family.v4 Flag.accept ≡ true)
        × (has z.flags Family.v6 Flag.accept ≡ true)
  pub dest_set : (i : ℕ) → f.dest_zone ≡ some i → (f.dest.set && not f.dest.any) ≡ true
  pub no_dest : f.dest_zone ≡ none → (f.dest.set && not f.dest.any) ≡ false

pub Extends-mark_dest : (zones : List Zone) (d : Option ℕ) → Extends zones (mark_dest zones d)
unfolding mark_dest
Extends-mark_dest zones none = Extends-refl zones
Extends-mark_dest zones (some d) = Extends-modify zones d Flag.accept

Named-Extends :
    (zones zones' : List Zone) (dev : Device) (i : ℕ)
    → Extends zones zones'
    → Named zones dev i
    → Named zones' dev i
Named-Extends zones zones' dev i x (z, at, called) =
    let (z', at', g) = x i z at in (z', at', ap (λ (w : Zone). w.name) g.same ∙ called)

-- What a successful check has done, as equations.
abbrev Checked : State → Forward → State → Forward → Type 0
Checked state f state' f' =
    (resolve_zone state.zones f'.src ≡ some f'.src_zone)
    × (resolve_zone state.zones f'.dest ≡ some f'.dest_zone)
    × (state'.zones ≡ mark_dest state.zones f'.dest_zone)
    × (state'.forwards ≡ state.forwards)

check_forward-Checked :
    (state state' : State) (f f' : Forward)
    → check_forward state f ≡ some (state', f')
    → Checked state f state' f'
unfolding check_forward
check_forward-Checked state state' f f' h = ground arith

marked_dest :
    (zones : List Zone) (f : Forward) (d : Option ℕ) (i : ℕ)
    → d ≡ some i
    → Named zones f.dest i
    → (z : Zone) × (get_elem? (mark_dest zones d) i ≡ some z)
      × (z.name ≡ f.dest.name)
      × (has z.flags Family.v4 Flag.accept ≡ true)
      × (has z.flags Family.v6 Flag.accept ≡ true)
unfolding mark_dest
marked_dest zones f d i e (z, at, called) =
    let (on4, on6) = has-set_both Flag.accept z in
    (
      set_both Flag.accept z,
      rw e (get_elem?-modify_self zones i (set_both Flag.accept) z at),
      unfold set_both in called,
      on4,
      on6,
    )

Served-mark_dest :
    (zones : List Zone) (f : Forward)
    → resolve_zone zones f.src ≡ some f.src_zone
    → resolve_zone zones f.dest ≡ some f.dest_zone
    → Served (mark_dest zones f.dest_zone) f
Served-mark_dest zones f hs hd = record {
  src = λ i e.
      Named-Extends zones (mark_dest zones f.dest_zone) f.src i
        (Extends-mark_dest zones f.dest_zone) (resolve_zone-Named zones f.src i (hs ∙ ap some e));
  src_set = λ i e. resolve_zone_set zones f.src i (hs ∙ ap some e);
  no_src = λ e. resolve_zone_null zones f.src (hs ∙ ap some e);
  dest = λ i e.
      marked_dest zones f f.dest_zone i e (resolve_zone-Named zones f.dest i (hd ∙ ap some e));
  dest_set = λ i e. resolve_zone_set zones f.dest i (hd ∙ ap some e);
  no_dest = λ e. resolve_zone_null zones f.dest (hd ∙ ap some e);
}

Served-Extends :
    (zones zones' : List Zone) (f : Forward)
    → Extends zones zones'
    → Served zones f
    → Served zones' f
Served-Extends zones zones' f x h = record {
  src = λ i e. Named-Extends zones zones' f.src i x (h.src i e);
  src_set = h.src_set;
  no_src = h.no_src;
  dest = λ i e.
      let (z, at, called, on4, on6) = h.dest i e in
      let (z', at', g) = x i z at in
      (
        z',
        at',
        ap (λ (w : Zone). w.name) g.same ∙ called,
        g.bits Family.v4 Flag.accept on4,
        g.bits Family.v6 Flag.accept on6,
      );
  dest_set = h.dest_set;
  no_dest = h.no_dest;
}

All-Served-Extends :
    (zones zones' : List Zone) (fs : List Forward)
    → Extends zones zones'
    → All (Served zones) fs
    → All (Served zones') fs
All-Served-Extends zones zones' [] x h = tt
All-Served-Extends zones zones' (f ∷ fs) x h =
    (Served-Extends zones zones' f x h.0, All-Served-Extends zones zones' fs x h.1)

-- The invariant of the loading of forwards.
abbrev pub AllServed : State → Type 0
AllServed state = All (Served state.zones) state.forwards

pub load_forward_refused :
    (state : State) (f : Forward)
    → check_forward state f ≡ none
    → load_forward state (true, f) ≡ state
unfolding load_forward
load_forward_refused state f h = ground arith

pub load_forward_accepted :
    (state state' : State) (f f' : Forward)
    → check_forward state f ≡ some (state', f')
    → load_forward state (true, f) ≡ record state' { forwards = state'.forwards ++ f' ∷ [] }
unfolding load_forward
load_forward_accepted state state' f f' h = ground arith

load_forward-AllServed :
    (state : State) (s : Bool × Forward) → AllServed state → AllServed (load_forward state s)
unfolding load_forward
load_forward-AllServed state (false, f) h = h
load_forward-AllServed state (true, f) h = elim (Option-cases (check_forward state f)) [
  | inl refused ↦ subst AllServed (sym (load_forward_refused state f refused)) h
  | inr ((state', f'), checked) ↦
      let (hs, hd, ez, ef) = check_forward-Checked state state' f f' checked in
      subst AllServed (sym (load_forward_accepted state state' f f' checked)) (
        rw (ef, ez)
          (All-append_one (Served (mark_dest state.zones f'.dest_zone)) state.forwards f'
            (All-Served-Extends state.zones (mark_dest state.zones f'.dest_zone) state.forwards
              (Extends-mark_dest state.zones f'.dest_zone) h)
            (Served-mark_dest state.zones f' hs hd)))
]

load_sections-AllServed :
    (state : State) (sections : List (Bool × Forward))
    → AllServed state
    → AllServed (load_sections state sections)
unfolding load_sections
load_sections-AllServed state [] h = h
load_sections-AllServed state (s ∷ sections) h =
    load_sections-AllServed (load_forward state s) sections (load_forward-AllServed state s h)

-- Whatever sections are read: after `fw3_load_forwards` the zones answer for every loaded forward.
pub load_forwards-AllServed :
    (state : State) (sections : List (Bool × Forward)) → AllServed (load_forwards state sections)
unfolding load_forwards
load_forwards-AllServed state sections =
    load_sections-AllServed (record state { forwards = [] }) sections tt
