-- ===== src/Main/Installed.antt =====
-- What `start` commits to the tables of a family.
use firewall.Common.{
  ℕ, Bool, true, false, List, [], ◌∷◌, ◌++◌, ◌≡◌, refl, ◌∙◌, All, keep, Bool-cases, inl, inr,
}
use mathlib.Core.List.{Mem, mem-append_left, mem-append_right, mem-cons_self}
use firewall.Options.Types.Config.{State}
use firewall.Iptables.{Handle}
use firewall.Main.{Env, Effect, table}
use firewall.Main.Tables.{print_chains, populate_table}
use firewall.Main.Tables.Pairing.{Quiet-all_rules}
use firewall.Main.Tables.Sections.{Sections, sections, sections-print_chains}
use firewall.Main.Commands.{Program, populate, handle, emit}

pub sections-populate_table :
    (env : Env) (h : Handle) (reload : Bool) (s : State)
    → sections (populate_table env h reload s).0 ≡ sections s
unfolding populate_table
sections-populate_table env h reload s =
    (Quiet-all_rules env h (print_chains h reload s).0).sections ∙ sections-print_chains h reload s

-- Among the effects a table has been committed with all the calls that populate it, for a state of
-- the given sections.
abbrev pub Installed : Env → ℕ → Sections → List Effect → ℕ → Type 0
Installed env f c effects t =
    (s : State) × (sections s ≡ c)
    × Mem (table (handle f t) (populate_table env (handle f t) false s).1 true) effects

-- Each table of the family that can be opened.
abbrev pub AllInstalled : Env → ℕ → Sections → List Effect → List ℕ → Type 0
AllInstalled env f c effects ts =
    All (Installed env f c effects) (keep (λ t. env.opens (handle f t)) ts)

-- What is added keeps what is there.
pub Installed-append :
    (env : Env) (f : ℕ) (c : Sections) (before after : List Effect) (ts : List ℕ)
    → All (Installed env f c before) ts
    → All (Installed env f c (before ++ after)) ts
Installed-append env f c before after [] all = tt
Installed-append env f c before after (t ∷ ts) ((s, same, there), all) =
    ((s, same, mem-append_left after there), Installed-append env f c before after ts all)

-- A loop over the tables adds effects, and keeps the sections.
populate-extends :
    (env : Env) (commit reload : Bool) (f : ℕ) (ts : List ℕ) (p : Program) (e : Effect)
    → Mem e p.effects
    → Mem e (populate env commit reload f ts p).effects
unfolding populate
populate-extends env commit reload f [] p e there = there
populate-extends env commit reload f (t ∷ ts) p e there =
    populate-extends env commit reload f ts _ e (elim (Bool-cases (env.opens (handle f t))) [
      | inl open' ↦ rw open' (mem-append_left _ there)
      | inr shut ↦ rw shut there
    ])

pub sections-populate :
    (env : Env) (commit reload : Bool) (f : ℕ) (ts : List ℕ) (p : Program)
    → sections (populate env commit reload f ts p).cfg_state ≡ sections p.cfg_state
unfolding populate
sections-populate env commit reload f [] p = refl
sections-populate env commit reload f (t ∷ ts) p =
    sections-populate env commit reload f ts _ ∙ elim (Bool-cases (env.opens (handle f t))) [
      | inl open' ↦ rw open' (sections-populate_table env (handle f t) reload p.cfg_state)
      | inr shut ↦ rw shut refl
    ]

pub Installed-populate_mono :
    (env : Env) (f g : ℕ) (c : Sections) (ts us : List ℕ) (p : Program)
    → All (Installed env g c p.effects) us
    → All (Installed env g c (populate env true false f ts p).effects) us
Installed-populate_mono env f g c ts [] p all = tt
Installed-populate_mono env f g c ts (u ∷ us) p ((s, same, there), all) = (
  (s, same, populate-extends env true false f ts p _ there),
  Installed-populate_mono env f g c ts us p all,
)

-- One turn of the loop of `start`, for a table that opens, and for one that does not.
module _ (env : Env) (f t : ℕ) (ts : List ℕ) (p : Program) where
  filled : Program
  filled =
      record (emit (table (handle f t) (populate_table env (handle f t) false p.cfg_state).1 true)
        p) { cfg_state = (populate_table env (handle f t) false p.cfg_state).0 }

  populate_open :
      env.opens (handle f t) ≡ true
      → populate env true false f (t ∷ ts) p ≡ populate env true false f ts filled
  unfolding populate filled
  populate_open e = rw e refl

  populate_shut :
      env.opens (handle f t) ≡ false
      → populate env true false f (t ∷ ts) p ≡ populate env true false f ts p
  unfolding populate
  populate_shut e = rw e refl

pub populate-AllInstalled :
    (env : Env) (f : ℕ) (c : Sections) (ts : List ℕ) (p : Program)
    → sections p.cfg_state ≡ c
    → AllInstalled env f c (populate env true false f ts p).effects ts
unfolding filled
populate-AllInstalled env f c [] p same = tt
populate-AllInstalled env f c (t ∷ ts) p same = elim (Bool-cases (env.opens (handle f t))) [
  | inr shut ↦ rw (populate_shut env f t ts p shut, shut) (populate-AllInstalled env f c ts p same)
  | inl open' ↦
      let h = handle f t in
      let q : Program = filled env f t ts p in
      rw (populate_open env f t ts p open', open')
        (
          (
            p.cfg_state,
            same,
            populate-extends env true false f ts q _ (mem-append_right p.effects mem-cons_self),
          ),
          populate-AllInstalled env f c ts q
              (sections-populate_table env h false p.cfg_state ∙ same),
        )
]
