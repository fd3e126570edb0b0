-- ===== src/Sections.antt =====
-- The loops by which redirects.c, snats.c and includes.c add sections to the state, and the tests of
-- families that `check_families` of redirects.c and of snats.c share.
use firewall.Common.{
  ℕ, Bool, not, ◌&&◌, List, [], ◌∷◌, ◌++◌, Option, none, some, ◌==◌, ◌≡◌, ◌⊎◌, inl, inr, sym, subst,
  get_elem?, All,
}
use firewall.Options.Family
use firewall.Options.Types.{Zone}
use firewall.Options.Types.Config.{Ipset, State}
use firewall.Zones.Grows.{Extends, Extends-refl, Extends-trans}
use firewall.Rules.Load.Invariant.{All-append_one}

-- One section after another, each with whether its options were valid.
unfoldable pub each_section {ℓ} :
    {A : Type ℓ} → (State → Bool × A → State) → State → List (Bool × A) → State
each_section step state [] = state
each_section step state (s ∷ sections) = each_section step (step state s) sections

-- A family that is given and is another one.
abbrev pub differs : ℕ → ℕ → Bool
differs family own = not (own == Family.any) && not (own == family)

-- The family of what a pointer names; FW3_FAMILY_ANY for NULL.
abbrev pub zone_family : List Zone → Option ℕ → ℕ
zone_family zones none = Family.any
zone_family zones (some i) = elim (get_elem? zones i) [ none ↦ Family.any | some z ↦ z.family ]

abbrev pub ipset_family : List Ipset → Option ℕ → ℕ
ipset_family sets none = Family.any
ipset_family sets (some i) = elim (get_elem? sets i) [ none ↦ Family.any | some s ↦ s.family ]

-- What every step keeps, the loop keeps.
pub each_section_keeps {ℓ κ} :
    {A : Type ℓ} (I : State → Type κ) (step : State → Bool × A → State)
    → ((state : State) (s : Bool × A) → I state → I (step state s))
    → (state : State) (sections : List (Bool × A)) → I state
    → I (each_section step state sections)
unfolding each_section
each_section_keeps I step keeps state [] h = h
each_section_keeps I step keeps state (s ∷ sections) h =
    each_section_keeps I step keeps (step state s) sections (keeps state s h)

-- `get` is the list of a kind of section, and `P` what the zones owe each of them, which they still do
-- when they grow.
module _ {ℓ κ} {A : Type ℓ} (get : State → List A) (P : List Zone → A → Type κ)
    (mono : (zones zones' : List Zone) (x : A)
      → Extends zones zones'
      → P zones x
      → P zones' x) where
  -- A step leaves the state as it is, or adds a section and grows the zones.
  abbrev pub Adds : State → State → Type (ℓ ⊔ κ)
  Adds state state' =
      (state' ≡ state)
      ⊎ ((x : A) × Extends state.zones state'.zones
          × (get state' ≡ get state ++ x ∷ [])
          × P state'.zones x)

  -- The zones have grown since the loop began, and owe each section what `P` says.
  abbrev pub Owes : List Zone → State → Type κ
  Owes zones state = Extends zones state.zones × All (P state.zones) (get state)

  pub All-Extends :
      (zones zones' : List Zone) (xs : List A)
      → Extends zones zones'
      → All (P zones) xs
      → All (P zones') xs
  All-Extends zones zones' [] x h = tt
  All-Extends zones zones' (a ∷ xs) x h =
      (mono zones zones' a x h.0, All-Extends zones zones' xs x h.1)

  Adds-Owes :
      (zones : List Zone) (state state' : State)
      → Adds state state'
      → Owes zones state
      → Owes zones state'
  Adds-Owes zones state state' (inl e) h = subst (Owes zones) (sym e) h
  Adds-Owes zones state state' (inr (a, x, e, p)) h = (
    Extends-trans zones state.zones state'.zones h.0 x,
    rw e (
        All-append_one (P state'.zones) (get state) a
          (All-Extends state.zones state'.zones (get state) x h.1) p),
  )

  pub each_section-Owes :
      (step : State → Bool × A → State)
      → ((state : State) (s : Bool × A) → Adds state (step state s))
      → (state : State) (sections : List (Bool × A)) → get state ≡ []
      → Owes state.zones (each_section step state sections)
  each_section-Owes step adds state sections empty =
      each_section_keeps (Owes state.zones) step
        (λ s x. Adds-Owes state.zones s (step s x) (adds s x)) state sections
        (Extends-refl state.zones, rw empty tt)
