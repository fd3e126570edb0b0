-- ===== src/Iptables/Chains.antt =====
-- The chain tables of defaults.c and zones.c: which of their entries an open table takes, and what
-- a list of calls does to chains.
use firewall.Common.{
  Bool, ◌&&◌, ◌||◌, List, [], ◌∷◌, ◌++◌, map, ◌≡◌, refl, ap, arith, ◌==◌, keep, All,
}
use firewall.Common.CString.{CString}
use firewall.Options.Types.{ChainSpec}
use firewall.Utils.Flags.{Flags, has, is_family}
use firewall.Iptables.{Handle, Trace, flush_chain, delete_chain, create_chain}

-- The three tests that the loops over a chain table make before they use an entry.
unfoldable pub selected : Handle → Flags → ChainSpec → Bool
selected h flags c =
    is_family c.family h.family && c.table == h.table && (c.flag == 0 || has flags h.family c.flag)

-- The names of the chains that a list of calls creates or flushes, in order, and the calls that delete
-- one: its name, behind `if_unused`, with which a chain that is referenced is spared.
abbrev pub created : Trace → List CString
created [] = []
created (create_chain _ c ∷ t) = c ∷ created t
created (_ ∷ t) = created t

abbrev pub deletions : Trace → List (Bool × CString)
deletions [] = []
deletions (delete_chain if_unused c ∷ t) = (if_unused, c) ∷ deletions t
deletions (_ ∷ t) = deletions t

abbrev pub flushed : Trace → List CString
flushed [] = []
flushed (flush_chain c ∷ t) = c ∷ flushed t
flushed (_ ∷ t) = flushed t

-- The calls that delete each of the chains, all with one `if_unused`.
abbrev pub for_each : Bool → List CString → List (Bool × CString)
for_each if_unused names = map (λ c. (if_unused, c)) names

pub created-append : (s t : Trace) → created (s ++ t) ≡ created s ++ created t
created-append [] t = refl
created-append (create_chain _ c ∷ s) t = ap (λ r. c ∷ r) (created-append s t)
created-append (_ ∷ s) t = created-append s t

pub deletions-append : (s t : Trace) → deletions (s ++ t) ≡ deletions s ++ deletions t
deletions-append [] t = refl
deletions-append (delete_chain b c ∷ s) t = ap (λ r. (b, c) ∷ r) (deletions-append s t)
deletions-append (_ ∷ s) t = deletions-append s t

pub flushed-append : (s t : Trace) → flushed (s ++ t) ≡ flushed s ++ flushed t
flushed-append [] t = refl
flushed-append (flush_chain c ∷ s) t = ap (λ r. c ∷ r) (flushed-append s t)
flushed-append (_ ∷ s) t = flushed-append s t

module _ {ℓ} {A : Type ℓ} (f : A → CString) where
  pub created-create_chain :
      (b : Bool) (xs : List A) → created (map (λ x. create_chain b (f x)) xs) ≡ map f xs
  created-create_chain b [] = refl
  created-create_chain b (x ∷ xs) = ap (λ r. f x ∷ r) (created-create_chain b xs)

  pub deletions-delete_chain :
      (b : Bool) (xs : List A)
      → deletions (map (λ x. delete_chain b (f x)) xs) ≡ for_each b (map f xs)
  deletions-delete_chain b [] = refl
  deletions-delete_chain b (x ∷ xs) = ap (λ r. (b, f x) ∷ r) (deletions-delete_chain b xs)

  pub deletions-flush_chain : (xs : List A) → deletions (map (λ x. flush_chain (f x)) xs) ≡ []
  deletions-flush_chain [] = refl
  deletions-flush_chain (x ∷ xs) = deletions-flush_chain xs

  pub flushed-flush_chain : (xs : List A) → flushed (map (λ x. flush_chain (f x)) xs) ≡ map f xs
  flushed-flush_chain [] = refl
  flushed-flush_chain (x ∷ xs) = ap (λ r. f x ∷ r) (flushed-flush_chain xs)

  pub flushed-delete_chain :
      (b : Bool) (xs : List A) → flushed (map (λ x. delete_chain b (f x)) xs) ≡ []
  flushed-delete_chain b [] = refl
  flushed-delete_chain b (x ∷ xs) = flushed-delete_chain b xs

-- Two tests that agree keep the same items.
pub keep_congr {ℓ} :
    {A : Type ℓ} (p q : A → Bool) (xs : List A) → ((x : A) → p x ≡ q x) → keep p xs ≡ keep q xs
keep_congr p q [] h = refl
keep_congr p q (x ∷ xs) h = ground (arith, h x, keep_congr p q xs h)

-- The same, where the tests agree on the items that have a property which all items have.
pub keep_congr_All {ℓ κ} :
    {A : Type ℓ} (P : A → Type κ) (p q : A → Bool) (xs : List A)
    → All P xs
    → ((x : A) → P x → p x ≡ q x)
    → keep p xs ≡ keep q xs
keep_congr_All P p q [] all h = refl
keep_congr_All P p q (x ∷ xs) all h = ground (arith, h x all.0, keep_congr_All P p q xs all.1 h)
