-- ===== src/Iptables/Silent.antt =====
-- Lists of calls that create no chain.
use firewall.Common.{
  Bool, true, false, List, [], ◌∷◌, ◌++◌, map, ◌≡◌, refl, if◌then◌else◌, concat_map,
}
use firewall.Iptables.{IptCall, Trace}
use firewall.Iptables.Chains.{created, created-append}

pub record Silent (t : Trace) : Type 0 where
  pub nothing : created t ≡ []

pub Silent-nil : Silent []
Silent-nil = record { nothing = refl }

pub Silent-append : (s t : Trace) → Silent s → Silent t → Silent (s ++ t)
Silent-append s t hs ht = record { nothing = rw (created-append s t, hs.nothing) ht.nothing }

pub Silent-if : (b : Bool) (s t : Trace) → Silent s → Silent t → Silent (if b then s else t)
Silent-if true s t hs ht = hs
Silent-if false s t hs ht = ht

module _ {ℓ} {A : Type ℓ} where
  pub Silent-map :
      (f : A → IptCall) (xs : List A) → ((x : A) → Silent (f x ∷ [])) → Silent (map f xs)
  Silent-map f [] h = Silent-nil
  Silent-map f (x ∷ xs) h = Silent-append (f x ∷ []) (map f xs) (h x) (Silent-map f xs h)

  pub Silent-concat_map :
      (f : A → Trace) (xs : List A) → ((x : A) → Silent (f x)) → Silent (concat_map f xs)
  unfolding concat_map
  Silent-concat_map f [] h = Silent-nil
  Silent-concat_map f (x ∷ xs) h =
      Silent-append (f x) (concat_map f xs) (h x) (Silent-concat_map f xs h)
