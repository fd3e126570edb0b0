-- ===== src/Common/Lists.antt =====
-- Lists measured and indexed by native numbers, under the library's names.
use Prim.Native.Nat.{ℕ, zero, suc, ◌+◌, ◌≤◌}
use mathlib.Core.Path.{◌≡◌, refl, ap}
use mathlib.Core.Bool.{Bool, true, false}
use mathlib.Core.List.{List, [], ◌∷◌, ◌++◌, map}
use mathlib.Core.Option.{Option, none, some}
use native.Mathlib.Omega.{arith}

module _ {ℓ} {A : Type ℓ} where
  abbrev pub length : List A → ℕ
  length [] = 0
  length (x ∷ xs) = suc (length xs)

  abbrev pub get_elem? : List A → ℕ → Option A
  get_elem? [] i = none
  get_elem? (x ∷ xs) zero = some x
  get_elem? (x ∷ xs) (suc i) = get_elem? xs i

  abbrev pub get_or : List A → ℕ → A → A
  get_or [] i d = d
  get_or (x ∷ xs) zero d = x
  get_or (x ∷ xs) (suc i) d = get_or xs i d

  abbrev pub take : ℕ → List A → List A
  take zero xs = []
  take (suc n) [] = []
  take (suc n) (x ∷ xs) = x ∷ take n xs

  abbrev pub drop : ℕ → List A → List A
  drop zero xs = xs
  drop (suc n) [] = []
  drop (suc n) (x ∷ xs) = drop n xs

  abbrev pub replicate : ℕ → A → List A
  replicate zero a = []
  replicate (suc n) a = a ∷ replicate n a

  -- The items that pass a Boolean test, in order.
  abbrev pub keep : (A → Bool) → List A → List A
  keep p [] = []
  keep p (x ∷ xs) = elim (p x) [ true ↦ x ∷ keep p xs | false ↦ keep p xs ]

  abbrev pub null : List A → Bool
  null [] = true
  null (x ∷ xs) = false

  pub length-append : (xs ys : List A) → length (xs ++ ys) ≡ length xs + length ys
  length-append [] ys = omega arith
  length-append (x ∷ xs) ys = omega (arith, length-append xs ys)

  pub length-take : (n : ℕ) (xs : List A) → length (take n xs) ≤ n
  length-take zero xs = omega arith
  length-take (suc n) [] = omega arith
  length-take (suc n) (x ∷ xs) = omega (arith, length-take n xs)

  pub take_all : (n : ℕ) (xs : List A) → length xs ≤ n → take n xs ≡ xs
  take_all zero [] h = refl
  take_all zero (x ∷ xs) h = absurd (omega arith)
  take_all (suc n) [] h = refl
  take_all (suc n) (x ∷ xs) h = ap (λ r. x ∷ r) (take_all n xs (omega arith))

-- A predicate at every item of a list, and at one item.
module _ {ℓ κ} {A : Type ℓ} (P : A → Type κ) where
  abbrev pub All : List A → Type κ
  All [] = Unit
  All (x ∷ xs) = P x × All xs

-- The index of the first item that passes a test: a loop that returns a pointer to it.
module _ {ℓ} {A : Type ℓ} (p : A → Bool) where
  unfoldable pub find_index : List A → Option ℕ
  find_index [] = none
  find_index (x ∷ xs) = elim (p x) [
    | true ↦ some 0
    | false ↦ elim (find_index xs) [ none ↦ none | some i ↦ some (suc i) ]
  ]

module _ {ℓ} {A : Type ℓ} where
  -- `fw3_foreach`: the body runs for each item, and once with NULL for an empty list.
  unfoldable pub foreach : List A → List (Option A)
  foreach [] = none ∷ []
  foreach (x ∷ xs) = map some (x ∷ xs)

-- The calls of a loop's body, one after another.
unfoldable pub concat_map {ℓ κ} : {A : Type ℓ} {B : Type κ} → (A → List B) → List A → List B
concat_map f [] = []
concat_map f (x ∷ xs) = f x ++ concat_map f xs

pub All-get_elem? {ℓ κ} :
    {A : Type ℓ} (P : A → Type κ) (xs : List A) (k : ℕ) (c : A)
    → All P xs
    → get_elem? xs k ≡ some c
    → P c
All-get_elem? P [] k c h at = absurd (cc)
All-get_elem? P (x ∷ xs) zero c h at = let e : x ≡ c = ground arith in rw (← e) h.0
All-get_elem? P (x ∷ xs) (suc k) c h at = All-get_elem? P xs k c h.1 at

module _ {κ ι} {B : Type κ} (P : B → Type ι) where
  pub All-append : (xs ys : List B) → All P xs → All P ys → All P (xs ++ ys)
  All-append [] ys hx hy = hy
  All-append (x ∷ xs) ys hx hy = (hx.0, All-append xs ys hx.1 hy)

module _ {ℓ κ ι} {A : Type ℓ} {B : Type κ} (P : B → Type ι) where
  pub All-map : (f : A → B) (xs : List A) → ((x : A) → P (f x)) → All P (map f xs)
  All-map f [] h = tt
  All-map f (x ∷ xs) h = (h x, All-map f xs h)

  pub All-concat_map :
      (f : A → List B) (xs : List A) → ((x : A) → All P (f x)) → All P (concat_map f xs)
  unfolding concat_map
  All-concat_map f [] h = tt
  All-concat_map f (x ∷ xs) h = All-append P (f x) (concat_map f xs) (h x) (All-concat_map f xs h)

-- The same, where the items have a property of their own.
pub All-concat_map-All {ℓ κ ι ο} :
    {A : Type ℓ} {B : Type κ} (Q : A → Type ο) (P : B → Type ι) (f : A → List B) (xs : List A)
    → All Q xs
    → ((x : A) → Q x → All P (f x))
    → All P (concat_map f xs)
unfolding concat_map
All-concat_map-All Q P f [] q h = tt
All-concat_map-All Q P f (x ∷ xs) q h =
    All-append P (f x) (concat_map f xs) (h x q.0) (All-concat_map-All Q P f xs q.1 h)
