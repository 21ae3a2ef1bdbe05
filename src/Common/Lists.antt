-- ===== src/Common/Lists.antt =====
-- Lists measured by the native numbers, and predicates on lists by recursion.
use Prim.Native.Nat.{ℕ, zero, suc, ◌+◌}
use mathlib.Core.Path.{◌≡◌, refl, sym, subst}
use mathlib.Core.List.{List, [], ◌∷◌, ◌++◌, Memᴰ}
use native.Mathlib.Omega.{arith}

module _ {ℓ} {A : Type ℓ} where
  abbrev pub length : List A → ℕ
  length [] = 0
  length (x ∷ xs) = suc (length xs)

  abbrev pub take : ℕ → List A → List A
  take zero xs = []
  take (suc n) [] = []
  take (suc n) (x ∷ xs) = x ∷ take n xs

  abbrev pub flatten : List (List A) → List A
  flatten [] = []
  flatten (xs ∷ xss) = xs ++ flatten xss

  pub length-append : (xs ys : List A) → length (xs ++ ys) ≡ length xs + length ys
  length-append [] ys = omega arith
  length-append (x ∷ xs) ys = omega (arith, length-append xs ys)

module _ {ℓ κ} {A : Type ℓ} where
  abbrev pub All : (A → Type κ) → List A → Type κ
  All P [] = Unit
  All P (x ∷ xs) = P x × All P xs

  pub All-map_imp : {P Q : A → Type κ} (xs : List A) → ((x : A) → P x → Q x) → All P xs → All Q xs
  All-map_imp [] f h = tt
  All-map_imp (x ∷ xs) f h = (f x h.0, All-map_imp xs f h.1)

module _ {ℓ κ} {A : Type ℓ} (P : A → Type κ) where
  pub All-of_mem : (xs : List A) → ((x : A) → Memᴰ x xs → P x) → All P xs
  All-of_mem [] f = tt
  All-of_mem (x ∷ xs) f = (f x (Memᴰ.head refl), All-of_mem xs (λ y m. f y (Memᴰ.tail m)))

  pub mem_of_All : (xs : List A) {x : A} → All P xs → Memᴰ x xs → P x
  mem_of_All [] h m = elim m [ ]
  mem_of_All (y ∷ xs) h (Memᴰ.head e) = subst P (sym e) h.0
  mem_of_All (y ∷ xs) h (Memᴰ.tail m) = mem_of_All xs h.1 m

module _ {ℓ} {A : Type ℓ} where
  pub mem_swap : (t a b : A) (xs : List A) → Memᴰ t (a ∷ b ∷ xs) → Memᴰ t (b ∷ a ∷ xs)
  mem_swap t a b xs (Memᴰ.head p) = Memᴰ.tail (Memᴰ.head p)
  mem_swap t a b xs (Memᴰ.tail (Memᴰ.head p)) = Memᴰ.head p
  mem_swap t a b xs (Memᴰ.tail (Memᴰ.tail m)) = Memᴰ.tail (Memᴰ.tail m)

  pub mem_cons_map :
      (t a : A) (xs ys : List A) → (Memᴰ t xs → Memᴰ t ys) → Memᴰ t (a ∷ xs) → Memᴰ t (a ∷ ys)
  mem_cons_map t a xs ys f (Memᴰ.head p) = Memᴰ.head p
  mem_cons_map t a xs ys f (Memᴰ.tail m) = Memᴰ.tail (f m)
