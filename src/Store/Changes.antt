-- ===== src/Store/Changes.antt =====
-- What deletions and changes of a table leave of the counts of its rows.
use mathlib.Core.Option.{some-injective}
use ovek.Common.{
  ℕ, suc, ◌≤◌, ◌+◌, ◌≡◌, refl, subst, inl, inr, Bool, true, false, ◌&&◌, some, List, [], ◌∷◌, ◌++◌,
  arith, Memᴰ, Bool-cases, if◌then◌else◌,
}
use ovek.Store.Sql.{select, select_row, count_where, update_where, delete_where}
use ovek.Store.Rows.{count-snoc}

module _ {A : Type 0} where
  pub count-delete_le :
      (q p : A → Bool) (xs : List A) → count_where q (delete_where p xs) ≤ count_where q xs
  unfolding count_where delete_where
  count-delete_le q p [] = omega arith
  count-delete_le q p (x ∷ xs) = ground (arith, count-delete_le q p xs)

  pub select_row-select :
      (q r : A → Bool) (xs : List A) → select_row q (select r xs) ≡ select_row (λ x. r x && q x) xs
  unfolding select_row select
  select_row-select q r [] = refl
  select_row-select q r (x ∷ xs) = ground (arith, select_row-select q r xs)

  -- A new row that is the first of its key keeps the key unique.
  pub count-snoc_first :
      (q : A → Bool) (xs : List A) (x : A)
      → (q x ≡ true → count_where q xs ≡ 0)
      → count_where q xs ≤ 1
      → count_where q (xs ++ x ∷ []) ≤ 1
  count-snoc_first q xs x first h = elim (Bool-cases (q x)) [
    | inl e ↦ rw (count-snoc q xs x, e) (omega (arith, first e))
    | inr e ↦ rw (count-snoc q xs x, e) (omega arith)
  ]

  pub count-snoc_other :
      (q : A → Bool) (xs : List A) (x : A)
      → q x ≡ false
      → count_where q (xs ++ x ∷ []) ≡ count_where q xs
  count-snoc_other q xs x e = rw (count-snoc q xs x, e) (omega arith)

  -- A change of every row of a condition takes them all out of a condition that implies it.
  pub count-update_covers :
      (q p : A → Bool) (f : A → A) (xs : List A)
      → ((x : A) → p x ≡ true → q (f x) ≡ false)
      → ((x : A) → p x ≡ false → q x ≡ false)
      → count_where q (update_where p f xs) ≡ 0
  unfolding count_where update_where
  count-update_covers q p f [] clears implies = refl
  count-update_covers q p f (x ∷ xs) clears implies =
      ground (arith, clears x, implies x, count-update_covers q p f xs clears implies)

  -- Counting after a change is counting the rows as they would be changed.
  pub count-update_changed :
      (q p : A → Bool) (f : A → A) (xs : List A)
      → count_where q (update_where p f xs) ≡ count_where (λ x. q (if p x then f x else x)) xs
  unfolding count_where update_where
  count-update_changed q p f [] = refl
  count-update_changed q p f (x ∷ xs) = rw (count-update_changed q p f xs)

  -- A condition that implies another meets no row where that meets none.
  pub count_zero_of :
      (q p : A → Bool) (xs : List A)
      → ((x : A) → q x ≡ true → p x ≡ true)
      → count_where p xs ≡ 0
      → count_where q xs ≡ 0
  unfolding count_where
  count_zero_of q p [] implies h = refl
  count_zero_of q p (x ∷ xs) implies h = ground (arith, implies x, count_zero_of q p xs implies)

  pub delete_none : (p : A → Bool) (xs : List A) → count_where p xs ≡ 0 → delete_where p xs ≡ xs
  unfolding count_where delete_where
  delete_none p [] h = refl
  delete_none p (x ∷ xs) h = elim (Bool-cases (p x)) [
    | inl e ↦ cc (rw e at h)
    | inr e ↦ rw (e, delete_none p xs (rw e at h))
  ]

  -- Deleting the one row of a key takes that row out of each count.
  pub count-delete_one :
      (q p : A → Bool) (xs : List A) {x : A}
      → count_where p xs ≡ 1
      → select_row p xs ≡ some x
      → count_where q (delete_where p xs) + (if q x then 1 else 0) ≡ count_where q xs
  unfolding count_where delete_where select_row
  count-delete_one q p [] one found = cc
  count-delete_one q p (y ∷ xs) {x} one found = elim (Bool-cases (p y)) [
    | inl e ↦
        rw (e, delete_none p xs (pred (rw e at one)))
          (subst
            (λ z.
              count_where q xs + (if q z then 1 else 0)
              ≡ (if q y then suc (count_where q xs) else count_where q xs))
            (some-injective _ _ (rw e at found)) (counted _ (q y)))
    | inr e ↦ rw e (carried _ _ _ (q y) (count-delete_one q p xs (rw e at one) (rw e at found)))
  ]
    where
      pred : {n : ℕ} → suc n ≡ 1 → n ≡ 0
      pred h = omega arith

      counted : (n : ℕ) (b : Bool) → n + (if b then 1 else 0) ≡ (if b then suc n else n)
      counted n true = omega arith
      counted n false = omega arith

      carried :
          (m k n : ℕ) (b : Bool)
          → m + k ≡ n
          → (if b then suc m else m) + k ≡ (if b then suc n else n)
      carried m k n true h = omega arith
      carried m k n false h = h

  pub count_none_mem :
      (q : A → Bool) (xs : List A) → ((x : A) → Memᴰ x xs → q x ≡ false) → count_where q xs ≡ 0
  unfolding count_where
  count_none_mem q [] h = refl
  count_none_mem q (x ∷ xs) h =
      rw (h x (Memᴰ.head refl)) (count_none_mem q xs (λ y m. h y (Memᴰ.tail m)))
