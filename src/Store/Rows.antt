-- ===== src/Store/Rows.antt =====
-- Rows appended to a table by an INSERT of cmd/brain/*.go, and rows that an UPDATE passes by.
use ovek.Common.{
  ℕ, suc, ◌≤◌, ◌<◌, ◌+◌, ◌≡◌, refl, inl, inr, Bool, true, false, ◌&&◌, Option, none, some, List, [],
  ◌∷◌, ◌++◌, arith, map, Memᴰ, Bool-cases, if◌then◌else◌,
}
use ovek.Store.Sql.{select, select_row, count_where, update_where, delete_where, exists_where}

module _ {A : Type 0} where
  pub count-append :
      (q : A → Bool) (xs ys : List A)
      → count_where q (xs ++ ys) ≡ count_where q xs + count_where q ys
  unfolding count_where
  count-append q [] ys = omega arith
  count-append q (x ∷ xs) ys = ground (arith, count-append q xs ys)

  pub count-snoc :
      (q : A → Bool) (xs : List A) (y : A)
      → count_where q (xs ++ y ∷ []) ≡ count_where q xs + (if q y then 1 else 0)
  unfolding count_where
  count-snoc q [] y = ground arith
  count-snoc q (x ∷ xs) y = ground (arith, count-snoc q xs y)

  pub select-snoc_false :
      (q : A → Bool) (xs : List A) (y : A) → q y ≡ false → select q (xs ++ y ∷ []) ≡ select q xs
  unfolding select
  select-snoc_false q [] y e = rw e
  select-snoc_false q (x ∷ xs) y e = rw (select-snoc_false q xs y e)

  pub select_row-snoc_found :
      (q : A → Bool) (xs : List A) (y x : A)
      → select_row q xs ≡ some x
      → select_row q (xs ++ y ∷ []) ≡ some x
  unfolding select_row
  select_row-snoc_found q [] y x e = cc
  select_row-snoc_found q (z ∷ xs) y x e = ground (arith, select_row-snoc_found q xs y x)

  pub select_row-snoc_none :
      (q : A → Bool) (xs : List A) (y : A)
      → select_row q xs ≡ none
      → select_row q (xs ++ y ∷ []) ≡ (if q y then some y else none)
  unfolding select_row
  select_row-snoc_none q [] y e = refl
  select_row-snoc_none q (z ∷ xs) y e = ground (arith, select_row-snoc_none q xs y)

  pub select_row-count_zero :
      (q : A → Bool) (xs : List A) → count_where q xs ≡ 0 → select_row q xs ≡ none
  unfolding select_row count_where
  select_row-count_zero q [] e = refl
  select_row-count_zero q (x ∷ xs) e = ground (arith, select_row-count_zero q xs)

  pub count-select_row-none :
      (q : A → Bool) (xs : List A) → select_row q xs ≡ none → count_where q xs ≡ 0
  unfolding select_row count_where
  count-select_row-none q [] e = refl
  count-select_row-none q (x ∷ xs) e = ground (arith, count-select_row-none q xs)

  pub exists_where-false :
      (q : A → Bool) (xs : List A) → exists_where q xs ≡ false → count_where q xs ≡ 0
  unfolding exists_where count_where
  exists_where-false q [] e = refl
  exists_where-false q (x ∷ xs) e = ground (arith, exists_where-false q xs)

  pub exists_where_of_count :
      (q : A → Bool) (xs : List A) → 0 < count_where q xs → exists_where q xs ≡ true
  unfolding exists_where count_where
  exists_where_of_count q [] e = absurd (omega arith)
  exists_where_of_count q (x ∷ xs) e = ground (arith, exists_where_of_count q xs)

  pub exists_where_of_zero :
      (q : A → Bool) (xs : List A) → count_where q xs ≡ 0 → exists_where q xs ≡ false
  unfolding exists_where count_where
  exists_where_of_zero q [] e = refl
  exists_where_of_zero q (x ∷ xs) e = ground (arith, exists_where_of_zero q xs)

  pub count-nil : (q : A → Bool) → count_where q [] ≡ 0
  unfolding count_where
  count-nil q = refl

  pub count-same :
      (q : A → Bool) (xs : List A) → count_where (λ x. q x && q x) xs ≡ count_where q xs
  unfolding count_where
  count-same q [] = refl
  count-same q (x ∷ xs) = ground (arith, count-same q xs)

  pub select-count_zero : (q : A → Bool) (xs : List A) → count_where q xs ≡ 0 → select q xs ≡ []
  unfolding count_where select
  select-count_zero q [] e = refl
  select-count_zero q (x ∷ xs) e = ground (arith, select-count_zero q xs)

  -- A change that makes no row meet a condition counts no more rows.
  pub count-update_le :
      (q p : A → Bool) (f : A → A) (xs : List A)
      → ((x : A) → p x ≡ true → q (f x) ≡ true → q x ≡ true)
      → count_where q (update_where p f xs) ≤ count_where q xs
  unfolding count_where update_where
  count-update_le q p f [] h = omega arith
  count-update_le q p f (x ∷ xs) h = ground (arith, h x, count-update_le q p f xs h)

  pub count-update_clears :
      (p : A → Bool) (f : A → A) (xs : List A)
      → ((x : A) → p (f x) ≡ false)
      → count_where p (update_where p f xs) ≡ 0
  unfolding count_where update_where
  count-update_clears p f [] h = refl
  count-update_clears p f (x ∷ xs) h = ground (arith, h x, count-update_clears p f xs h)

  pub count-ext :
      (q r : A → Bool) (xs : List A) → ((x : A) → q x ≡ r x) → count_where q xs ≡ count_where r xs
  unfolding count_where
  count-ext q r [] h = refl
  count-ext q r (x ∷ xs) h = rw (h x, count-ext q r xs h)

  pub count-map :
      {B : Type 0} (q : B → Bool) (g : A → B) (xs : List A)
      → count_where q (map g xs) ≡ count_where (λ x. q (g x)) xs
  unfolding count_where
  count-map q g [] = refl
  count-map q g (x ∷ xs) = rw (count-map q g xs)

  -- An update of some rows before the same update of all of them is lost in it.
  pub update-update :
      (q p : A → Bool) (f : A → A) (xs : List A)
      → ((x : A) → p x ≡ true → q x ≡ true)
      → ((x : A) → q (f x) ≡ false)
      → update_where q f (update_where p f xs) ≡ update_where q f xs
  unfolding update_where
  update-update q p f [] weaker cleared = refl
  update-update q p f (x ∷ xs) weaker cleared = elim (Bool-cases (p x)) [
    | inl e ↦ rw (e, cleared x, weaker x e, update-update q p f xs weaker cleared)
    | inr e ↦ rw (e, update-update q p f xs weaker cleared)
  ]

  pub update_none :
      (q : A → Bool) (f : A → A) (xs : List A)
      → ((x : A) → Memᴰ x xs → q x ≡ false)
      → update_where q f xs ≡ xs
  unfolding update_where
  update_none q f [] h = refl
  update_none q f (x ∷ xs) h =
      rw (h x (Memᴰ.head refl), update_none q f xs (λ y m. h y (Memᴰ.tail m)))

  -- Two changes that agree on the rows that are changed.
  pub update_ext :
      (q : A → Bool) (f g : A → A) (xs : List A)
      → ((x : A) → q x ≡ true → f x ≡ g x)
      → update_where q f xs ≡ update_where q g xs
  unfolding update_where
  update_ext q f g [] same = refl
  update_ext q f g (x ∷ xs) same = elim (Bool-cases (q x)) [
    | inl e ↦ rw (e, same x e, update_ext q f g xs same)
    | inr e ↦ rw (e, update_ext q f g xs same)
  ]

  pub count-delete : (p : A → Bool) (xs : List A) → count_where p (delete_where p xs) ≡ 0
  unfolding count_where delete_where
  count-delete p [] = refl
  count-delete p (x ∷ xs) = ground (arith, count-delete p xs)

  -- A change that takes rows out of a condition leaves as many fewer as it changes.
  pub count-update_drop :
      (q p : A → Bool) (f : A → A) (xs : List A)
      → ((x : A) → Memᴰ x xs → p x ≡ true → (q x ≡ true) × (q (f x) ≡ false))
      → count_where q (update_where p f xs) + count_where p xs ≡ count_where q xs
  unfolding count_where update_where
  count-update_drop q p f [] h = omega arith
  count-update_drop q p f (x ∷ xs) h = elim (Bool-cases (p x)) [
    | inl e ↦
        rw (e, (h x (Memᴰ.head refl) e).0, (h x (Memᴰ.head refl) e).1)
          (one_fewer _ _ (count-update_drop q p f xs (λ y m. h y (Memᴰ.tail m))))
    | inr e ↦ rw e (both (count-update_drop q p f xs (λ y m. h y (Memᴰ.tail m))))
  ]
    where
      one_fewer : (a b : ℕ) {c : ℕ} → a + b ≡ c → a + suc b ≡ suc c
      one_fewer a b e = omega arith

      both :
          count_where q (update_where p f xs) + count_where p xs ≡ count_where q xs
          → (if q x
                then suc (count_where q (update_where p f xs))
                else count_where q (update_where p f xs))
              + count_where p xs
            ≡ (if q x then suc (count_where q xs) else count_where q xs)
      both e = ground (arith, e)

module _ {A : Type 0} where
  pub select-append :
      (q : A → Bool) (xs ys : List A) → select q (xs ++ ys) ≡ select q xs ++ select q ys
  unfolding select
  select-append q [] ys = refl
  select-append q (x ∷ xs) ys = ground (arith, select-append q xs ys)

  pub count_none : (q : A → Bool) (xs : List A) → ((x : A) → q x ≡ false) → count_where q xs ≡ 0
  unfolding count_where
  count_none q [] h = refl
  count_none q (x ∷ xs) h = rw (h x) (count_none q xs h)

  pub select_row-append :
      (q : A → Bool) (xs ys : List A)
      → count_where q xs ≡ 0
      → select_row q (xs ++ ys) ≡ select_row q ys
  unfolding select_row count_where
  select_row-append q [] ys h = refl
  select_row-append q (x ∷ xs) ys h = ground (arith, select_row-append q xs ys)

  -- Without the rows of a condition, another condition that those do not meet finds the same row.
  pub select_row-delete :
      (q p : A → Bool) (xs : List A)
      → ((x : A) → p x ≡ true → q x ≡ false)
      → select_row q (delete_where p xs) ≡ select_row q xs
  unfolding select_row delete_where
  select_row-delete q p [] h = refl
  select_row-delete q p (x ∷ xs) h = ground (arith, h x, select_row-delete q p xs h)

module _ {A B : Type 0} where
  abbrev pub map_row : (A → B) → Option A → Option B
  map_row f none = none
  map_row f (some x) = some (f x)

  pub select_row-map :
      (q : B → Bool) (f : A → B) (xs : List A)
      → select_row q (map f xs) ≡ map_row f (select_row (λ x. q (f x)) xs)
  unfolding select_row
  select_row-map q f [] = refl
  select_row-map q f (x ∷ xs) = ground (arith, select_row-map q f xs)
