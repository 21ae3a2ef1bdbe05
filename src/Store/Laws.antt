-- ===== src/Store/Laws.antt =====
-- What the statements of cmd/brain/*.go do to a table.
use ovek.Common.{
  suc, ◌≤◌, ◌<◌, ◌≡◌, refl, ap, inl, inr, Bool, true, false, Option, none, some, List, [], ◌∷◌,
  arith, Memᴰ, Bool-cases, if◌then◌else◌,
}
use mathlib.Core.Option.{some-injective}
use ovek.Store.Sql.{
  ok, select, select_row, count_where, update_where, update_row, require_updated_row,
}

module _ {A : Type 0} where
  pub update_row-ok :
      (p : A → Bool) (f : A → A) (xs : List A) {ys : List A}
      → update_row p f xs ≡ ok ys
      → (count_where p xs ≡ 1) × (ys ≡ update_where p f xs)
  unfolding update_row require_updated_row
  update_row-ok p f xs h = ground arith

  pub update_row_total :
      (p : A → Bool) (f : A → A) (xs : List A)
      → count_where p xs ≡ 1
      → update_row p f xs ≡ ok (update_where p f xs)
  unfolding update_row require_updated_row
  update_row_total p f xs h = rw h refl

  -- A condition that the change keeps on the changed rows is met by as many rows after it.
  pub count-update :
      (q p : A → Bool) (f : A → A) (xs : List A)
      → ((x : A) → Memᴰ x xs → p x ≡ true → q (f x) ≡ q x)
      → count_where q (update_where p f xs) ≡ count_where q xs
  unfolding count_where update_where
  count-update q p f [] h = refl
  count-update q p f (x ∷ xs) h = elim (Bool-cases (p x)) [
    | inl e ↦ rw (e, h x (Memᴰ.head refl) e, count-update q p f xs (λ y m. h y (Memᴰ.tail m)))
    | inr e ↦ rw (e, count-update q p f xs (λ y m. h y (Memᴰ.tail m)))
  ]

  -- Rows that the change does not meet are selected as before.
  pub select-update :
      (q p : A → Bool) (f : A → A) (xs : List A)
      → ((x : A) → Memᴰ x xs → p x ≡ true → (q x ≡ false) × (q (f x) ≡ false))
      → select q (update_where p f xs) ≡ select q xs
  unfolding select update_where
  select-update q p f [] h = refl
  select-update q p f (x ∷ xs) h = elim (Bool-cases (p x)) [
    | inl e ↦ rw (
      e,
      (h x (Memᴰ.head refl) e).1,
      (h x (Memᴰ.head refl) e).0,
      select-update q p f xs (λ y m. h y (Memᴰ.tail m)),
    )
    | inr e ↦ rw (e, select-update q p f xs (λ y m. h y (Memᴰ.tail m)))
  ]

  -- The change as it stands on one row.
  abbrev pub changed : (A → Bool) → (A → A) → A → A
  changed p f x = if p x then f x else x

  abbrev pub changed_option : (A → Bool) → (A → A) → Option A → Option A
  changed_option p f none = none
  changed_option p f (some x) = some (changed p f x)

  -- A key that the change keeps finds the same row, changed.
  pub select_row-update :
      (q p : A → Bool) (f : A → A) (xs : List A)
      → ((x : A) → p x ≡ true → q (f x) ≡ q x)
      → select_row q (update_where p f xs) ≡ changed_option p f (select_row q xs)
  unfolding select_row update_where
  select_row-update q p f [] h = refl
  select_row-update q p f (x ∷ xs) h = ground (arith, h x, select_row-update q p f xs h)

  pub count_pos_of_row :
      (q : A → Bool) (xs : List A) (x : A) → select_row q xs ≡ some x → 0 < count_where q xs
  unfolding select_row count_where
  count_pos_of_row q [] x h = cc
  count_pos_of_row q (y ∷ ys) x h = ground (arith, count_pos_of_row q ys x)

  pub row_of_count_pos :
      (q : A → Bool) (xs : List A) → 0 < count_where q xs → (x : A) × (select_row q xs ≡ some x)
  unfolding select_row count_where
  row_of_count_pos q [] h = absurd (omega arith)
  row_of_count_pos q (y ∷ ys) h = elim (Bool-cases (q y)) [
    | inl e ↦ (y, rw e)
    | inr e ↦ let (x, found) = row_of_count_pos q ys (rw e at h) in (x, rw e found)
  ]

  pub select_row-holds :
      (q : A → Bool) (xs : List A) (x : A) → select_row q xs ≡ some x → q x ≡ true
  unfolding select_row
  select_row-holds q [] x h = cc
  select_row-holds q (y ∷ ys) x h = ground (arith, select_row-holds q ys x)

  pub no_row_of_count :
      (q : A → Bool) (xs : List A) (x : A) → count_where q xs ≡ 0 → Memᴰ x xs → q x ≡ false
  unfolding count_where
  no_row_of_count q [] x h m = elim m [ ]
  no_row_of_count q (y ∷ ys) x h (Memᴰ.head e) = rw e (ground (arith, h))
  no_row_of_count q (y ∷ ys) x h (Memᴰ.tail m) = no_row_of_count q ys x (ground (arith, h)) m

  -- A key meets one row at most: any row that it meets is the one that it finds.
  pub row_unique :
      (q : A → Bool) (xs : List A) (x y : A)
      → count_where q xs ≤ 1
      → select_row q xs ≡ some x
      → Memᴰ y xs
      → q y ≡ true
      → y ≡ x
  unfolding count_where select_row
  row_unique q [] x y h e m k = elim m [ ]
  row_unique q (z ∷ zs) x y h e (Memᴰ.head s) k = ground (arith, ap q s)
  row_unique q (z ∷ zs) x y h e (Memᴰ.tail m) k = elim (Bool-cases (q z)) [
    | inl t ↦ cc (k, no_row_of_count q zs y (one_left (rw t at h)) m)
    | inr t ↦ row_unique q zs x y (rw t at h) (rw t at e) m k
  ]
    where
      one_left : suc (count_where q zs) ≤ 1 → count_where q zs ≡ 0
      one_left l = omega arith

  -- A stronger condition counts no more.
  pub count_mono :
      (q r : A → Bool) (xs : List A)
      → ((y : A) → r y ≡ true → q y ≡ true)
      → count_where r xs ≤ count_where q xs
  unfolding count_where
  count_mono q r [] imp = omega arith
  count_mono q r (x ∷ xs) imp = ground (arith, imp x, count_mono q r xs imp)

  -- Among rows that one key finds alone, a condition that implies the key counts one or none.
  pub count_of_row :
      (q r : A → Bool) (xs : List A) (x : A)
      → ((y : A) → r y ≡ true → q y ≡ true)
      → count_where q xs ≤ 1
      → select_row q xs ≡ some x
      → count_where r xs ≡ (if r x then 1 else 0)
  unfolding count_where select_row
  count_of_row q r [] x imp h e = cc
  count_of_row q r (z ∷ zs) x imp h e = elim (Bool-cases (q z)) [
    | inl t ↦ found (rw t at h) (some-injective z x (rw t at e))
    | inr t ↦ missed t (count_of_row q r zs x imp (rw t at h) (rw t at e))
  ]
    where
      found :
          suc (count_where q zs) ≤ 1
          → z ≡ x
          → (if r z then suc (count_where r zs) else count_where r zs) ≡ (if r x then 1 else 0)
      found l s = rw s (ground (arith, count_mono q r zs imp))

      missed :
          q z ≡ false
          → count_where r zs ≡ (if r x then 1 else 0)
          → (if r z then suc (count_where r zs) else count_where r zs) ≡ (if r x then 1 else 0)
      missed t ih = ground (arith, imp z)
