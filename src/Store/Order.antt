-- ===== src/Store/Order.antt =====
-- Rows that a SELECT of cmd/brain/*.go picks or puts in order.
use ovek.Common.{
  ◌≤◌, if◌then◌else◌, ◌≡◌, refl, sym, ap, ◌∙◌, inl, inr, Bool, true, ◌&&◌, none, some, List, [],
  ◌∷◌, arith, Memᴰ, mem_swap, mem_cons_map, Bool-cases,
}
use mathlib.Core.Option.{some-injective}
use ovek.Store.Sql.{select, select_row, count_where, insert_by, order_by, first_row}
use ovek.Store.Rows.{count-nil, count-same, select-count_zero}

module _ {A : Type 0} where
  -- Rows are not lost or repeated by a sort.
  count-insert_by :
      (q : A → Bool) (before : A → A → Bool) (x : A) (xs : List A)
      → count_where q (insert_by before x xs) ≡ count_where q (x ∷ xs)
  unfolding count_where insert_by
  count-insert_by q before x [] = refl
  count-insert_by q before x (y ∷ ys) = ground (arith, count-insert_by q before x ys)

  count-cons :
      (q : A → Bool) (x : A) (xs ys : List A)
      → count_where q xs ≡ count_where q ys
      → count_where q (x ∷ xs) ≡ count_where q (x ∷ ys)
  unfolding count_where
  count-cons q x xs ys e = rw e

  pub count-order_by :
      (q : A → Bool) (before : A → A → Bool) (xs : List A)
      → count_where q (order_by before xs) ≡ count_where q xs
  unfolding order_by
  count-order_by q before [] = refl
  count-order_by q before (x ∷ xs) =
      count-insert_by q before x (order_by before xs)
      ∙ count-cons q x (order_by before xs) xs (count-order_by q before xs)

  pub count-select :
      (q r : A → Bool) (xs : List A)
      → count_where q (select r xs) ≡ count_where (λ x. r x && q x) xs
  unfolding count_where select
  count-select q r [] = refl
  count-select q r (y ∷ ys) = ground (arith, count-select q r ys)

  first_row-none : (ys : List A) → first_row ys ≡ none → ys ≡ []
  unfolding first_row
  first_row-none [] e = refl
  first_row-none (y ∷ ys) e = cc

  -- The first row of a sorted selection is missing only if nothing is selected.
  pub count_of_no_first :
      (q : A → Bool) (before : A → A → Bool) (xs : List A)
      → first_row (order_by before (select q xs)) ≡ none
      → count_where q xs ≡ 0
  count_of_no_first q before xs h =
      sym (count-same q xs)
      ∙ sym (count-select q q xs)
      ∙ sym (count-order_by q before (select q xs))
      ∙ ap (count_where q) (first_row-none (order_by before (select q xs)) h)
      ∙ count-nil q

  pub first_of_count_zero :
      (q : A → Bool) (before : A → A → Bool) (xs : List A)
      → count_where q xs ≡ 0
      → first_row (order_by before (select q xs)) ≡ none
  unfolding first_row order_by
  first_of_count_zero q before xs h = rw (select-count_zero q xs h)

  mem_of_select :
      (q : A → Bool) (xs : List A) (x : A) → Memᴰ x (select q xs) → Memᴰ x xs × (q x ≡ true)
  unfolding select
  mem_of_select q [] x m = elim m [ ]
  mem_of_select q (y ∷ ys) x m = elim (Bool-cases (q y)) [
    | inl e ↦ split e (mem_of_select q ys x) (rw e at m)
    | inr e ↦ let (n, h) = mem_of_select q ys x (rw e at m) in (Memᴰ.tail n, h)
  ]
    where
      split :
          q y ≡ true
          → (Memᴰ x (select q ys) → Memᴰ x ys × (q x ≡ true))
          → Memᴰ x (y ∷ select q ys)
          → Memᴰ x (y ∷ ys) × (q x ≡ true)
      split e rest (Memᴰ.head p) = (Memᴰ.head p, ap q p ∙ e)
      split e rest (Memᴰ.tail n) = let (k, h) = rest n in (Memᴰ.tail k, h)

  mem_of_insert_by :
      (before : A → A → Bool) (a x : A) (xs : List A)
      → Memᴰ x (insert_by before a xs)
      → Memᴰ x (a ∷ xs)
  unfolding insert_by
  mem_of_insert_by before a x [] m = m
  mem_of_insert_by before a x (y ∷ ys) m = elim (Bool-cases (before y a)) [
    | inl e ↦ mem_swap x y a ys (
        mem_cons_map x y (insert_by before a ys) (a ∷ ys) (mem_of_insert_by before a x ys)
          (rw e at m))
    | inr e ↦ rw e at m
  ]

  mem_of_order_by :
      (before : A → A → Bool) (x : A) (xs : List A) → Memᴰ x (order_by before xs) → Memᴰ x xs
  unfolding order_by
  mem_of_order_by before x [] m = m
  mem_of_order_by before x (y ∷ ys) m =
      mem_cons_map x y (order_by before ys) ys (mem_of_order_by before x ys)
        (mem_of_insert_by before y x (order_by before ys) m)

  mem_of_first_row : (x : A) (xs : List A) → first_row xs ≡ some x → Memᴰ x xs
  unfolding first_row
  mem_of_first_row x [] e = cc
  mem_of_first_row x (y ∷ ys) e = Memᴰ.head (sym (some-injective y x e))

  -- The first row of a sorted selection is a row of the table that is selected.
  pub mem_of_first :
      (q : A → Bool) (before : A → A → Bool) (xs : List A) (x : A)
      → first_row (order_by before (select q xs)) ≡ some x
      → Memᴰ x xs × (q x ≡ true)
  mem_of_first q before xs x e = mem_of_select q xs x (
      mem_of_order_by before x (select q xs) (mem_of_first_row x (order_by before (select q xs)) e))

module _ {A : Type 0} where
  pub mem_of_select_row :
      (q : A → Bool) (xs : List A) (x : A) → select_row q xs ≡ some x → Memᴰ x xs
  unfolding select_row
  mem_of_select_row q [] x e = cc
  mem_of_select_row q (y ∷ ys) x e = elim (Bool-cases (q y)) [
    | inl t ↦ Memᴰ.head (sym (some-injective y x (rw t at e)))
    | inr t ↦ Memᴰ.tail (mem_of_select_row q ys x (rw t at e))
  ]

module _ {A : Type 0} where
  pub select_row-ext :
      (q r : A → Bool) (xs : List A) → ((x : A) → q x ≡ r x) → select_row q xs ≡ select_row r xs
  unfolding select_row
  select_row-ext q r [] h = refl
  select_row-ext q r (x ∷ xs) h = rw (h x, select_row-ext q r xs h)

  select_row-insert_by :
      (q : A → Bool) (before : A → A → Bool) (x : A) (ys : List A)
      → (q x ≡ true → count_where q ys ≡ 0)
      → select_row q (insert_by before x ys) ≡ (if q x then some x else select_row q ys)
  unfolding select_row insert_by count_where
  select_row-insert_by q before x [] h = refl
  select_row-insert_by q before x (y ∷ ys) h = elim (Bool-cases (before y x)) [
    | inl e ↦ (elim (Bool-cases (q x)) [
      | inl f ↦
          rw (e, f)
            (ground (arith, h f, select_row-insert_by q before x ys (λ k. ground (arith, h f))))
      | inr f ↦ rw (e, f) (ground (arith, f, select_row-insert_by q before x ys (λ k. cc)))
    ])
    | inr e ↦ rw e refl
  ]

  only_first :
      (q : A → Bool) (x : A) (xs : List A)
      → count_where q (x ∷ xs) ≤ 1
      → (q x ≡ true → count_where q xs ≡ 0) × (count_where q xs ≤ 1)
  unfolding count_where
  only_first q x xs h = elim (Bool-cases (q x)) [
    | inl e ↦ (λ k. ground (arith, e, h), ground (arith, e, h))
    | inr e ↦ (λ k. cc, ground (arith, e, h))
  ]

  first_or_rest :
      (q : A → Bool) (x : A) (xs ys : List A)
      → select_row q ys ≡ select_row q xs
      → (if q x then some x else select_row q ys) ≡ select_row q (x ∷ xs)
  unfolding select_row
  first_or_rest q x xs ys h = rw h refl

  -- A condition that at most one row meets finds the same row in any order.
  pub select_row-order_by :
      (q : A → Bool) (before : A → A → Bool) (xs : List A)
      → count_where q xs ≤ 1
      → select_row q (order_by before xs) ≡ select_row q xs
  unfolding order_by
  select_row-order_by q before [] h = refl
  select_row-order_by q before (x ∷ xs) h =
      let (first, rest) = only_first q x xs h in
      select_row-insert_by q before x (order_by before xs)
        (λ e. count-order_by q before xs ∙ first e)
      ∙ first_or_rest q x xs (order_by before xs) (select_row-order_by q before xs rest)
