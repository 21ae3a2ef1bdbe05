-- ===== src/Store/Sql.antt =====
-- The statements that the program runs, on a table as a list of rows, and results.
use ovek.Common.{
  ℕ, suc, ◌≡◌, ◌⊎◌, inl, inr, refl, ap, String, Bool, true, false, Option, none, some, List, [],
  ◌∷◌, ◌==◌, nat_eq, if◌then◌else◌,
}
use ovek.Store.{Failure, unexpected_rows}

pub data Result {ℓ} (A : Type ℓ) : Type ℓ where
  ok : A → Result A
  err : Failure → Result A

module _ {ℓ κ} {A : Type ℓ} {B : Type κ} where
  infixl 5 ◌>>=◌
  -- A call whose error ends the function, which is returned as it is.
  abbrev pub ◌>>=◌ : Result A → (A → Result B) → Result B
  err failure >>= rest = err failure
  ok value >>= rest = rest value

  -- Inversion of a successful chain.
  pub bind-ok :
      (first : Result A) (rest : A → Result B) {final : B}
      → (first >>= rest) ≡ ok final
      → (value : A) × (first ≡ ok value) × (rest value ≡ ok final)
  bind-ok (err failure) rest chain = cc
  bind-ok (ok value) rest chain = (value, refl, chain)

infixl 5 ◌>>◌
abbrev pub ◌>>◌ {κ} : {B : Type κ} → Result (Unit {0}) → Result B → Result B
check >> rest = check >>= λ _. rest

pub then-ok {κ} :
    {B : Type κ} (check : Result (Unit {0})) (rest : Result B) {final : B}
    → (check >> rest) ≡ ok final
    → rest ≡ ok final
then-ok (err failure) rest chain = cc
then-ok (ok value) rest chain = chain

-- requireUpdatedRow (cmd/brain/worker.go)
unfoldable pub require_updated_row : ℕ → Result (Unit {0})
require_updated_row rows_affected =
    if nat_eq rows_affected 1 then ok tt else err (unexpected_rows rows_affected)

module _ {A : Type 0} where
  -- SELECT … WHERE
  unfoldable pub select : (A → Bool) → List A → List A
  select p [] = []
  select p (x ∷ xs) = let rest = select p xs in if p x then x ∷ rest else rest

  -- SELECT … WHERE … of at most one row
  unfoldable pub select_row : (A → Bool) → List A → Option A
  select_row p [] = none
  select_row p (x ∷ xs) = if p x then some x else select_row p xs

  -- SELECT COUNT(1) … WHERE
  unfoldable pub count_where : (A → Bool) → List A → ℕ
  count_where p [] = 0
  count_where p (x ∷ xs) = let rest = count_where p xs in if p x then suc rest else rest

  -- UPDATE … SET … WHERE
  unfoldable pub update_where : (A → Bool) → (A → A) → List A → List A
  update_where p f [] = []
  update_where p f (x ∷ xs) = (if p x then f x else x) ∷ update_where p f xs

  -- An UPDATE that must meet one row, with requireUpdatedRow after it.
  unfoldable pub update_row : (A → Bool) → (A → A) → List A → Result (List A)
  update_row p f xs = do require_updated_row (count_where p xs); ok (update_where p f xs)

  -- DELETE … WHERE
  unfoldable pub delete_where : (A → Bool) → List A → List A
  delete_where p [] = []
  delete_where p (x ∷ xs) = let rest = delete_where p xs in if p x then rest else x ∷ rest

  -- Some row meets the condition.
  unfoldable pub exists_where : (A → Bool) → List A → Bool
  exists_where p [] = false
  exists_where p (x ∷ xs) = if p x then true else exists_where p xs

  unfoldable pub insert_by : (A → A → Bool) → A → List A → List A
  insert_by before x [] = x ∷ []
  insert_by before x (y ∷ ys) =
      let rest = insert_by before x ys in if before y x then y ∷ rest else x ∷ y ∷ ys

  -- ORDER BY, where rows that compare equal stay in the order of the table.
  unfoldable pub order_by : (A → A → Bool) → List A → List A
  order_by before [] = []
  order_by before (x ∷ xs) = insert_by before x (order_by before xs)

  -- LIMIT 1
  unfoldable pub first_row : List A → Option A
  first_row [] = none
  first_row (x ∷ xs) = some x

-- nullableString (cmd/brain/worker.go)
unfoldable pub nullable_string : String → Option String
nullable_string value = if value == "" then none else some value

pub ok_inj {ℓ} : {A : Type ℓ} (a b : A) → ok a ≡ ok b → a ≡ b
ok_inj {A} a b h = ap value h
  where
    value : Result A → A
    value (ok x) = x
    value (err e) = a

pub Result-cases {ℓ} :
    {A : Type ℓ} (r : Result A)
    → ((failure : Failure) × (r ≡ err failure)) ⊎ ((value : A) × (r ≡ ok value))
Result-cases (err failure) = inl (failure, refl)
Result-cases (ok value) = inr (value, refl)
