-- ===== src/Scrubber/Build.antt =====
-- newSecretScrubber of cmd/brain/secret_scrubber.go: the scrubber that it builds is in order.
use ovek.Common.{
  ℕ, ◌≤◌, ◌≡◌, refl, ◌⊎◌, inl, inr, ◌↔◌, true, false, List, [], ◌∷◌, arith, length, Bool-cases, ltb,
  if◌then◌else◌, Memᴰ, All-of_mem, mem_of_All, mem_swap, mem_cons_map,
}
use ovek.Scrubber.{
  Bytes, unique_keys, max_length, insert_longest_first, sort_longest_first, new_secret_scrubber,
}
use ovek.Scrubber.Redaction.{IsFilled, IsLongestFirst}
use ovek.Scrubber.Keys.{IsScrubbed, mem_of_unique_keys, unique_keys_covers}
use ovek.Scrubber.Streaming.{IsValid}

-- Go's `range` over a map visits the keys of the map and no others.
pub record WalksKeys (range_order : List Bytes → List Bytes) : Type 0 where
  pub only : (keys : List Bytes) (t : Bytes) → Memᴰ t (range_order keys) → Memᴰ t keys
  pub every : (keys : List Bytes) (t : Bytes) → Memᴰ t keys → Memᴰ t (range_order keys)

insert-miss :
    (v u : Bytes) (us : List Bytes)
    → ltb (length v) (length u) ≡ false
    → insert_longest_first v (u ∷ us) ≡ v ∷ u ∷ us
unfolding insert_longest_first
insert-miss v u us e = rw e

insert-hit :
    (v u : Bytes) (us : List Bytes)
    → ltb (length v) (length u) ≡ true
    → insert_longest_first v (u ∷ us) ≡ u ∷ insert_longest_first v us
unfolding insert_longest_first
insert-hit v u us e = rw e

insert-nil : (v : Bytes) → insert_longest_first v [] ≡ v ∷ []
unfolding insert_longest_first
insert-nil v = refl

mem_of_insert :
    (v t : Bytes) (us : List Bytes) → Memᴰ t (insert_longest_first v us) ↔ Memᴰ t (v ∷ us)
mem_of_insert v t [] = rw insert-nil ((λ m. m), (λ m. m))
mem_of_insert v t (u ∷ us) = elim (Bool-cases (ltb (length v) (length u))) [
  | inl e ↦
      let ih = mem_of_insert v t us in
      rw (insert-hit v u us e) (
        (λ m. mem_swap t u v us (mem_cons_map t u (insert_longest_first v us) (v ∷ us) ih.0 m)),
        (λ m. mem_cons_map t u (v ∷ us) (insert_longest_first v us) ih.1 (mem_swap t v u us m)),
      )
  | inr e ↦ rw (insert-miss v u us e) ((λ m. m), (λ m. m))
]

sort-nil : sort_longest_first [] ≡ []
unfolding sort_longest_first
sort-nil = refl

sort-cons :
    (v : Bytes) (vs : List Bytes)
    → sort_longest_first (v ∷ vs) ≡ insert_longest_first v (sort_longest_first vs)
unfolding sort_longest_first
sort-cons v vs = refl

mem_of_sort : (t : Bytes) (vs : List Bytes) → Memᴰ t (sort_longest_first vs) ↔ Memᴰ t vs
mem_of_sort t [] = rw sort-nil ((λ m. m), (λ m. m))
mem_of_sort t (v ∷ vs) =
    let ih = mem_of_sort t vs in
    let there = mem_of_insert v t (sort_longest_first vs) in
    rw sort-cons (
      (λ m. mem_cons_map t v (sort_longest_first vs) vs ih.0 (there.0 m)),
      (λ m. there.1 (mem_cons_map t v vs (sort_longest_first vs) ih.1 m)),
    )

insert-IsLongestFirst :
    (v : Bytes) (us : List Bytes) → IsLongestFirst us → IsLongestFirst (insert_longest_first v us)
insert-IsLongestFirst v [] h = rw insert-nil (tt, tt)
insert-IsLongestFirst v (u ∷ us) h = elim (Bool-cases (ltb (length v) (length u))) [
  | inl e ↦ rw (insert-hit v u us e) (
    All-of_mem (λ t. length t ≤ length u) (insert_longest_first v us)
        (λ t m.
          mem_of_All (λ t. length t ≤ length u) (v ∷ us) (ground arith, h.0)
            ((mem_of_insert v t us).0 m)),
    insert-IsLongestFirst v us h.1,
  )
  | inr e ↦ rw (insert-miss v u us e) (
    (
      ground arith,
      All-of_mem (λ t. length t ≤ length v) us
          (λ t m. below t (mem_of_All (λ t. length t ≤ length u) us h.0 m) (ground arith)),
    ),
    h,
  )
]
  where
    below : (t : Bytes) → length t ≤ length u → length u ≤ length v → length t ≤ length v
    below t p q = omega arith

sort-IsLongestFirst : (vs : List Bytes) → IsLongestFirst (sort_longest_first vs)
sort-IsLongestFirst [] = rw sort-nil tt
sort-IsLongestFirst (v ∷ vs) =
    rw sort-cons (insert-IsLongestFirst v (sort_longest_first vs) (sort-IsLongestFirst vs))

max_length-le : (n : ℕ) (vs : List Bytes) → n ≤ max_length n vs
unfolding max_length
max_length-le n [] = omega arith
max_length-le n (v ∷ vs) = ground (arith, max_length-le (length v) vs, max_length-le n vs)

max_length_bounds : (n : ℕ) (vs : List Bytes) (t : Bytes) → Memᴰ t vs → length t ≤ max_length n vs
unfolding max_length
max_length_bounds n [] t m = elim m [ ]
max_length_bounds n (v ∷ vs) t (Memᴰ.head p) =
    rw p (ground (arith, max_length-le (length v) vs, max_length-le n vs))
max_length_bounds n (v ∷ vs) t (Memᴰ.tail m) =
    max_length_bounds (if ltb n (length v) then length v else n) vs t m

module _ (range_order : List Bytes → List Bytes) (walks : WalksKeys range_order)
    (values : List Bytes) where
  -- The scrubber's secrets are the given values of four bytes or more.
  pub mem_of_new_secret_scrubber :
      (t : Bytes)
      → Memᴰ t (new_secret_scrubber range_order values).values ↔ (Memᴰ t values × IsScrubbed t)
  unfolding new_secret_scrubber
  mem_of_new_secret_scrubber t =
      let walked = range_order (unique_keys [] values) in
      (
        (λ m. new (
            mem_of_unique_keys [] values t
              (walks.only (unique_keys [] values) t ((mem_of_sort t walked).0 m)))),
        (λ (m, l).
            (mem_of_sort t walked).1
              (walks.every (unique_keys [] values) t (unique_keys_covers [] values t m l))),
      )
    where
      new : Memᴰ t [] ⊎ (Memᴰ t values × IsScrubbed t) → Memᴰ t values × IsScrubbed t
      new (inl m) = elim m [ ]
      new (inr r) = r

  pub new_secret_scrubber-IsValid : IsValid (new_secret_scrubber range_order values)
  new_secret_scrubber-IsValid = record {
    filled =
        All-of_mem IsFilled (new_secret_scrubber range_order values).values
          (λ t m. filled t ((mem_of_new_secret_scrubber t).0 m).1);
    longest_first = sorted;
    fits =
        All-of_mem (λ t. length t ≤ (new_secret_scrubber range_order values).max_len)
          (new_secret_scrubber range_order values).values bounded;
  }
    where
      filled : (t : Bytes) → IsScrubbed t → IsFilled t
      filled t h = omega arith

      sorted : IsLongestFirst (new_secret_scrubber range_order values).values
      sorted =
          unfold new_secret_scrubber in sort-IsLongestFirst (range_order (unique_keys [] values))

      bounded :
          (t : Bytes)
          → Memᴰ t (new_secret_scrubber range_order values).values
          → length t ≤ (new_secret_scrubber range_order values).max_len
      bounded t m =
          unfold new_secret_scrubber in
          max_length_bounds 0 (range_order (unique_keys [] values)) t
            ((mem_of_sort t (range_order (unique_keys [] values))).0 m)
