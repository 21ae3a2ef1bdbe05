-- ===== src/Scrubber/Keys.antt =====
-- The set of secrets that newSecretScrubber of cmd/brain/secret_scrubber.go collects.
use mathlib.Core.List.{Memᴰ}
use ovek.Common.{
  ◌≤◌, ◌≡◌, refl, sym, ◌↔◌, ◌⊎◌, inl, inr, true, false, ◌||◌, List, [], ◌∷◌, arith, length,
  Bool-cases, ltb,
}
use ovek.Scrubber.{Bytes, min_secret_scrub_length, bytes_eq, has_key, unique_keys}

pub bytes_eq_iff : (s t : Bytes) → (bytes_eq s t ≡ true) ↔ (s ≡ t)
unfolding bytes_eq
bytes_eq_iff [] [] = ground arith
bytes_eq_iff [] (d ∷ t) = ground arith
bytes_eq_iff (c ∷ s) [] = ground arith
bytes_eq_iff (c ∷ s) (d ∷ t) = ground (arith, bytes_eq_iff s t)

mem_of_has_key : (t : Bytes) (keys : List Bytes) → has_key t keys ≡ true → Memᴰ t keys
unfolding has_key
mem_of_has_key t [] h = cc
mem_of_has_key t (k ∷ keys) h = elim (Bool-cases (bytes_eq k t)) [
  | inl e ↦ Memᴰ.head (sym ((bytes_eq_iff k t).0 e))
  | inr e ↦ Memᴰ.tail (mem_of_has_key t keys (rw e at h))
]

-- A secret is long enough to be hidden.
abbrev pub IsScrubbed : Bytes → Type 0
IsScrubbed t = min_secret_scrub_length ≤ length t

unique_keys-skip :
    (keys values : List Bytes) (v : Bytes)
    → (ltb (length v) min_secret_scrub_length || has_key v keys) ≡ true
    → unique_keys keys (v ∷ values) ≡ unique_keys keys values
unfolding unique_keys
unique_keys-skip keys values v e = rw e

unique_keys-take :
    (keys values : List Bytes) (v : Bytes)
    → (ltb (length v) min_secret_scrub_length || has_key v keys) ≡ false
    → unique_keys keys (v ∷ values) ≡ unique_keys (v ∷ keys) values
unfolding unique_keys
unique_keys-take keys values v e = rw e

unique_keys-nil : (keys : List Bytes) → unique_keys keys [] ≡ keys
unfolding unique_keys
unique_keys-nil keys = refl

-- The keys are the values that are long enough, with those that were there before.
pub mem_of_unique_keys :
    (keys values : List Bytes) (t : Bytes)
    → Memᴰ t (unique_keys keys values)
    → Memᴰ t keys ⊎ (Memᴰ t values × IsScrubbed t)
mem_of_unique_keys keys [] t m = inl (rw unique_keys-nil at m)
mem_of_unique_keys keys (v ∷ values) t m =
    elim (Bool-cases (ltb (length v) min_secret_scrub_length || has_key v keys)) [
      | inl e ↦
          later (mem_of_unique_keys keys values t (rw (unique_keys-skip keys values v e) at m))
      | inr e ↦
          taken e
            (mem_of_unique_keys (v ∷ keys) values t (rw (unique_keys-take keys values v e) at m))
    ]
  where
    later :
        Memᴰ t keys ⊎ (Memᴰ t values × IsScrubbed t)
        → Memᴰ t keys ⊎ (Memᴰ t (v ∷ values) × IsScrubbed t)
    later (inl m) = inl m
    later (inr (m, l)) = inr (Memᴰ.tail m, l)

    taken :
        (ltb (length v) min_secret_scrub_length || has_key v keys) ≡ false
        → Memᴰ t (v ∷ keys) ⊎ (Memᴰ t values × IsScrubbed t)
        → Memᴰ t keys ⊎ (Memᴰ t (v ∷ values) × IsScrubbed t)
    taken e (inl (Memᴰ.head p)) = inr (Memᴰ.head p, rw p (ground arith))
    taken e (inl (Memᴰ.tail m)) = inl m
    taken e (inr (m, l)) = inr (Memᴰ.tail m, l)

unique_keys_keeps :
    (keys values : List Bytes) (t : Bytes) → Memᴰ t keys → Memᴰ t (unique_keys keys values)
unique_keys_keeps keys [] t m = rw unique_keys-nil m
unique_keys_keeps keys (v ∷ values) t m =
    elim (Bool-cases (ltb (length v) min_secret_scrub_length || has_key v keys)) [
      | inl e ↦ rw (unique_keys-skip keys values v e) (unique_keys_keeps keys values t m)
      | inr e ↦
          rw (unique_keys-take keys values v e)
            (unique_keys_keeps (v ∷ keys) values t (Memᴰ.tail m))
    ]

known :
    (v : Bytes) (keys : List Bytes)
    → (ltb (length v) min_secret_scrub_length || has_key v keys) ≡ true
    → IsScrubbed v
    → has_key v keys ≡ true
known v keys e l = ground arith

pub unique_keys_covers :
    (keys values : List Bytes) (t : Bytes)
    → Memᴰ t values
    → IsScrubbed t
    → Memᴰ t (unique_keys keys values)
unique_keys_covers keys [] t m l = elim m [ ]
unique_keys_covers keys (v ∷ values) t (Memᴰ.head p) l =
    elim (Bool-cases (ltb (length v) min_secret_scrub_length || has_key v keys)) [
      | inl e ↦ rw (unique_keys-skip keys values v e) (
          unique_keys_keeps keys values t
            (rw p (mem_of_has_key v keys (known v keys e (rw p at l)))))
      | inr e ↦
          rw (unique_keys-take keys values v e)
            (unique_keys_keeps (v ∷ keys) values t (Memᴰ.head p))
    ]
unique_keys_covers keys (v ∷ values) t (Memᴰ.tail m) l =
    elim (Bool-cases (ltb (length v) min_secret_scrub_length || has_key v keys)) [
      | inl e ↦ rw (unique_keys-skip keys values v e) (unique_keys_covers keys values t m l)
      | inr e ↦ rw (unique_keys-take keys values v e) (unique_keys_covers (v ∷ keys) values t m l)
    ]
