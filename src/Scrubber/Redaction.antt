-- ===== src/Scrubber/Redaction.antt =====
-- What redaction means, independently of the writer's buffering, and that the first match of the
-- scrubber's list is the longest.
use mathlib.Core.List.{Memᴰ}
use ovek.Common.{
  ℕ, zero, suc, ◌≤◌, ◌<◌, ◌≡◌, refl, ap, ◌⊎◌, inl, inr, true, false, ◌&&◌, List, [], ◌∷◌, ◌++◌,
  arith, length, All, All-map_imp, Bool-cases, nat_eq,
}
use ovek.Scrubber.{Bytes, has_prefix, first_match, drop, redacted}

-- `m` is the longest secret that `s` begins with.
pub record IsLongest (secrets : List Bytes) (s m : Bytes) : Type 0 where
  pub listed : Memᴰ m secrets
  pub filled : 0 < length m
  pub begins : has_prefix s m ≡ true
  pub longest : All (λ t. has_prefix s t ≡ true → length t ≤ length m) secrets

abbrev pub NoneBegins : List Bytes → Bytes → Type 0
NoneBegins secrets s = All (λ t. has_prefix s t ≡ false) secrets

-- Left to right, the longest secret at a place becomes the mark; any other byte stays.
pub data Redacts (secrets : List Bytes) : Bytes → Bytes → Type 0 where
  done : Redacts secrets [] []
  hide :
      {s rest out : Bytes} (m : Bytes)
      → IsLongest secrets s m
      → s ≡ m ++ rest
      → Redacts secrets rest out
      → Redacts secrets s (redacted ++ out)
  keep :
      {s out : Bytes} (c : ℕ)
      → NoneBegins secrets (c ∷ s)
      → Redacts secrets s out
      → Redacts secrets (c ∷ s) (c ∷ out)

abbrev pub IsFilled : Bytes → Type 0
IsFilled t = 0 < length t

abbrev pub IsLongestFirst : List Bytes → Type 0
IsLongestFirst [] = Unit
IsLongestFirst (t ∷ ts) = All (λ u. length u ≤ length t) ts × IsLongestFirst ts

pub has_prefix-split : (s m : Bytes) → has_prefix s m ≡ true → s ≡ m ++ drop (length m) s
unfolding has_prefix
has_prefix-split s [] h = refl
has_prefix-split [] (p ∷ ps) h = cc
has_prefix-split (c ∷ s) (p ∷ ps) h = ground (arith, has_prefix-split s ps)

pub has_prefix-length : (s m : Bytes) → has_prefix s m ≡ true → length m ≤ length s
unfolding has_prefix
has_prefix-length s [] h = omega arith
has_prefix-length [] (p ∷ ps) h = cc
has_prefix-length (c ∷ s) (p ∷ ps) h = ground (arith, has_prefix-length s ps)

-- What follows a long enough text does not change what the text begins with.
pub has_prefix-append :
    (s rest t : Bytes) → length t ≤ length s → has_prefix (s ++ rest) t ≡ has_prefix s t
unfolding has_prefix
has_prefix-append s rest [] h = refl
has_prefix-append [] rest (p ∷ ps) h = absurd (omega arith)
has_prefix-append (c ∷ s) rest (p ∷ ps) h =
    ap (λ b. nat_eq c p && b) (has_prefix-append s rest ps (omega arith))

pub drop-append : (n : ℕ) (s rest : Bytes) → n ≤ length s → drop n (s ++ rest) ≡ drop n s ++ rest
drop-append zero s rest h = refl
drop-append (suc n) [] rest h = absurd (omega arith)
drop-append (suc n) (c ∷ s) rest h = drop-append n s rest (omega arith)

skip :
    {s m t : Bytes} {ts : List Bytes}
    → has_prefix s t ≡ false
    → ((m ≡ []) × NoneBegins ts s) ⊎ IsLongest ts s m
    → ((m ≡ []) × NoneBegins (t ∷ ts) s) ⊎ IsLongest (t ∷ ts) s m
skip e (inl (same, rest)) = inl (same, (e, rest))
skip e (inr l) = inr (record {
  listed = Memᴰ.tail l.listed;
  filled = l.filled;
  begins = l.begins;
  longest = (λ p. cc, l.longest);
})

first_match-hit :
    (s t : Bytes) (ts : List Bytes) → has_prefix s t ≡ true → first_match (t ∷ ts) s ≡ t
unfolding first_match
first_match-hit s t ts e = rw e

first_match-miss :
    (s t : Bytes) (ts : List Bytes)
    → has_prefix s t ≡ false
    → first_match (t ∷ ts) s ≡ first_match ts s
unfolding first_match
first_match-miss s t ts e = rw e

first_match-nil : (s : Bytes) → first_match [] s ≡ []
unfolding first_match
first_match-nil s = refl

-- In a list sorted by length the first match is the longest.
pub first_match-cases :
    (secrets : List Bytes) (s : Bytes)
    → IsLongestFirst secrets
    → All IsFilled secrets
    → ((first_match secrets s ≡ []) × NoneBegins secrets s)
      ⊎ IsLongest secrets s (first_match secrets s)
first_match-cases [] s sorted filled = inl (first_match-nil s, tt)
first_match-cases (t ∷ ts) s sorted filled = elim (Bool-cases (has_prefix s t)) [
  | inl e ↦ rw (first_match-hit s t ts e) (
      inr (record {
        listed = Memᴰ.head refl;
        filled = filled.0;
        begins = e;
        longest = (λ _. omega arith, All-map_imp ts (λ u le _. le) sorted.0);
      }))
  | inr e ↦ rw (first_match-miss s t ts e) (skip e (first_match-cases ts s sorted.1 filled.1))
]
