-- ===== src/Scrubber/Leaks.antt =====
-- A secret that cannot be confused with the mark does not show in a redacted text.
use ovek.Common.{
  ℕ, ◌≡◌, refl, Bool, true, false, not, ◌&&◌, ◌||◌, List, [], ◌∷◌, ◌++◌, arith, Memᴰ, mem_of_All,
  nat_eq, Bool-cases, inl, inr,
}
use ovek.Scrubber.{Bytes, has_prefix, redacted}
use ovek.Scrubber.Redaction.{Redacts, done, hide, keep}

unfoldable pub has_byte : ℕ → Bytes → Bool
has_byte b [] = false
has_byte b (c ∷ s) = nat_eq c b || has_byte b s

-- strings.Contains(s, t)
unfoldable pub contains : Bytes → Bytes → Bool
contains [] t = has_prefix [] t
contains (c ∷ s) t = has_prefix (c ∷ s) t || contains s t

-- The text holds no '[' and does not begin with a byte of the mark.
unfoldable pub avoids_mark : Bytes → Bool
unfolding has_byte
avoids_mark [] = false
avoids_mark (p ∷ t) = not (has_byte p redacted) && not (has_byte b'[' (p ∷ t))

-- A text without '[' that an output begins with is one that the input begins with.
has_prefix_of_Redacts :
    (secrets : List Bytes) (t s out : Bytes)
    → has_byte b'[' t ≡ false
    → Redacts secrets s out
    → has_prefix out t ≡ true
    → has_prefix s t ≡ true
unfolding has_prefix has_byte
has_prefix_of_Redacts secrets [] s out free r h = refl
has_prefix_of_Redacts secrets (p ∷ t) s out free done h = cc
has_prefix_of_Redacts secrets (p ∷ t) s out free (hide m l e r) h = absurd (ground (arith, h, free))
has_prefix_of_Redacts secrets (p ∷ t) s out free (keep {s = u} {out = v} c none r) h =
    ground (arith, has_prefix_of_Redacts secrets t u v)

-- No place inside the mark begins such a secret.
mark_is_safe :
    (p : ℕ) (t mark out : Bytes)
    → has_byte p mark ≡ false
    → contains out (p ∷ t) ≡ false
    → contains (mark ++ out) (p ∷ t) ≡ false
unfolding contains has_byte has_prefix
mark_is_safe p t [] out h k = k
mark_is_safe p t (c ∷ mark) out h k = ground (arith, mark_is_safe p t mark out)

avoids_mark_parts :
    (p : ℕ) (t : Bytes)
    → avoids_mark (p ∷ t) ≡ true
    → (has_byte p redacted ≡ false) × (has_byte b'[' (p ∷ t) ≡ false)
unfolding avoids_mark
avoids_mark_parts p t h = ground arith

contains_later :
    (c : ℕ) (v t : Bytes)
    → has_prefix (c ∷ v) t ≡ false
    → contains v t ≡ false
    → contains (c ∷ v) t ≡ false
unfolding contains
contains_later c v t h k = rw h k

-- A listed secret that avoids the mark is nowhere in the output.
pub contains-Redacts :
    (secrets : List Bytes) (p : ℕ) (t s out : Bytes)
    → Memᴰ (p ∷ t) secrets
    → avoids_mark (p ∷ t) ≡ true
    → Redacts secrets s out
    → contains out (p ∷ t) ≡ false
contains-Redacts secrets p t s out m h done = unfold contains has_prefix in refl
contains-Redacts secrets p t s out m h (hide {rest = u} {out = v} n l e r) =
    mark_is_safe p t redacted v (avoids_mark_parts p t h).0 (contains-Redacts secrets p t u v m h r)
contains-Redacts secrets p t s out m h (keep {s = u} {out = v} c none r) =
    elim (Bool-cases (has_prefix (c ∷ v) (p ∷ t))) [
      | inl e ↦ cc (
        has_prefix_of_Redacts secrets (p ∷ t) (c ∷ u) (c ∷ v) (avoids_mark_parts p t h).1
            (keep c none r) e,
        mem_of_All (λ w. has_prefix (c ∷ u) w ≡ false) secrets none m,
      )
      | inr e ↦ contains_later c v (p ∷ t) e (contains-Redacts secrets p t u v m h r)
    ]
