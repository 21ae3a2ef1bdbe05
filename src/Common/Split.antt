-- ===== src/Common/Split.antt =====
-- strings.Split at a separator of one character, and texts put together.
use Prim.Native.Nat.{ℕ}
use Prim.Native.Char.{Char, code}
use Prim.Native.String.{String, [] as empty, ◌∷◌ as ◌◂◌}
use mathlib.Core.Path.{◌≡◌, refl, ap, ◌∙◌}
use mathlib.Core.Logic.{inl, inr}
use mathlib.Core.Bool.{Bool, true, false, not, ◌&&◌}
use mathlib.Core.List.{List, [], ◌∷◌}
use text.Mathlib.TextLemmas.{nil-append, cons-append}
use ovek.Common.Tests.{nat_eq, if◌then◌else◌, Bool-cases}
use ovek.Common.Text.{text_append}

abbrev pub cons_first : Char → List String → List String
cons_first c [] = (c ◂ "") ∷ []
cons_first c (p ∷ parts) = (c ◂ p) ∷ parts

unfoldable pub split_on : ℕ → String → List String
split_on separator empty = "" ∷ []
split_on separator (c ◂ s) =
    let rest = split_on separator s in
    if nat_eq (code c) separator then "" ∷ rest else cons_first c rest

-- The character is not in the text.
unfoldable pub lacks : ℕ → String → Bool
lacks separator empty = true
lacks separator (c ◂ s) = not (nat_eq (code c) separator) && lacks separator s

pub append-empty : (t : String) → text_append empty t ≡ t
unfolding text_append
append-empty t = nil-append t

pub append-char : (c : Char) (s t : String) → text_append (c ◂ s) t ≡ c ◂ text_append s t
unfolding text_append
append-char c s t = cons-append c s t

lacks-split :
    (separator : ℕ) (c : Char) (s : String)
    → lacks separator (c ◂ s) ≡ true
    → (nat_eq (code c) separator ≡ false) × (lacks separator s ≡ true)
unfolding lacks
lacks-split separator c s h = elim (Bool-cases (nat_eq (code c) separator)) [
  | inl e ↦ cc (rw e at h)
  | inr e ↦ (e, rw e at h)
]

split-char :
    (separator : ℕ) (c : Char) (s : String)
    → nat_eq (code c) separator ≡ false
    → split_on separator (c ◂ s) ≡ cons_first c (split_on separator s)
unfolding split_on
split-char separator c s e = rw e

split-separator :
    (separator : Char) (t : String)
    → nat_eq (code separator) (code separator) ≡ true
    → split_on (code separator) (text_append (separator ◂ "") t) ≡ "" ∷ split_on (code separator) t
unfolding split_on
split-separator separator t e =
    ap (split_on (code separator))
      (append-char separator empty t ∙ ap (λ s. separator ◂ s) (append-empty t))
    ∙ rw e

-- A text without the separator is one part.
pub split-lacks :
    (separator : ℕ) (s : String) → lacks separator s ≡ true → split_on separator s ≡ s ∷ []
split-lacks separator empty h = unfold split_on in refl
split-lacks separator (c ◂ s) h =
    let (e, rest) = lacks-split separator c s h in
    split-char separator c s e ∙ ap (cons_first c) (split-lacks separator s rest)

-- The part before a separator is the first one.
pub split-append :
    (separator : Char) (s t : String)
    → nat_eq (code separator) (code separator) ≡ true
    → lacks (code separator) s ≡ true
    → split_on (code separator) (text_append s (text_append (separator ◂ "") t))
      ≡ s ∷ split_on (code separator) t
split-append separator empty t r h =
    ap (split_on (code separator)) (append-empty (text_append (separator ◂ "") t))
    ∙ split-separator separator t r
split-append separator (c ◂ s) t r h =
    let (e, rest) = lacks-split (code separator) c s h in
    ap (split_on (code separator)) (append-char c s (text_append (separator ◂ "") t))
    ∙ split-char (code separator) c (text_append s (text_append (separator ◂ "") t)) e
    ∙ ap (cons_first c) (split-append separator s t r rest)
