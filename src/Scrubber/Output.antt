-- ===== src/Scrubber/Output.antt =====
-- Redaction is a function of its input and its set of secrets, and what it leaves out.
use ovek.Common.{
  ◌≤◌, ◌<◌, ◌≡◌, ◌≢◌, refl, sym, ap, ◌∙◌, true, false, List, [], ◌∷◌, ◌++◌, arith, length, Memᴰ,
  All-of_mem, mem_of_All, subst,
}
use ovek.Scrubber.{Bytes, has_prefix, drop, redacted}
use ovek.Scrubber.Redaction.{IsLongest, NoneBegins, Redacts, done, hide, keep}

-- Two prefixes of one text that are as long are the same.
prefix_unique :
    (s m n : Bytes) → has_prefix s m ≡ true → has_prefix s n ≡ true → length m ≡ length n → m ≡ n
unfolding has_prefix
prefix_unique s [] [] h k e = refl
prefix_unique s [] (q ∷ n) h k e = absurd (omega arith)
prefix_unique s (p ∷ m) [] h k e = absurd (omega arith)
prefix_unique [] (p ∷ m) (q ∷ n) h k e = cc
prefix_unique (c ∷ s) (p ∷ m) (q ∷ n) h k e = ground (arith, prefix_unique s m n)

drop-length-append : (m rest : Bytes) → drop (length m) (m ++ rest) ≡ rest
drop-length-append [] rest = refl
drop-length-append (c ∷ m) rest = drop-length-append m rest

module _ (secrets : List Bytes) where
  longest_unique : (s m n : Bytes) → IsLongest secrets s m → IsLongest secrets s n → m ≡ n
  longest_unique s m n l k = prefix_unique s m n l.begins k.begins (
      omega (
        arith,
        mem_of_All (λ t. has_prefix s t ≡ true → length t ≤ length m) secrets l.longest k.listed
            k.begins,
        mem_of_All (λ t. has_prefix s t ≡ true → length t ≤ length n) secrets k.longest l.listed
            l.begins,
      ))

  rest_of_split : (s m rest : Bytes) → s ≡ m ++ rest → drop (length m) s ≡ rest
  rest_of_split s m rest e = ap (drop (length m)) e ∙ drop-length-append m rest

  no_match : (s m : Bytes) → NoneBegins secrets s → IsLongest secrets s m → ⊥
  no_match s m none l =
      cc (mem_of_All (λ t. has_prefix s t ≡ false) secrets none l.listed, l.begins)

  not_nil : (m rest : Bytes) → 0 < length m → [] ≢ m ++ rest
  not_nil [] rest h e = absurd (omega arith)
  not_nil (c ∷ m) rest h e = cc

  -- The output is determined by the input.
  pub Redacts-unique : (s a b : Bytes) → Redacts secrets s a → Redacts secrets s b → a ≡ b
  Redacts-unique s a b done done = refl
  Redacts-unique s a b done (hide m l e r) = absurd (not_nil m _ l.filled e)
  Redacts-unique s a b (hide m l e r) done = absurd (not_nil m _ l.filled e)
  Redacts-unique s a b (hide {rest = u} {out = x} m l e r) (hide {rest = v} {out = y} n k f q) =
      ap (λ w. redacted ++ w)
        (Redacts-unique u x y r (
          subst (λ w. Redacts secrets w y)
            (sym (
              sym (rest_of_split s m u e)
              ∙ ap (λ (w : Bytes). drop (length w) s) (longest_unique s m n l k)
              ∙ rest_of_split s n v f))
            q))
  Redacts-unique s a b (hide m l e r) (keep c none q) = absurd (no_match _ m none l)
  Redacts-unique s a b (keep c none q) (hide m l e r) = absurd (no_match _ m none l)
  Redacts-unique s a b (keep {s = u} {out = x} c none r) (keep {out = y} d other q) =
      ap (λ w. c ∷ w) (Redacts-unique u x y r q)

-- Only the set of secrets matters.
module _ (ks ls : List Bytes) (to : (t : Bytes) → Memᴰ t ks → Memᴰ t ls)
    (from : (t : Bytes) → Memᴰ t ls → Memᴰ t ks) where
  pub Redacts-same_keys : (s out : Bytes) → Redacts ks s out → Redacts ls s out
  Redacts-same_keys s out done = done
  Redacts-same_keys s out (hide {rest = rest} {out = after} m l e r) =
      hide m
        (record {
          listed = to m l.listed;
          filled = l.filled;
          begins = l.begins;
          longest =
              All-of_mem (λ t. has_prefix s t ≡ true → length t ≤ length m) ls
                (λ t h.
                  mem_of_All (λ t. has_prefix s t ≡ true → length t ≤ length m) ks l.longest
                    (from t h));
        })
        e (Redacts-same_keys rest after r)
  Redacts-same_keys s out (keep {s = rest} {out = after} c none r) =
      keep c
        (All-of_mem (λ t. has_prefix (c ∷ rest) t ≡ false) ls
          (λ t h. mem_of_All (λ t. has_prefix (c ∷ rest) t ≡ false) ks none (from t h)))
        (Redacts-same_keys rest after r)
