-- ===== src/LogStream/Lines.antt =====
-- writeSSELogEvents (cmd/brain/job_logs.go) writes one event for each line.
use ovek.Common.{
  ℕ, zero, suc, ◌≤◌, ◌≡◌, refl, sym, ap, ◌∙◌, Bool, true, false, List, [], ◌∷◌, ◌++◌, length,
  nat_eq, if◌then◌else◌, arith, append_assoc, append-nil, Bool-cases, inl, inr,
}
use ovek.Scrubber.{Bytes, is_empty}
use ovek.LogStream.{cut_line, event_loop, write_sse_log_events}

-- The lines of a text, of which the last may lack its newline; `line` is the one begun.
abbrev pub lines_from : Bytes → Bytes → List Bytes
lines_from line [] = if is_empty line then [] else line ∷ []
lines_from line (c ∷ text) =
    if nat_eq c b'\n' then line ∷ lines_from [] text else lines_from (line ++ c ∷ []) text

-- What is left of a text after its first line.
abbrev after_cut : Bytes → Bytes × Bytes × Bool → List Bytes
after_cut line (first, rest, true) = (line ++ first) ∷ lines_from [] rest
after_cut line (first, rest, false) = if is_empty (line ++ first) then [] else (line ++ first) ∷ []

lines-cut : (line text : Bytes) → lines_from line text ≡ after_cut line (cut_line text)
unfolding cut_line
lines-cut line [] = rw append-nil refl
lines-cut line (c ∷ text) = elim (Bool-cases (nat_eq c b'\n')) [
  | inl e ↦ rw (e, append-nil)
  | inr e ↦ rw e (lines-cut (line ++ c ∷ []) text ∙ shift (cut_line text))
]
  where
    shift :
        (p : Bytes × Bytes × Bool)
        → after_cut (line ++ c ∷ []) p ≡ after_cut line (c ∷ p.0, p.1, p.2)
    shift (first, rest, true) = rw (append_assoc line (c ∷ []) first) refl
    shift (first, rest, false) = rw (append_assoc line (c ∷ []) first) refl

cut-shorter : (text : Bytes) (n : ℕ) → length text ≤ n → length (cut_line text).1 ≤ n
unfolding cut_line
cut-shorter [] n h = h
cut-shorter (c ∷ text) n h = elim (Bool-cases (nat_eq c b'\n')) [
  | inl e ↦ rw e (omega arith)
  | inr e ↦ rw e (cut-shorter text n (omega arith))
]

loop-newline :
    (fuel c : ℕ) (text : Bytes)
    → nat_eq c b'\n' ≡ true
    → event_loop (suc fuel) (c ∷ text) ≡ [] ∷ event_loop fuel text
unfolding event_loop cut_line
loop-newline fuel c text e = rw e

loop-other :
    (fuel c : ℕ) (text : Bytes)
    → nat_eq c b'\n' ≡ false
    → event_loop (suc fuel) (c ∷ text) ≡ (
        if (cut_line text).2
        then (c ∷ (cut_line text).0) ∷ event_loop fuel (cut_line text).1
        else (c ∷ (cut_line text).0) ∷ [])
unfolding event_loop cut_line
loop-other fuel c text e = rw e

loop-nil : (fuel : ℕ) → event_loop fuel [] ≡ []
unfolding event_loop
loop-nil fuel = elim fuel as (λ n. event_loop n [] ≡ []) [ zero ↦ refl | suc n ↦ refl ]

event_loop-lines :
    (fuel : ℕ) (text : Bytes) → length text ≤ fuel → event_loop fuel text ≡ lines_from [] text
event_loop-lines fuel [] h = loop-nil fuel
event_loop-lines zero (c ∷ text) h = absurd (omega arith)
event_loop-lines (suc fuel) (c ∷ text) h = elim (Bool-cases (nat_eq c b'\n')) [
  | inl e ↦ rw e (
      loop-newline fuel c text e
      ∙ ap (λ rest. [] ∷ rest) (event_loop-lines fuel text (omega arith)))
  | inr e ↦ rw e (
      loop-other fuel c text e
      ∙ finish (cut_line text)
          (event_loop-lines fuel (cut_line text).1 (cut-shorter text fuel (omega arith)))
      ∙ sym (lines-cut (c ∷ []) text))
]
  where
    finish :
        (p : Bytes × Bytes × Bool)
        → event_loop fuel p.1 ≡ lines_from [] p.1
        → (if p.2 then (c ∷ p.0) ∷ event_loop fuel p.1 else (c ∷ p.0) ∷ []) ≡ after_cut (c ∷ []) p
    finish (first, rest, true) ih = ap (λ others. (c ∷ first) ∷ others) ih
    finish (first, rest, false) ih = refl

-- The loop ends on every log, and it writes one event for each line, also for a last one that lacks
-- its newline.
pub write_sse_log_events_total : (logs : Bytes) → write_sse_log_events logs ≡ lines_from [] logs
unfolding write_sse_log_events
write_sse_log_events_total logs = event_loop-lines (length logs) logs (omega arith)
