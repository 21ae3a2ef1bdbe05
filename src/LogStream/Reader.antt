-- ===== src/LogStream/Reader.antt =====
-- streamSSELogReader (cmd/brain/job_logs.go): the events do not depend on how a log is read.
use ovek.Common.{
  ◌≡◌, refl, sym, ap, ap₂, ◌∙◌, true, false, List, [], ◌∷◌, ◌++◌, nat_eq, append_assoc, append-nil,
  Bool-cases, inl, inr, flatten,
}
use ovek.Scrubber.{Bytes, is_empty}
use ovek.LogStream.{write_sse_log_events, split_last_newline, stream_sse_log_reader}
use ovek.LogStream.Lines.{lines_from, write_sse_log_events_total}

-- The parts of a text before and after its last newline are the text.
split-append : (text : Bytes) → (split_last_newline text).0 ++ (split_last_newline text).1 ≡ text
unfolding split_last_newline
split-append [] = refl
split-append (c ∷ text) = elim (Bool-cases (is_empty (split_last_newline text).0)) [
  | inl e ↦ (elim (Bool-cases (nat_eq c b'\n')) [ inl f ↦ rw (e, f) | inr f ↦ rw (e, f) ])
  | inr e ↦ rw e (ap (λ rest. c ∷ rest) (split-append text))
]

-- Lines before the last newline end there: what comes after it is a text of its own.
lines-split :
    (line text more : Bytes)
    → is_empty (split_last_newline text).0 ≡ false
    → lines_from line ((split_last_newline text).0 ++ more)
      ≡ lines_from line (split_last_newline text).0 ++ lines_from [] more
unfolding split_last_newline
lines-split line [] more h = cc
lines-split line (c ∷ text) more h = elim (Bool-cases (is_empty (split_last_newline text).0)) [
  | inl e ↦ (elim (Bool-cases (nat_eq c b'\n')) [
    | inl f ↦ rw (e, f, f)
    | inr f ↦ cc (rw (e, f) at h)
  ])
  | inr e ↦ (elim (Bool-cases (nat_eq c b'\n')) [
    | inl f ↦ rw (e, f) (ap (λ rest. line ∷ rest) (lines-split [] text more e))
    | inr f ↦ rw (e, f) (lines-split (line ++ c ∷ []) text more e)
  ])
]

stream-nil : (pending : Bytes) → stream_sse_log_reader pending [] ≡ write_sse_log_events pending
unfolding stream_sse_log_reader
stream-nil pending = refl

stream-wait :
    (pending chunk : Bytes) (chunks : List Bytes)
    → is_empty (split_last_newline (pending ++ chunk)).0 ≡ true
    → stream_sse_log_reader pending (chunk ∷ chunks)
      ≡ stream_sse_log_reader (pending ++ chunk) chunks
unfolding stream_sse_log_reader
stream-wait pending chunk chunks e = rw e

stream-write :
    (pending chunk : Bytes) (chunks : List Bytes)
    → is_empty (split_last_newline (pending ++ chunk)).0 ≡ false
    → stream_sse_log_reader pending (chunk ∷ chunks)
      ≡ write_sse_log_events (split_last_newline (pending ++ chunk)).0
        ++ stream_sse_log_reader (split_last_newline (pending ++ chunk)).1 chunks
unfolding stream_sse_log_reader
stream-write pending chunk chunks e = rw e

stream-lines :
    (pending : Bytes) (chunks : List Bytes)
    → stream_sse_log_reader pending chunks ≡ lines_from [] (pending ++ flatten chunks)
stream-lines pending [] =
    stream-nil pending
    ∙ write_sse_log_events_total pending
    ∙ ap (lines_from []) (sym (append-nil pending))
stream-lines pending (chunk ∷ chunks) =
    let text = pending ++ chunk in
    let before = (split_last_newline text).0 in
    let after = (split_last_newline text).1 in
    elim (Bool-cases (is_empty before)) [
      | inl e ↦
          stream-wait pending chunk chunks e
          ∙ stream-lines text chunks
          ∙ ap (lines_from []) (append_assoc pending chunk (flatten chunks))
      | inr e ↦
          stream-write pending chunk chunks e
          ∙ ap₂ {C = List Bytes} (λ a b. a ++ b) (write_sse_log_events_total before)
              (stream-lines after chunks)
          ∙ sym (lines-split [] text (after ++ flatten chunks) e)
          ∙ ap (lines_from []) (
              sym (append_assoc before after (flatten chunks))
              ∙ ap (λ t. t ++ flatten chunks) (split-append text)
              ∙ append_assoc pending chunk (flatten chunks))
    ]

-- However a log is cut into reads, the stream has the events of the whole log: those that one
-- write of it has, one for each line.
pub stream_unsplit :
    (chunks : List Bytes)
    → (stream_sse_log_reader [] chunks ≡ write_sse_log_events (flatten chunks))
      × (stream_sse_log_reader [] chunks ≡ lines_from [] (flatten chunks))
stream_unsplit chunks = (
  stream-lines [] chunks ∙ sym (write_sse_log_events_total (flatten chunks)),
  stream-lines [] chunks,
)
