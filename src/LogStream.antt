-- ===== src/LogStream.antt =====
-- Server-sent events of a log: cmd/brain/job_logs.go. A client that has gone, whose write fails, is
-- left out: each function is the list of events that it writes.
pub mod Lines
pub mod Reader
pub mod Follow
use ovek.Common.{
  ℕ, zero, suc, Bool, true, false, ◌≤◌, List, [], ◌∷◌, ◌++◌, Option, none, some, length, ltb,
  nat_eq, if◌then◌else◌,
}
use ovek.Scrubber.{Bytes, drop, is_empty}

-- bytes.Cut(logs, "\n")
unfoldable pub cut_line : Bytes → Bytes × Bytes × Bool
cut_line [] = ([], [], false)
cut_line (c ∷ logs) =
    let (line, rest, found) = cut_line logs in
    if nat_eq c b'\n' then ([], logs, true) else (c ∷ line, rest, found)

-- The loop of writeSSELogEvents, on fuel: the lines of its events.
unfoldable pub event_loop : ℕ → Bytes → List Bytes
event_loop fuel [] = []
event_loop zero (c ∷ logs) = []
event_loop (suc fuel) (c ∷ logs) =
    let (line, rest, found_newline) = cut_line (c ∷ logs) in
    let others = event_loop fuel rest in if found_newline then line ∷ others else line ∷ []

unfoldable pub write_sse_log_events : Bytes → List Bytes
write_sse_log_events logs = event_loop (length logs) logs

-- pending[:lastNewline+1] and pending[lastNewline+1:]; the first is empty if there is no newline.
unfoldable pub split_last_newline : Bytes → Bytes × Bytes
split_last_newline [] = ([], [])
split_last_newline (c ∷ pending) =
    let (before, after) = split_last_newline pending in
    if is_empty before
    then (if nat_eq c b'\n' then (c ∷ [], pending) else ([], c ∷ pending))
    else (c ∷ before, after)

-- streamSSELogReader: the reads up to the end of the file, in order.
unfoldable pub stream_sse_log_reader : Bytes → List Bytes → List Bytes
stream_sse_log_reader pending [] = write_sse_log_events pending
stream_sse_log_reader pending (chunk ∷ chunks) =
    let (before, after) = split_last_newline (pending ++ chunk) in
    let waiting = stream_sse_log_reader (pending ++ chunk) chunks in
    let others = stream_sse_log_reader after chunks in
    if is_empty before then waiting else write_sse_log_events before ++ others

-- readJobLogDelta, of a file that may be missing: the new bytes and the next offset.
unfoldable pub read_job_log_delta : Option Bytes → ℕ → Bytes × ℕ
read_job_log_delta none offset = ([], offset)
read_job_log_delta (some logs) offset =
    (drop (if ltb (length logs) offset then 0 else offset) logs, length logs)
