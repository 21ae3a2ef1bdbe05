-- ===== src/LogStream/Follow.antt =====
-- followJobLogStream (cmd/brain/job_logs.go): the polls of a running job's log. Each poll has what
-- the loop reads: the job's status, the path of its log and the file there, if there is one. A
-- client that goes away, or a read that fails, is a list of polls that stops.
use ovek.Common.{
  ℕ, ◌+◌, ◌≡◌, refl, ap, ◌∙◌, Bool, true, false, ◌||◌, List, [], ◌∷◌, ◌++◌, map, Option, some,
  length, String, ltb, if◌then◌else◌, arith, ◌==◌, eq_refl, flatten, length-append,
}
use ovek.Scrubber.{Bytes, drop}
use ovek.Store.{JobStatus, job_status_eq}
use ovek.LogStream.{write_sse_log_events, read_job_log_delta}
use ovek.LogStream.Lines.{lines_from, write_sse_log_events_total}

pub record Poll : Type 0 where
  status : JobStatus
  log_path : String
  file : Option Bytes

unfoldable pub is_terminal_job_status : JobStatus → Bool
is_terminal_job_status status =
    job_status_eq status JobStatus.succeeded || job_status_eq status JobStatus.failed

-- The loop: what it reads at each poll.
unfoldable pub polled_logs : String → ℕ → List Poll → List Bytes
polled_logs log_path offset [] = []
polled_logs log_path offset (poll ∷ polls) =
    let start = if poll.log_path == log_path then offset else 0 in
    let (logs, next_offset) = read_job_log_delta poll.file start in
    let others = polled_logs poll.log_path next_offset polls in
    logs ∷ (if is_terminal_job_status poll.status then [] else others)

unfoldable pub follow_job_log_stream : String → ℕ → List Poll → List Bytes
follow_job_log_stream log_path offset polls =
    flatten (map write_sse_log_events (polled_logs log_path offset polls))

-- The polls of a log at one path that grows by chunks while its job runs, by one more at the poll
-- that finds the job ended, and anything after it.
abbrev pub growing : String → Bytes → List Bytes → Bytes → JobStatus → List Poll → List Poll
growing path logs [] last end later =
    record { status = end; log_path = path; file = some (logs ++ last) } ∷ later
growing path logs (chunk ∷ chunks) last end later =
    record { status = JobStatus.running; log_path = path; file = some (logs ++ chunk) }
    ∷ growing path (logs ++ chunk) chunks last end later

drop-length : (s more : Bytes) → drop (length s) (s ++ more) ≡ more
drop-length [] more = refl
drop-length (c ∷ s) more = drop-length s more

not_ltb : (a b : ℕ) → ltb (a + b) a ≡ false
not_ltb a b = ground arith

read_delta-grown :
    (logs more : Bytes)
    → read_job_log_delta (some (logs ++ more)) (length logs) ≡ (more, length (logs ++ more))
unfolding read_job_log_delta
read_delta-grown logs more =
    let n : ltb (length (logs ++ more)) (length logs) ≡ false =
      rw (length-append logs more) (not_ltb (length logs) (length more)) in
    rw (n, drop-length logs more) refl

running-not_terminal : is_terminal_job_status JobStatus.running ≡ false
unfolding is_terminal_job_status job_status_eq
running-not_terminal = refl

polled-grown :
    (path : String) (logs : Bytes) (chunks : List Bytes) (last : Bytes) (end : JobStatus)
    (later : List Poll)
    → is_terminal_job_status end ≡ true
    → polled_logs path (length logs) (growing path logs chunks last end later) ≡ chunks ++ last ∷ []
unfolding polled_logs
polled-grown path logs [] last end later h = rw (eq_refl path, read_delta-grown logs last, h) refl
polled-grown path logs (chunk ∷ chunks) last end later h =
    rw (eq_refl path, read_delta-grown logs chunk)
      (rw running-not_terminal
        (ap (λ others. chunk ∷ others) (polled-grown path (logs ++ chunk) chunks last end later h)))

map-lines : (chunks : List Bytes) → map write_sse_log_events chunks ≡ map (lines_from []) chunks
map-lines [] = refl
map-lines (chunk ∷ chunks) = rw (write_sse_log_events_total chunk, map-lines chunks) refl

-- Of a log that stays at one path and grows while its job runs, the stream sends each chunk once, in
-- order, up to the poll that finds the job ended and nothing after it: one event for each line of
-- each chunk.
pub follow-grown :
    (path : String) (logs : Bytes) (chunks : List Bytes) (last : Bytes) (end : JobStatus)
    (later : List Poll)
    → is_terminal_job_status end ≡ true
    → (polled_logs path (length logs) (growing path logs chunks last end later)
        ≡ chunks ++ last ∷ [])
      × (follow_job_log_stream path (length logs) (growing path logs chunks last end later)
          ≡ flatten (map (lines_from []) (chunks ++ last ∷ [])))
unfolding follow_job_log_stream
follow-grown path logs chunks last end later h =
    let e = polled-grown path logs chunks last end later h in
    (
      e,
      ap (λ deltas. flatten (map write_sse_log_events deltas)) e
          ∙ ap flatten (map-lines (chunks ++ last ∷ [])),
    )
