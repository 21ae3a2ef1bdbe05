-- ===== src/Examples/Logs.antt =====
-- A log that is read in two pieces, through cmd/brain/job_logs.go.
use ovek.Common.{◌≡◌, List, [], ◌∷◌, flatten, refl, true, map}
use ovek.Scrubber.{Bytes}
use ovek.Store.{JobStatus, job_status_eq}
use ovek.LogStream.{
  cut_line, event_loop, write_sse_log_events, split_last_newline, read_job_log_delta,
  stream_sse_log_reader,
}
use ovek.LogStream.Lines.{lines_from}
use ovek.LogStream.Follow.{
  Poll, is_terminal_job_status, polled_logs, follow_job_log_stream, growing, follow-grown,
}
use ovek.LogStream.Reader.{stream_unsplit}

-- "a\nb" and "c\n\nd": the second line is cut by the reads, and the last one lacks its newline.
abbrev reads : List Bytes
reads = (b'a' ∷ b'\n' ∷ b'b' ∷ []) ∷ (b'c' ∷ b'\n' ∷ b'\n' ∷ b'd' ∷ []) ∷ []

abbrev lines : List Bytes
lines = (b'a' ∷ []) ∷ (b'b' ∷ b'c' ∷ []) ∷ [] ∷ (b'd' ∷ []) ∷ []

streams_lines : stream_sse_log_reader [] reads ≡ lines
unfolding stream_sse_log_reader split_last_newline write_sse_log_events event_loop cut_line
streams_lines = refl

stream_unsplit_example :
    (stream_sse_log_reader [] reads ≡ write_sse_log_events (flatten reads))
    × (stream_sse_log_reader [] reads ≡ lines_from [] (flatten reads))
stream_unsplit_example = stream_unsplit reads

-- A running job's log that has "a\n", grows by "b" and then by "c\n": the line that a poll cuts is
-- sent in two events.
abbrev polls : List Poll
polls =
    growing "jobs/1.log" (b'a' ∷ b'\n' ∷ []) ((b'b' ∷ []) ∷ []) (b'c' ∷ b'\n' ∷ [])
      JobStatus.succeeded []

followed : follow_job_log_stream "jobs/1.log" 2 polls ≡ (b'b' ∷ []) ∷ (b'c' ∷ []) ∷ []
unfolding follow_job_log_stream polled_logs read_job_log_delta is_terminal_job_status job_status_eq
    write_sse_log_events event_loop cut_line
followed = refl

ended : is_terminal_job_status JobStatus.succeeded ≡ true
unfolding is_terminal_job_status job_status_eq
ended = refl

follow-grown_example :
    (polled_logs "jobs/1.log" 2 polls ≡ (b'b' ∷ []) ∷ (b'c' ∷ b'\n' ∷ []) ∷ [])
    × (follow_job_log_stream "jobs/1.log" 2 polls
        ≡ flatten (map (lines_from []) ((b'b' ∷ []) ∷ (b'c' ∷ b'\n' ∷ []) ∷ [])))
follow-grown_example =
    follow-grown "jobs/1.log" (b'a' ∷ b'\n' ∷ []) ((b'b' ∷ []) ∷ []) (b'c' ∷ b'\n' ∷ [])
      JobStatus.succeeded [] ended
