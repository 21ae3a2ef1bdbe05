-- ===== src/Worker/Messages.antt =====
-- normalizeJobFailureMessage (cmd/brain/worker.go).
use ovek.Common.{
  String, Bool, false, ◌||◌, Option, none, some, List, [], ◌∷◌, ◌==◌, trim_space, starts_with,
  text_append, trim_prefix, if◌then◌else◌,
}

abbrev pub interrupted_job_error_message : String
interrupted_job_error_message = "job interrupted by brain restart"

-- strings.TrimPrefix, then TrimSpace
unfoldable pub trim_failure_prefix : String → String → String
trim_failure_prefix error_message prefix = trim_space (trim_prefix error_message prefix)

abbrev pub has_any_prefix : String → List String → Bool
has_any_prefix s [] = false
has_any_prefix s (p ∷ ps) = starts_with s p || has_any_prefix s ps

-- The prefixes that a message may have already.
abbrev pub normalized_prefixes : List String
normalized_prefixes =
    "source fetch failed:" ∷ "build planning failed:" ∷ "image build failed:"
    ∷ "PocketBase provisioning failed:" ∷ "app container provisioning failed:"
    ∷ "app readiness failed:" ∷ "promotion state load failed:" ∷ "promotion state update failed:"
    ∷ "promotion cleanup failed:" ∷ "job state load failed:" ∷ []

-- The prefixes that are replaced, with what replaces them.
abbrev pub replaced_prefixes : List (String × String)
replaced_prefixes =
    ("git clone:", "source fetch failed: ")
    ∷ ("railpack prepare:", "build planning failed: ")
    ∷ ("buildctl build:", "image build failed: ")
    ∷ ("ensure PocketBase:", "PocketBase provisioning failed: ")
    ∷ ("ensure app container:", "app container provisioning failed: ")
    ∷ ("wait for app readiness:", "app readiness failed: ")
    ∷ ("load current deployment:", "promotion state load failed: ")
    ∷ []

unfoldable pub replace_prefix : String → List (String × String) → Option String
replace_prefix message [] = none
replace_prefix message ((prefix, label) ∷ rest) =
    if starts_with message prefix
    then some (text_append label (trim_failure_prefix message prefix))
    else replace_prefix message rest

-- The last cases of the switch.
unfoldable pub normalize_other : String → String
normalize_other message =
    if starts_with message "remove superseded app container"
    then text_append "promotion cleanup failed: " message
    else if message == "failed to load claimed job"
    then "job state load failed"
    else message

unfoldable pub normalize_job_failure_message : String → String
normalize_job_failure_message error_message =
    let message = trim_space error_message in
    if message == ""
      || message == interrupted_job_error_message
      || has_any_prefix message normalized_prefixes
    then message
    else elim (replace_prefix message replaced_prefixes) [
      | some replaced ↦ replaced
      | none ↦ normalize_other message
    ]
