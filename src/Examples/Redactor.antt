-- ===== src/Examples/Redactor.antt =====
-- Runs of the log redactor of cmd/brain/secret_scrubber.go.
use ovek.Common.{
  ℕ, ◌≡◌, refl, false, Option, none, List, [], ◌∷◌, ◌++◌, arith, length, flatten, Memᴰ,
}
use ovek.Scrubber.{Bytes, WriteError, new_secret_scrubber, new_writer, write, flush_all}
use ovek.Scrubber.Redaction.{Redacts}
use ovek.Scrubber.Build.{WalksKeys}
use ovek.Scrubber.Delivery.{Accepts}
use ovek.Scrubber.Writer.{write_chunks}
use ovek.Scrubber.Leaks.{avoids_mark, contains}
use ovek.Scrubber.Stream.{scrubbed, streamed, streamed-Redacts, contains-streamed, streamed_unique}

-- A log file in memory.
abbrev append_bytes : Bytes → Bytes → Bytes × ℕ × Option WriteError
append_bytes file b = (file ++ b, length b, none)

file-Accepts : Accepts append_bytes (λ file. file)
file-Accepts = record { appends = λ w b. refl; counts = λ w b. refl; succeeds = λ w b. refl }

abbrev in_order : List Bytes → List Bytes
in_order keys = keys

in_order-WalksKeys : WalksKeys in_order
in_order-WalksKeys = record { only = λ keys t m. m; every = λ keys t m. m }

-- "hush" and "hushhush"
abbrev hush : Bytes
hush = b'h' ∷ b'u' ∷ b's' ∷ b'h' ∷ []

abbrev secrets : List Bytes
secrets = hush ∷ (hush ++ hush) ∷ (b'k' ∷ []) ∷ []

abbrev chunks : List Bytes
chunks = (b'=' ∷ b'h' ∷ b'u' ∷ []) ∷ (b's' ∷ b'h' ∷ b'k' ∷ []) ∷ (b'h' ∷ []) ∷ []

abbrev other_chunks : List Bytes
other_chunks = (b'=' ∷ []) ∷ (hush ++ b'k' ∷ b'h' ∷ []) ∷ []

-- A secret that two writes share is hidden, and a short one is not.
split_secret :
    (streamed file-Accepts in_order secrets [] chunks).0.writer
    ≡ Option.some (
        b'=' ∷ b'[' ∷ b'r' ∷ b'e' ∷ b'd' ∷ b'a' ∷ b'c' ∷ b't' ∷ b'e' ∷ b'd' ∷ b']' ∷ b'k' ∷ b'h'
        ∷ [])
unfolding new_secret_scrubber new_writer write_chunks write flush_all
split_secret = refl

abbrev hidden : Bytes
hidden =
    b'=' ∷ b'[' ∷ b'r' ∷ b'e' ∷ b'd' ∷ b'a' ∷ b'c' ∷ b't' ∷ b'e' ∷ b'd' ∷ b']' ∷ b'k' ∷ b'h' ∷ []

streamed-Redacts_example :
    (below' : Bytes) × (output : Bytes) × ((streamed file-Accepts in_order secrets []
        chunks).0.writer
      ≡ Option.some below')
    × (below' ≡ [] ++ output)
    × Redacts (scrubbed secrets) (flatten chunks) output
    × ((streamed file-Accepts in_order secrets [] chunks).1 ≡ none)
streamed-Redacts_example =
    streamed-Redacts file-Accepts in_order in_order-WalksKeys secrets [] chunks

contains-streamed_example :
    (output : Bytes) × (hidden ≡ [] ++ output) × (contains output hush ≡ false)
unfolding avoids_mark
contains-streamed_example =
    contains-streamed file-Accepts in_order in_order-WalksKeys secrets [] chunks b'h'
      (b'u' ∷ b's' ∷ b'h' ∷ []) hidden (Memᴰ.head refl) (omega arith) refl split_secret

same_text : (streamed file-Accepts in_order secrets [] other_chunks).0.writer ≡ Option.some hidden
unfolding new_secret_scrubber new_writer write_chunks write flush_all
same_text = refl

streamed_unique_example : ◌≡◌ {A = Bytes} hidden hidden
streamed_unique_example =
    streamed_unique file-Accepts in_order in_order in_order-WalksKeys in_order-WalksKeys secrets []
      chunks other_chunks hidden hidden refl split_secret same_text
