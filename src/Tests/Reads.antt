-- ===== src/Tests/Reads.antt =====
-- Runs of the reading calls on a source of whole blocks.
use tario.Prelude.{
  ℕ, ◌≡◌, refl, sym, inl, inr, true, none, some, List, [], ◌∷◌, ◌++◌, arith, replicate, length-take,
  take-append-drop,
}
use tario.State.{
  expecting_header, aligning_data, State, receiving_header, receiving_data, entry_size,
  received_eof, is_terminal,
}
use tario.Io.Result.{invalid_state}
use tario.Io.Poll.{panicked, ready, failed}
use tario.Read.Fill.{Gives, Fills, poll_fill_buf-Fills}
use tario.Read.Calls.{poll_fill_buf, poll_skip_entry, poll_read, poll_next_entry}
use tario.Read.Again.{poll_read-poll_read_end}
use tario.Tests.Samples.{tar, header, source, roomy}
use tario.Read.Archived.{end_blocks}
use tario.Tests.Archives.{roomy-IsReady, all_left, EvenLeft, source-Streams, header-IsHeader}
use tario.Buffer.Room.{IsReady}
use tario.Buffer.Contents.{contents}
use tario.Read.Eof.{too_early, reads_too_early}
use tario.Archive.{Archive}
use tario.Read.Stream.{stream}
use tario.Read.Entries.{Ends, poll_next_entry_header, poll_next_entry_end}
use tario.Read.Starts.{AtHeader}
use tario.Read.Drain.{read_all}
use tario.Read.Skip.{poll_skip_entry-Skipped, Skipped}
use tario.Read.Drained.{read_all-AtHeader}

source-Gives : (room : ℕ) (held : List ℕ) → Gives all_left room held (source.poll_read room held)
source-Gives room held = (omega (arith, length-take room held), sym (take-append-drop room held))

abbrev reads_in : State → List ℕ → Archive (List ℕ)
reads_in s held = record { buf = roomy; state = s; io = held }

abbrev zeros : ℕ → List ℕ
zeros n = replicate n 0

-- Three bytes, their padding, and the end.
abbrev entry_left : Archive (List ℕ)
entry_left = reads_in (receiving_data 3) ((7 ∷ 8 ∷ 9 ∷ []) ++ (zeros 509 ++ end_blocks []))

read_all-AtHeader_example :
    (s : State) × AtHeader s
    × Ends all_left EvenLeft
        (7 ∷ 8 ∷ 9 ∷ [])
        s
        (end_blocks [])
        (read_all tar source header 2 1 4 entry_left)
unfolding entry_size
read_all-AtHeader_example =
    read_all-AtHeader tar source header 2 all_left EvenLeft source-Streams 4 entry_left
      (7 ∷ 8 ∷ 9 ∷ []) (zeros 509) (end_blocks []) (omega arith) refl (omega arith) refl
      (omega arith) roomy-IsReady refl refl refl (omega arith)

poll_skip_entry-Skipped_example :
    Skipped all_left EvenLeft entry_left
      (end_blocks [])
      (poll_skip_entry tar source header entry_left)
unfolding entry_size
poll_skip_entry-Skipped_example =
    poll_skip_entry-Skipped tar source header all_left EvenLeft source-Streams 3 refl (omega arith)
      (zeros 509) (end_blocks []) refl (omega arith) entry_left (7 ∷ 8 ∷ 9 ∷ []) roomy-IsReady refl
      refl (omega arith) (omega arith) refl

poll_next_entry_header_example :
    Ends all_left EvenLeft
      (some header)
      (receiving_data 3)
      (replicate 512 5)
      (poll_next_entry tar source (reads_in expecting_header (header ++ replicate 512 5)))
poll_next_entry_header_example =
    poll_next_entry_header tar source all_left EvenLeft source-Streams
      (λ (held : List ℕ) (good : EvenLeft held). good)
      (reads_in expecting_header (header ++ replicate 512 5)) header 3 (replicate 512 5)
      roomy-IsReady refl (inl refl) header-IsHeader refl refl

poll_next_entry_end_example :
    Ends all_left EvenLeft none received_eof []
      (poll_next_entry tar source (reads_in (receiving_header 512 true) (end_blocks [])))
poll_next_entry_end_example =
    poll_next_entry_end tar source all_left EvenLeft source-Streams
      (λ (held : List ℕ) (good : EvenLeft held). good)
      (reads_in (receiving_header 512 true) (end_blocks [])) (zeros 512) (zeros 512) []
      roomy-IsReady refl (inr (inl refl)) (refl, refl) (refl, refl) refl refl

poll_fill_buf-Fills_example :
    Fills all_left
      (reads_in (receiving_data 3) (7 ∷ 8 ∷ []))
      (poll_fill_buf tar source (reads_in (receiving_data 3) (7 ∷ 8 ∷ [])))
poll_fill_buf-Fills_example =
    poll_fill_buf-Fills tar source all_left source-Gives (reads_in (receiving_data 3) (7 ∷ 8 ∷ []))
      roomy-IsReady

poll_read-poll_read_end_example :
    (a' : Archive (List ℕ)) × (a'' : Archive (List ℕ)) × (poll_read tar source header 2
        (reads_in (aligning_data 3) (zeros 3 ++ replicate 509 1))
      ≡ (ready [], a'))
    × (a'.state ≡ receiving_header 512 true)
    × (stream all_left a' ≡ replicate 509 1)
    × (poll_read tar source header 2 a' ≡ (panicked invalid_state, a''))
poll_read-poll_read_end_example =
    poll_read-poll_read_end tar source header 2 (omega arith) all_left EvenLeft source-Streams
      (reads_in (aligning_data 3) (zeros 3 ++ replicate 509 1)) (zeros 3) (replicate 509 1)
      roomy-IsReady refl refl refl (omega arith) (omega arith)

reads_too_early_example :
    (b : Archive (List ℕ)) × (poll_next_entry tar source (reads_in (receiving_data 3) [])
      ≡ (failed too_early, b))
    × (poll_read tar source header 2 (reads_in (receiving_data 3) []) ≡ (failed too_early, b))
    × (poll_skip_entry tar source header (reads_in (receiving_data 3) []) ≡ (failed too_early, b))
    × (b.state ≡ receiving_data 3)
    × IsReady b.buf
    × (contents b.buf ≡ [])
unfolding is_terminal
reads_too_early_example =
    reads_too_early tar source (reads_in (receiving_data 3) []) header 2 [] roomy-IsReady refl refl
      refl (omega arith)
