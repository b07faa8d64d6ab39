-- ===== src/Tests/Stuck.antt =====
-- Runs of the writing calls that panic.
use tario.Prelude.{ℕ, ◌≡◌, refl, inr, true, false, List, [], ◌∷◌, ◌++◌, arith, length-replicate}
use tario.Io.Result.{invalid_state}
use tario.Io.Poll.{ready, pending, panicked}
use tario.Block.{Tar, as_header, calc_cksum}
use tario.Buffer.Contents.{contents}
use tario.State.{expecting_header, receiving_data, entry_size}
use tario.Archive.{Archive, new_entry}
use tario.Read.Entries.{IsHeader}
use tario.Write.Calls.{AsyncWrite}
use tario.Write.Entries.{add_entry, entry_finish, entry_write}
use tario.Write.Faults.{add_entry-entry_finish_empty}
use tario.Write.Retry.{entry_write-entry_write_pending}
use tario.Tests.Samples.{tar, header, sink, buf-IsValid, in_state, roomy-IsValid, writes_in}
use tario.Tests.Archives.{all_left}
use tario.Tests.Roundtrips.{sink-IsReadySink}

-- A reading of headers by which entries hold no data.
abbrev empty_tar : Tar
empty_tar = record { cksum = λ h. inr 257; size = λ h. inr 0; entry_size = λ h. inr 0 }

empty-IsHeader : IsHeader empty_tar header 0
unfolding as_header new_entry entry_size calc_cksum
empty-IsHeader = record { whole = refl; not_empty = refl; stated = refl; made = refl; sized = refl }

add_entry-entry_finish_empty_example :
    (b : Archive (List ℕ)) × (add_entry empty_tar sink true 1 header (writes_in expecting_header)
      ≡ (ready header, b))
    × (b.io ++ contents b.buf ≡ header)
    × (entry_finish empty_tar sink true 1 header b ≡ (panicked invalid_state, b))
add_entry-entry_finish_empty_example =
    add_entry-entry_finish_empty empty_tar sink true all_left sink-IsReadySink
      (writes_in expecting_header) header 0 roomy-IsValid
      (omega (arith, length-replicate {A = ℕ} 1024 0)) refl empty-IsHeader

-- A sink that is not ready.
abbrev stuck_sink : AsyncWrite (List ℕ)
stuck_sink = record {
  poll_write = λ bytes w. (pending, w);
  poll_write_vectored = λ slices w. (pending, w);
  is_write_vectored = λ w. false;
  poll_flush = λ w. (pending, w);
  poll_shutdown = λ w. (pending, w);
}

entry_write-entry_write_pending_example :
    (b : Archive (List ℕ)) × (entry_write tar stuck_sink true header
        (7 ∷ [])
        (in_state (receiving_data 1))
      ≡ (pending, b))
    × (contents b.buf ≡ 1 ∷ 2 ∷ 3 ∷ 7 ∷ [])
    × (entry_write tar stuck_sink true header (7 ∷ []) b ≡ (panicked invalid_state, b))
unfolding entry_size
entry_write-entry_write_pending_example =
    entry_write-entry_write_pending tar stuck_sink true (in_state (receiving_data 1)) header
      (7 ∷ []) 3 [] buf-IsValid refl (omega arith) (omega arith) (omega arith) refl (omega arith)
      (λ bs. refl) refl
