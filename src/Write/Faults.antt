-- ===== src/Write/Faults.antt =====
-- What src/write/mod.rs does with an entry without data, and with a write that is tried again.
use tario.Prelude.{ℕ, suc, ◌≤◌, ◌≡◌, refl, ap, Bool, List, [], ◌∷◌, ◌++◌}
use tario.Io.Result.{invalid_state}
use tario.Io.Poll.{ready, panicked, pass_of, awaits, polled}
use tario.Block.{Tar, Header, block_size}
use tario.Buffer.{capacity}
use tario.Buffer.Contents.{IsValid, contents}
use tario.State.{State, expecting_header, receiving_data, aligning_data}
use tario.Archive.{Archive, Entry}
use tario.Read.Entries.{IsHeader}
use tario.Write.Calls.{AsyncWrite, poll_finish_entry, on_finish_entry}
use tario.Write.Entries.{
  add_entry, entry_finish, entry_shutdown, entry_write, poll_write_entry, on_write_entry,
  poll_flush,
}
use tario.Write.Finish.{finish_round}
use tario.Write.Ready.{IsReadySink}
use tario.Write.Steps.{add_entry_ready}

module _ {W : Type 0} (tar : Tar) (sink : AsyncWrite W) (debug : Bool) where
  finish_entry_panics :
      (a : Archive W) (e : Entry) (rem : ℕ)
      → a.state ≡ receiving_data rem
      → poll_finish_entry tar sink e a ≡ (panicked invalid_state, a)
  unfolding poll_finish_entry on_finish_entry
  finish_entry_panics a e rem s = finish_round tar sink e 1023 a s

  entry_finish_panics :
      (a : Archive W) (e : Entry) (polls rem : ℕ)
      → a.state ≡ receiving_data rem
      → entry_finish tar sink debug (suc polls) e a ≡ (panicked invalid_state, a)
  unfolding entry_shutdown awaits
  entry_finish_panics a e polls rem s =
      ap (polled (awaits polls (entry_shutdown tar sink debug e)))
        (pass_of (λ _. poll_flush tar sink debug) (finish_entry_panics a e rem s))

  -- A write after the data, as a caller makes it that tries a pending write again.
  pub entry_write_panics :
      (a : Archive W) (e : Entry) (bytes : List ℕ) (rem : ℕ)
      → a.state ≡ aligning_data rem
      → entry_write tar sink debug e bytes a ≡ (panicked invalid_state, a)
  unfolding poll_write_entry on_write_entry
  entry_write_panics a e bytes rem s =
      ap (λ (t : State). on_write_entry tar sink debug (bytes ∷ []) e t a) s

  -- An entry without data that is added, on a sink that is always ready and a valid buffer of a block at
  -- least, cannot be finished: `Entry::finish` panics. The header is one that the reader accepts, and
  -- the sink does not support vectored writes, or takes all that it is given.
  pub add_entry-entry_finish_empty :
      (sent : W → List ℕ) (law : IsReadySink sink sent) (a : Archive W) (h : Header) (polls : ℕ)
      → IsValid a.buf
      → block_size ≤ capacity a.buf
      → a.state ≡ expecting_header
      → IsHeader tar h 0
      → (b : Archive W) × (add_entry tar sink debug (suc polls) h a ≡ (ready h, b))
        × (sent b.io ++ contents b.buf ≡ (sent a.io ++ contents a.buf) ++ h)
        × (entry_finish tar sink debug (suc polls) h b ≡ (panicked invalid_state, b))
  add_entry-entry_finish_empty sent law a h polls v roomy s is =
      let (b, w, added, valid, same, order) =
        add_entry_ready tar sink debug sent law a h 0 polls v roomy s is.whole is.not_empty is.sized
          is.made in
      let b' : Archive W = record { buf = b; state = receiving_data 0; io = w } in
      (b', added, order, entry_finish_panics b' h polls 0 refl)
