-- ===== src/Write/Whole.antt =====
-- Writing a whole archive with the methods of src/write/mod.rs.
use tario.Prelude.{
  ℕ, ◌+◌, ◌≤◌, ◌<◌, ◌≡◌, refl, ap, ◌∙◌, Bool, List, [], ◌∷◌, ◌++◌, append_assoc, arith, length,
  replicate,
}
use tario.Io.Poll.{ready}
use tario.Block.{Tar, Header, block_size, empty_block}
use tario.Buffer.{Buf, capacity}
use tario.Buffer.Contents.{IsValid, contents}
use tario.State.{expecting_header, receiving_data, received_eof, u64_size}
use tario.State.Layout.{padding}
use tario.Archive.{Archive}
use tario.Read.Entries.{IsHeader}
use tario.Read.Archived.{Stored, layout, end_blocks}
use tario.Write.Calls.{AsyncWrite}
use tario.Write.Entries.{add_entry}
use tario.Write.Ready.{IsReadySink}
use tario.Write.Steps.{add_entry_ready}
use tario.Write.Ends.{joins, write_all_ready, finish_ready}
use tario.Write.Archived.{write_all, write_archive}

module _ {W : Type 0} (tar : Tar) (sink : AsyncWrite W) (debug : Bool) (chunk : ℕ) where
  -- An entry and what comes after it.
  write_archive_entry :
      (limit : ℕ) (h : Header) (body : List ℕ) (files : List (Header × List ℕ)) (a b c : Archive W)
      → add_entry tar sink debug 1 h a ≡ (ready h, b)
      → write_all tar sink debug chunk limit h body b ≡ (ready tt, c)
      → write_archive tar sink debug chunk limit ((h, body) ∷ files) a
        ≡ write_archive tar sink debug chunk limit files c
  unfolding write_archive
  write_archive_entry limit h body files a b c added written = rw (added, written)

-- Entries as a client writes them, and as they stand in the archive.
abbrev pub stored : Header × List ℕ → Stored
stored file = record { header = file.0; body = file.1; pad = replicate (padding (length file.1)) 0 }

abbrev pub all_stored : List (Header × List ℕ) → List Stored
all_stored [] = []
all_stored (file ∷ files) = stored file ∷ all_stored files

abbrev pub AllWritable : Tar → ℕ → List (Header × List ℕ) → Type 0
AllWritable tar limit [] = Unit {0}
AllWritable tar limit ((h, body) ∷ files) =
    IsHeader tar h (length body)
    × (length body + block_size ≤ u64_size)
    × (length body < limit)
    × AllWritable tar limit files

module _ {W : Type 0} (tar : Tar) (sink : AsyncWrite W) (debug : Bool) (chunk : ℕ)
    (some_bytes : 0 < chunk) (sent : W → List ℕ) (law : IsReadySink sink sent) (limit : ℕ) where
  -- A client writes any entries and the end of the archive to a sink that is always ready, in chunks
  -- that fit into a valid buffer of a block at least. The sink does not support vectored writes, and
  -- takes any number of the bytes of a slice at a time, one at least; or it takes all that it is given,
  -- slices that are passed through included, as a vector of bytes does. Then every call is ready, and at
  -- the end the sink was sent, behind what was sent or buffered before, exactly the layout of an
  -- archive, each header, its data, zeros up to a whole block, and two empty blocks. Nothing is left in
  -- the buffer. The headers are accepted by a reader, and state the size of the data, of at most 2^64 -
  -- 512; there are enough rounds for the data of each entry.
  pub write_archive-layout :
      (a : Archive W) (files : List (Header × List ℕ))
      → AllWritable tar limit files
      → IsValid a.buf
      → chunk ≤ capacity a.buf
      → block_size ≤ capacity a.buf
      → a.state ≡ expecting_header
      → (b : Buf) × (w : W) × (write_archive tar sink debug chunk limit files a
          ≡ (ready tt, record { buf = b; state = received_eof; io = w }))
        × IsValid b
        × (contents b ≡ [])
        × (sent w ≡ (sent a.io ++ contents a.buf) ++ layout (all_stored files) (end_blocks []))
  unfolding write_archive empty_block
  write_archive-layout a [] all v fits roomy s =
      let (b, w, ends, valid, empty, order) =
        finish_ready tar sink debug chunk some_bytes sent law a v roomy s in
      (b, w, ends, valid, empty, order)
  write_archive-layout a ((h, body) ∷ files) (is, small, enough, all) v fits roomy s =
      let pad : List ℕ = replicate (padding (length body)) 0 in
      let more = layout (all_stored files) (end_blocks []) in
      let (b, w, added, valid, same, order) =
        add_entry_ready tar sink debug sent law a h (length body) 0 v roomy s is.whole is.not_empty
          is.sized is.made in
      let a' : Archive W = record { buf = b; state = receiving_data (length body); io = w } in
      let (c, w', written, valid', same', order') =
        write_all_ready tar sink debug chunk some_bytes sent law limit h (length body) body a' valid
          (omega arith) (omega arith) refl enough is.sized small in
      let b' : Archive W = record { buf = c; state = expecting_header; io = w' } in
      let (d, w'', ends, valid'', empty, order'') =
        write_archive-layout b' files all valid' (omega arith) (omega arith) refl in
      (
        d,
        w'',
        write_archive_entry tar sink debug chunk limit h body files a a' b' added written ∙ ends,
        valid'',
        empty,
        joins (sent a.io ++ contents a.buf) (h ++ (body ++ pad)) more order''
            (joins (sent a.io ++ contents a.buf) h (body ++ pad) order' order refl)
            (append_assoc h (body ++ pad) more
              ∙ ap (λ (xs : List ℕ). h ++ xs) (append_assoc body pad more)),
      )
