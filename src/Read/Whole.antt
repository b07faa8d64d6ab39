-- ===== src/Read/Whole.antt =====
-- Reading a whole archive with the methods of src/read/mod.rs.
use tario.Prelude.{
  ℕ, zero, suc, ◌%◌, ◌<◌, ◌≡◌, refl, inl, inr, Bool, false, some, List, [], ◌∷◌, ◌++◌, arith,
  if◌then◌else◌, Bool-cases, length, replicate, length-append, length-replicate,
}
use tario.Io.Poll.{ready, done, pass_of}
use tario.Block.{Tar, block_size, Header}
use tario.Buffer.Room.{IsReady}
use tario.State.{expecting_header, State, receiving_data, received_eof}
use tario.Archive.{Archive, Entry}
use tario.Read.Calls.{AsyncRead, poll_next_entry}
use tario.Read.Stream.{Streams, stream}
use tario.Read.Entries.{Ends, poll_next_entry_header, poll_next_entry_end}
use tario.Read.Starts.{AtHeader}
use tario.Read.Skip.{poll_skip_entry-Skipped}
use tario.Read.Drained.{read_all-AtHeader}
use tario.Read.Futures.{next_entry_ready, skip_ready}
use tario.Read.Archived.{Stored, IsStored, layout, end_blocks, visit, read_archive, all_shown}

-- Entries that a client can visit: those that it skips hold data, and its reads are enough for others.
abbrev pub AllStored : Tar → (Header → Bool) → ℕ → List Stored → Type 0
AllStored tar wants limit [] = Unit {0}
AllStored tar wants limit (f ∷ files) =
    IsStored tar f
    × (wants f.header ≡ false → 0 < length f.body)
    × (length f.body < limit)
    × AllStored tar wants limit files

entry_even :
    (tar : Tar) (f : Stored) (more : List ℕ)
    → IsStored tar f
    → length more % block_size ≡ 0
    → length (f.body ++ (f.pad ++ more)) % block_size ≡ 0
entry_even tar f more is even =
    omega (arith, length-append f.body (f.pad ++ more), length-append f.pad more, is.filled)

layout_even :
    (tar : Tar) (wants : Header → Bool) (limit : ℕ) (files : List Stored) (tail : List ℕ)
    → AllStored tar wants limit files
    → length tail % block_size ≡ 0
    → length (layout files tail) % block_size ≡ 0
layout_even tar wants limit [] tail all even = even
layout_even tar wants limit (f ∷ files) tail (is, non_empty, enough, all) even =
    let more = layout files tail in
    omega (
      arith,
      entry_even tar f more is (layout_even tar wants limit files tail all even),
      length-append f.header (f.body ++ (f.pad ++ more)),
      is.head.whole,
    )

end_blocks_lem :
    (rest : List ℕ)
    → length rest % block_size ≡ 0
    → (length (end_blocks rest) % block_size ≡ 0) × (0 < length (end_blocks rest))
end_blocks_lem rest even =
    let blank : List ℕ = replicate block_size 0 in
    let outer = length-append blank (blank ++ rest) in
    let inner = length-append blank rest in
    let len = length-replicate {A = ℕ} block_size 0 in
    (omega (arith, outer, inner, len), omega (arith, outer, inner, len))

layout_some :
    (files : List Stored) (tail : List ℕ) → 0 < length tail → 0 < length (layout files tail)
layout_some [] tail h = h
layout_some (f ∷ files) tail h =
    let more = layout files tail in
    omega (
      arith,
      layout_some files tail h,
      length-append f.header (f.body ++ (f.pad ++ more)),
      length-append f.body (f.pad ++ more),
      length-append f.pad more,
    )

module _ {R : Type 0} (tar : Tar) (source : AsyncRead R) (wants : Header → Bool) (room limit : ℕ)
    (some_room : 0 < room) (left : R → List ℕ) (good : R → Type 0)
    (law : Streams source left good) where
  visit-Ends :
      (a : Archive R) (f : Stored) (rest : List ℕ)
      → IsStored tar f
      → (wants f.header ≡ false → 0 < length f.body)
      → 0 < length rest
      → length f.body < limit
      → IsReady a.buf
      → good a.io
      → a.state ≡ receiving_data (length f.body)
      → stream left a ≡ f.body ++ (f.pad ++ rest)
      → (s : State) × AtHeader s
        × Ends left good
            (if wants f.header then f.body else [])
            s
            rest
            (visit tar source wants room limit 1 f.header a)
  unfolding visit
  visit-Ends a f rest is non_empty more fits r g s whole = elim (Bool-cases (wants f.header)) [
    | inl z ↦ rw z (
        read_all-AtHeader tar source f.header room left good law limit a f.body f.pad rest some_room
          is.head.sized is.small is.filled more r g s whole fits)
    | inr z ↦
        let (b, io, skips, after, g', same) =
          poll_skip_entry-Skipped tar source f.header left good law (length f.body) is.head.sized
            is.small f.pad rest is.filled more a f.body r g s (non_empty z) (omega arith) whole in
        rw z (
          expecting_header,
          inl refl,
          (
            b,
            io,
            pass_of (λ _. done []) (skip_ready tar source 0 a f.header skips),
            after,
            g',
            same,
          ),
        )
  ]

  module _ (blocks : (r : R) → good r → length (left r) % block_size ≡ 0) where
    read_archive_end :
        (fuel : ℕ) (a : Archive R) (rest : List ℕ)
        → IsReady a.buf
        → good a.io
        → AtHeader a.state
        → stream left a ≡ end_blocks rest
        → length rest % block_size ≡ 0
        → Ends left good [] received_eof rest
            (read_archive tar source wants room limit 1 (suc fuel) a)
    unfolding read_archive
    read_archive_end fuel a rest r g s whole even =
        let (b, io, ends, after, g', same) =
          poll_next_entry_end tar source left good law blocks a (replicate block_size 0)
            (replicate block_size 0) rest r g s (refl, refl) (refl, refl) whole even in
        (b, io, rw (next_entry_ready tar source 0 a ends) refl, after, g', same)

    read_archive_entry :
        (fuel : ℕ) (a b c : Archive R) (e : Entry) (body : List ℕ) (others : List (Header × List ℕ))
        → poll_next_entry tar source a ≡ (ready (some e), b)
        → visit tar source wants room limit 1 e b ≡ (ready body, c)
        → (d : Archive R) → read_archive tar source wants room limit 1 fuel c ≡ (ready others, d)
        → read_archive tar source wants room limit 1 (suc fuel) a ≡ (ready ((e, body) ∷ others), d)
    unfolding read_archive
    read_archive_entry fuel a b c e body others found visited d later =
        rw (next_entry_ready tar source 0 a found, visited, later)

    -- A client awaits `next_entry` until it gives none, and with each entry either reads until it is
    -- given no bytes, with room for some bytes each time, or calls `skip`. On the bytes of an archive,
    -- that are any entries followed by two empty blocks, from any state before a header, it is given
    -- exactly the headers in order, each with all of its data where it reads them, and ends behind the
    -- empty blocks. The source is always ready and read by whole blocks, in pieces of any such size, and
    -- the buffer is ready to be filled. The headers are accepted and state the size of the data, of at
    -- most 2^64 - 512; the entries that are skipped hold data; there are enough rounds for the entries
    -- and for the reads of each.
    pub read_archive-Ends :
        (fuel : ℕ) (a : Archive R) (files : List Stored) (rest : List ℕ)
        → AllStored tar wants limit files
        → IsReady a.buf
        → good a.io
        → AtHeader a.state
        → stream left a ≡ layout files (end_blocks rest)
        → length rest % block_size ≡ 0
        → length files < fuel
        → Ends left good
            (all_shown wants files)
            received_eof
            rest
            (read_archive tar source wants room limit 1 fuel a)
    read_archive-Ends zero a files rest all r g s whole even h = absurd (omega arith)
    read_archive-Ends (suc fuel) a [] rest all r g s whole even h =
        read_archive_end fuel a rest r g s whole even
    read_archive-Ends (suc fuel) a (f ∷ files) rest (is, non_empty, enough, all) r g s whole even
          h =
        let more = layout files (end_blocks rest) in
        let (even', some_left) = end_blocks_lem rest even in
        let next_even = layout_even tar wants limit files (end_blocks rest) all even' in
        let (b, io, found, r', g', same) =
          poll_next_entry_header tar source left good law blocks a f.header (length f.body)
            (f.body ++ (f.pad ++ more)) r g s is.head whole (entry_even tar f more is next_even) in
        let a' : Archive R = record { buf = b; state = receiving_data (length f.body); io = io } in
        let (s', at_next, (c, io', visited, r'', g'', same')) =
          visit-Ends a' f more is non_empty (layout_some files (end_blocks rest) some_left) enough
            r' g' refl same in
        let b' : Archive R = record { buf = c; state = s'; io = io' } in
        let (d, io'', later, last, good', left_over) =
          read_archive-Ends fuel b' files rest all r'' g'' at_next same' even (omega arith) in
        let final : Archive R = record { buf = d; state = received_eof; io = io'' } in
        (
          d,
          io'',
          read_archive_entry fuel a a' b' f.header (if wants f.header then f.body else [])
              (all_shown wants files) found visited final later,
          last,
          good',
          left_over,
        )
