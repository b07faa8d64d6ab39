-- ===== src/Read/Entries.antt =====
-- `Archive::poll_next_entry` of src/read/mod.rs on a source that is read by whole blocks.
use tario.Prelude.{
  ℕ, suc, ◌%◌, ◌≡◌, refl, ap, ◌∙◌, inl, inr, true, false, none, some, List, ◌++◌, arith,
  if◌then◌else◌, length, drop, all_zero, length-append,
}
use tario.Io.Result.{ok}
use tario.Io.Poll.{done, Poll, ready}
use tario.Block.{Header, Tar, block_size, as_header}
use tario.Buffer.{Buf}
use tario.Buffer.Contents.{contents}
use tario.Buffer.Room.{IsReady}
use tario.State.{
  State, is_terminal, receiving_header, receiving_data, receiving_eof, received_eof, entry_size,
}
use tario.Archive.{Archive, new_entry}
use tario.Read.Calls.{AsyncRead, next_entry_loop, poll_next_entry}
use tario.Read.Stream.{Streams, stream}
use tario.Read.Starts.{AtHeader, block_starts, fill_block}
use tario.Read.Header.{next_entry_loop_refilled, header_block, empty_block_first, empty_block_last}

-- A header as a reader accepts it, and the size of the data that it states.
pub record IsHeader (tar : Tar) (h : Header) (size : ℕ) : Type 0 where
  pub whole : length h ≡ block_size
  pub not_empty : all_zero h ≡ false
  pub stated : as_header tar h ≡ ok h
  pub made : new_entry tar h ≡ ok h
  pub sized : entry_size tar (some h) ≡ ok size

-- What a call ends with: the result, the state, and the bytes that are still to be read.
abbrev pub Ends :
    {R A : Type 0} → (R → List ℕ) → (R → Type 0) → A → State → List ℕ → Poll A × Archive R → Type 0
Ends {R} {A} left good x s rest result =
    (b : Buf) × (io : R) × (result ≡ (ready x, record { buf = b; state = s; io = io }))
    × IsReady b
    × good io
    × (contents b ++ left io ≡ rest)

module _ {R : Type 0} (tar : Tar) (source : AsyncRead R) (left : R → List ℕ) (good : R → Type 0)
    (law : Streams source left good)
    (blocks : (r : R) → good r → length (left r) % block_size ≡ 0) where
  poll_next_entry_starts :
      (a : Archive R)
      → AtHeader a.state
      → poll_next_entry tar source a ≡ next_entry_loop tar source 2048 a
  unfolding poll_next_entry is_terminal
  poll_next_entry_starts a s =
      let next = next_entry_loop tar source 2048 in
      let enters = λ (t : State). (if is_terminal t then done none else next) a in
      elim s [ inl e ↦ ap enters e | inr (inl e) ↦ ap enters e | inr (inr e) ↦ ap enters e ]

  -- `poll_next_entry` before a header, on a buffer of whole blocks that is ready to be filled
  -- and a source that is always ready and read by whole blocks: it gives the header that comes first, if
  -- it is one that the reader accepts, moves just behind it, and then receives as many bytes of data as
  -- it states.
  pub poll_next_entry_header :
      (a : Archive R) (h : Header) (size : ℕ) (rest : List ℕ)
      → IsReady a.buf
      → good a.io
      → AtHeader a.state
      → IsHeader tar h size
      → stream left a ≡ h ++ rest
      → length rest % block_size ≡ 0
      → Ends left good (some h) (receiving_data size) rest (poll_next_entry tar source a)
  poll_next_entry_header a h size rest r g s ish whole even =
      let (b, io, k, starts, r', g', front, back) =
        block_starts tar source left good law blocks a 2044 h rest r g s whole ish.whole even in
      let (c, ends, after, same) =
        header_block tar source
          (record { buf = b; state = receiving_header block_size true; io = io }) (suc k) size h
          (drop block_size (contents b)) r' refl front ish.whole ish.not_empty ish.stated ish.made
          ish.sized in
      (c, io, poll_next_entry_starts a s ∙ (starts ∙ ends), after, g', rw same back)

  -- `poll_next_entry` before two empty blocks, on a buffer of whole blocks that is ready to be filled
  -- and a source that is always ready and read by whole blocks: it gives no entry, moves just behind
  -- the two blocks, and the archive has ended.
  pub poll_next_entry_end :
      (a : Archive R) (blk blk' rest : List ℕ)
      → IsReady a.buf
      → good a.io
      → AtHeader a.state
      → (length blk ≡ block_size) × (all_zero blk ≡ true)
      → (length blk' ≡ block_size) × (all_zero blk' ≡ true)
      → stream left a ≡ blk ++ (blk' ++ rest)
      → length rest % block_size ≡ 0
      → Ends left good none received_eof rest (poll_next_entry tar source a)
  poll_next_entry_end a blk blk' rest r g s (len, z) (len', z') whole even =
      let both = length-append blk' rest in
      let even' : length (blk' ++ rest) % block_size ≡ 0 = omega arith in
      let (b, io, k, starts, r', g', front, back) =
        block_starts tar source left good law blocks a 2044 blk (blk' ++ rest) r g s whole len
          even' in
      let (c, first, after, same) =
        empty_block_first tar source
          (record { buf = b; state = receiving_header block_size true; io = io }) (suc k) blk
          (drop block_size (contents b)) r' refl front len z in
      let a' : Archive R = record { buf = c; state = receiving_eof block_size; io = io } in
      let (d, io', filled, ready', good', held, front', back') =
        fill_block tar source left good law blocks a' blk' rest after g' (rw same back) len' even in
      let a'' = record a' { buf = d; io = io' } in
      let (e, ends, final, same') =
        empty_block_last tar source a'' k blk' (drop block_size (contents d)) ready' refl front'
          len' z' in
      (
        e,
        io',
        poll_next_entry_starts a s
            ∙ (starts
                ∙ (first
                    ∙ (next_entry_loop_refilled tar source a' a'' k ready' held filled ∙ ends))),
        final,
        good',
        rw same' back',
      )
