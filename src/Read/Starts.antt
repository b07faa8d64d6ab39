-- ===== src/Read/Starts.antt =====
-- The start of `Archive::poll_next_entry` of src/read/mod.rs on a source that is read by whole blocks.
use tario.Prelude.{
  ℕ, suc, ◌%◌, ◌≤◌, ◌<◌, min, ◌≡◌, refl, ap, ◌∙◌, ◌⊎◌, inl, inr, true, none, List, [], ◌++◌, arith,
  length, drop, length-append, split_long, split_front,
}
use tario.Io.Poll.{ready}
use tario.Block.{Tar, block_size}
use tario.Buffer.{Buf}
use tario.Buffer.Contents.{contents}
use tario.Buffer.Room.{IsReady}
use tario.State.{
  State, next, contains, expecting_header, receiving_header, aligning_data, aligned_data,
}
use tario.State.Layout.{scan, ends}
use mathlib.Core.Path.{subst}
use tario.Archive.{Archive}
use tario.Read.Consume.{settle, passes_on}
use tario.Read.Calls.{AsyncRead, poll_fill_buf, next_entry_loop, on_next_entry}
use tario.Read.Stream.{Streams, stream, fill_some}
use tario.Read.Header.{consume_front, next_round, next_entry_loop_refilled, header_starts}

-- The states in which a reader stands before a header: as the archive begins or after a skip, once the
-- end of the data has been read, and in an entry without data once its end has been read.
abbrev pub AtHeader : State → Type 0
AtHeader s = (s ≡ expecting_header) ⊎ (s ≡ receiving_header block_size true) ⊎ (s ≡ aligning_data 0)

module _ {R : Type 0} (tar : Tar) (source : AsyncRead R) where
  aligned_starts :
      (a : Archive R) (fuel : ℕ)
      → IsReady a.buf
      → a.state ≡ aligning_data 0
      → 0 < length (contents a.buf)
      → (b : Buf) × (next_entry_loop tar source (suc fuel) a
          ≡ next_entry_loop tar source fuel (record a { buf = b; state = expecting_header }))
        × IsReady b
        × (contents b ≡ contents a.buf)
  unfolding next on_next_entry contains settle passes_on
  aligned_starts a fuel r s held =
      let m : min 0 (length (contents a.buf)) ≡ 0 = omega arith in
      let (b, moved, after, same) =
        consume_front tar source a [] (contents a.buf) none {t = aligned_data}
          {u = expecting_header} r refl refl
          (ap (λ (t : State). scan tar none t []) s
            ∙ ends tar none (aligning_data 0) aligned_data 0 [] refl refl)
          refl in
      (
        b,
        next_round tar source a (record a { buf = b; state = expecting_header }) fuel 0
            {t = aligned_data} r held (rw (s, m)) refl moved,
        after,
        same,
      )

module _ {R : Type 0} (tar : Tar) (source : AsyncRead R) (left : R → List ℕ) (good : R → Type 0)
    (law : Streams source left good)
    (blocks : (r : R) → good r → length (left r) % block_size ≡ 0) where
  -- Where whole blocks are left, the buffer holds a block when it holds a byte.
  pub fill_block :
      (a : Archive R) (blk rest : List ℕ)
      → IsReady a.buf
      → good a.io
      → stream left a ≡ blk ++ rest
      → length blk ≡ block_size
      → length rest % block_size ≡ 0
      → (b : Buf) × (io : R) × (poll_fill_buf tar source a
          ≡ (ready tt, record a { buf = b; io = io }))
        × IsReady b
        × good io
        × (0 < length (contents b))
        × (contents b ≡ blk ++ drop block_size (contents b))
        × (drop block_size (contents b) ++ left io ≡ rest)
  fill_block a blk rest r g whole len even =
      let all = length-append blk rest in
      let (b, io, filled, r', g', held, same) =
        fill_some tar source left good law a r g (omega (arith, ap length whole)) in
      let view : contents b ++ left io ≡ blk ++ rest = same ∙ whole in
      let sum = length-append (contents b) (left io) in
      let even' = blocks io g' in
      let enough : length blk ≤ length (contents b) = omega (arith, ap length view) in
      (
        b,
        io,
        filled,
        r',
        g',
        held,
        subst (λ (k : ℕ). contents b ≡ blk ++ drop k (contents b)) len
            (split_front (contents b) (left io) blk rest view enough),
        subst (λ (k : ℕ). drop k (contents b) ++ left io ≡ rest) len
            (split_long (contents b) (left io) blk rest view enough),
      )

  -- The rounds of the loop up to the block that is in the buffer.
  pub block_starts :
      (a : Archive R) (fuel : ℕ) (blk rest : List ℕ)
      → IsReady a.buf
      → good a.io
      → AtHeader a.state
      → stream left a ≡ blk ++ rest
      → length blk ≡ block_size
      → length rest % block_size ≡ 0
      → (b : Buf) × (io : R) × (k : ℕ) × (next_entry_loop tar source (suc (suc (suc (suc fuel)))) a
          ≡ next_entry_loop tar source
              (suc (suc k))
              (record { buf = b; state = receiving_header block_size true; io = io }))
        × IsReady b
        × good io
        × (contents b ≡ blk ++ drop block_size (contents b))
        × (drop block_size (contents b) ++ left io ≡ rest)
  block_starts a fuel blk rest r g s whole len even =
      let (b, io, filled, r', g', held, front, back) = fill_block a blk rest r g whole len even in
      let a' = record a { buf = b; io = io } in
      let again = next_entry_loop_refilled tar source a a' (suc (suc (suc fuel))) r' held filled in
      elim s [
        | inl at_start ↦
            let (c, goes, after, same) =
              header_starts tar source a' (suc (suc (suc fuel))) r' at_start held in
            (c, io, suc fuel, again ∙ goes, after, g', rw same front, rw same back)
        | inr (inl in_header) ↦ (
          b,
          io,
          suc (suc fuel),
          again
              ∙ ap
                  (λ (t : State).
                    next_entry_loop tar source (suc (suc (suc (suc fuel))))
                      (record { buf = b; state = t; io = io }))
                  in_header,
          r',
          g',
          front,
          back,
        )
        | inr (inr aligned) ↦
            let (c, goes, after, same) =
              aligned_starts tar source a' (suc (suc (suc fuel))) r' aligned held in
            let (d, goes', after', same') =
              header_starts tar source (record a' { buf = c; state = expecting_header })
                (suc (suc fuel)) after refl (omega (arith, ap length same)) in
            let both = same' ∙ same in
            (d, io, fuel, again ∙ (goes ∙ goes'), after', g', rw both front, rw both back)
      ]
