-- ===== src/Write/Full.antt =====
-- `poll_write_vectored` of src/write/mod.rs on a sink that is always ready, with as many bytes as the
-- buffer has room for.
use tario.Prelude.{
  ℕ, ◌+◌, ◌-◌, ◌≤◌, ◌<◌, ◌≡◌, refl, sym, ap, ◌∙◌, inl, inr, Bool, true, false, ◌&&◌, Option, List,
  ◌++◌, append-nil, append_assoc, arith, leb, ◌==◌, Bool-cases, le-cases, length, take, concat,
  length-append,
}
use tario.Io.Result.{ok}
use tario.Io.Poll.{ready}
use tario.Block.{Tar, Header}
use tario.Buffer.{capacity}
use tario.Buffer.Contents.{IsValid, contents}
use tario.Slices.{Prefix, prefix_iter, Slice, bytes_len}
use tario.Slices.Iter.{slices_take_prefix_lem, bytes_len_lem}
use tario.State.{State, take_slices, take_until, stops}
use tario.State.Chunks.{take_slices-eq-take_until}
use tario.Archive.{Archive}
use tario.Write.Calls.{
  AsyncWrite, buffer_up, make_room, can_pass_through, poll_write_vectored, state_after,
}
use tario.Write.Buffered.{buffer_up_lem, poll_write_bytes}
use tario.Write.Vectored.{write_parts}
use tario.Write.Calls.{pass_through}
use tario.Write.Through.{whole_lem, add_remainder_lem, pass_through_lem}
use tario.Write.Ready.{IsWhole, IsReadySink, Ended, and_false, make_room_flushes, flush_ready}

module _ {W : Type 0} (tar : Tar) (sink : AsyncWrite W) (sent : W → List ℕ)
    (law : IsReadySink sink sent) where
  not_through :
      (n : ℕ) (a : Archive W)
      → ((w : W) → sink.is_write_vectored w ≡ false)
      → can_pass_through tar sink n a ≡ false
  not_through n a narrow =
      ap (λ (b : Bool). leb (capacity a.buf) n && b) (narrow a.io)
      ∙ and_false (leb (capacity a.buf) n)

  write_flushed :
      (a : Archive W) (bufs : List Slice) (max : ℕ) (header : Option Header) (bytes : List ℕ)
      {t : State}
      → IsValid a.buf
      → take max (concat bufs) ≡ bytes
      → length bytes ≤ capacity a.buf
      → capacity a.buf - a.buf.cap < length bytes
      → can_pass_through tar sink (length bytes) a ≡ false
      → take_until tar a.state stops bytes header ≡ ok (t, length bytes)
      → Ended tar sink sent law
          (length bytes)
          bytes
          a
          t
          (poll_write_vectored tar sink bufs max header a)
  unfolding state_after
  write_flushed a bufs max header bytes {t} v same fits short through taken =
      let (p, cut, taken_front) = slices_take_prefix_lem bufs max in
      let front : concat (prefix_iter p) ≡ bytes = taken_front ∙ same in
      let len = ap length front in
      let small = v.allocated in
      let size : bytes_len (prefix_iter p) ≡ length bytes =
        bytes_len_lem (prefix_iter p) ∙ omega arith in
      let leads : take_slices tar a.state (prefix_iter p) header ≡ ok (t, length bytes) =
        take_slices-eq-take_until tar header a.state (prefix_iter p)
        ∙ (ap (λ (xs : List ℕ). take_until tar a.state stops xs header) front ∙ taken) in
      let (b, w, flushed, valid, sized, empty, at_start, kept) =
        flush_ready tar sink sent law a v in
      let a' = record a { buf = b; io = w } in
      let (c, filled, valid', held, sized', unmoved) =
        buffer_up_lem tar sink a' valid p (omega arith) in
      let filled' : buffer_up tar sink p a' ≡ (ready (length bytes), record a' { buf = c }) =
        filled ∙ ap (λ (n : ℕ). (ready n, record a' { buf = c })) len in
      let all : (length bytes == length bytes) ≡ true = ground arith in
      (
        c,
        w,
        write_parts tar sink a bufs max header p (length bytes) t cut size leads
            ∙ rw
                (
                  through,
                  make_room_flushes tar sink (length bytes) a v short,
                  flushed,
                  filled',
                  all,
                )
                refl,
        valid',
        sized' ∙ sized,
        rw (held, empty, kept, front) refl,
      )

  write_buffered :
      (a : Archive W) (bufs : List Slice) (max : ℕ) (header : Option Header) (bytes : List ℕ)
      {t : State}
      → IsValid a.buf
      → take max (concat bufs) ≡ bytes
      → length bytes ≤ capacity a.buf
      → can_pass_through tar sink (length bytes) a ≡ false
      → take_until tar a.state stops bytes header ≡ ok (t, length bytes)
      → Ended tar sink sent law
          (length bytes)
          bytes
          a
          t
          (poll_write_vectored tar sink bufs max header a)
  write_buffered a bufs max header bytes v same fits through taken =
      elim (le-cases (length bytes) (capacity a.buf - a.buf.cap)) [
        | inl enough ↦
            let (b, shows, valid, held, sized, unmoved) =
              poll_write_bytes tar sink a v bufs max header same enough through taken in
            (
              b,
              a.io,
              shows,
              valid,
              sized,
              ap (λ (xs : List ℕ). sent a.io ++ xs) held
                  ∙ sym (append_assoc (sent a.io) (contents a.buf) bytes),
            )
        | inr short ↦ write_flushed a bufs max header bytes v same fits short through taken
      ]

  -- The slices are passed through to a sink that takes all of them.
  pass_through_whole :
      IsWhole sink sent
      → (p : Prefix) (a : Archive W)
      → (w : W) × (pass_through tar sink p (length (concat (prefix_iter p))) a
          ≡ (ready (length (concat (prefix_iter p))), record a { io = w }))
        × (sent w ≡ sent a.io ++ concat (prefix_iter p))
  pass_through_whole whole p a =
      let (w, first, kept) = whole.slices p.slices a.io in
      let (w', second, kept') = whole.bytes p.remainder w in
      let all : (length (concat p.slices) == length (concat p.slices)) ≡ true = ground arith in
      let sum : length (concat p.slices) + length p.remainder ≡ length (concat (prefix_iter p)) =
        sym (ap length (whole_lem p) ∙ length-append (concat p.slices) p.remainder) in
      (
        w',
        pass_through_lem tar sink p a first
            ∙ rw all (
                add_remainder_lem tar sink p a (length (concat p.slices)) w
                  (ready (length p.remainder), w') second
                ∙ ap (λ (n : ℕ). (ready n, record a { io = w' })) sum),
        kept'
            ∙ (ap (λ (xs : List ℕ). xs ++ p.remainder) kept
                ∙ (append_assoc (sent a.io) (concat p.slices) p.remainder
                    ∙ ap (λ (xs : List ℕ). sent a.io ++ xs) (sym (whole_lem p)))),
      )

  write_through :
      IsWhole sink sent
      → (a : Archive W) (bufs : List Slice) (max : ℕ) (header : Option Header) (bytes : List ℕ)
        {t : State}
      → IsValid a.buf
      → take max (concat bufs) ≡ bytes
      → length bytes ≤ capacity a.buf
      → can_pass_through tar sink (length bytes) a ≡ true
      → take_until tar a.state stops bytes header ≡ ok (t, length bytes)
      → Ended tar sink sent law
          (length bytes)
          bytes
          a
          t
          (poll_write_vectored tar sink bufs max header a)
  unfolding state_after make_room
  write_through whole a bufs max header bytes {t} v same fits through taken =
      let (p, cut, taken_front) = slices_take_prefix_lem bufs max in
      let front : concat (prefix_iter p) ≡ bytes = taken_front ∙ same in
      let small = v.allocated in
      let size : bytes_len (prefix_iter p) ≡ length bytes =
        bytes_len_lem (prefix_iter p) ∙ omega (arith, ap length front) in
      let leads : take_slices tar a.state (prefix_iter p) header ≡ ok (t, length bytes) =
        take_slices-eq-take_until tar header a.state (prefix_iter p)
        ∙ (ap (λ (xs : List ℕ). take_until tar a.state stops xs header) front ∙ taken) in
      let (b, w, flushed, valid, sized, empty, at_start, kept) =
        flush_ready tar sink sent law a v in
      let a' = record a { buf = b; io = w } in
      let (w', passed, kept') = pass_through_whole whole p a' in
      let passed' : pass_through tar sink p (length bytes) a'
          ≡ (ready (length bytes), record a' { io = w' }) =
        rw (← front) passed in
      let all : (length bytes == length bytes) ≡ true = ground arith in
      (
        b,
        w',
        write_parts tar sink a bufs max header p (length bytes) t cut size leads
            ∙ rw (through, flushed, passed', all) refl,
        valid,
        sized,
        rw (empty, kept', kept, front, append-nil) refl,
      )

  -- Slices of no more bytes than the buffer is large for are always written whole.
  pub write_full :
      (a : Archive W) (bufs : List Slice) (max : ℕ) (header : Option Header) (bytes : List ℕ)
      {t : State}
      → IsValid a.buf
      → take max (concat bufs) ≡ bytes
      → length bytes ≤ capacity a.buf
      → take_until tar a.state stops bytes header ≡ ok (t, length bytes)
      → Ended tar sink sent law
          (length bytes)
          bytes
          a
          t
          (poll_write_vectored tar sink bufs max header a)
  write_full a bufs max header bytes v same fits taken =
      elim (Bool-cases (can_pass_through tar sink (length bytes) a)) [
        | inl through ↦ elim law.narrow_or_whole [
          | inl narrow ↦
              write_buffered a bufs max header bytes v same fits
                (not_through (length bytes) a narrow) taken
          | inr whole ↦ write_through whole a bufs max header bytes v same fits through taken
        ]
        | inr through ↦ write_buffered a bufs max header bytes v same fits through taken
      ]
