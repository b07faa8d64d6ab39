-- ===== src/Write/Buffered.antt =====
-- `Archive::poll_write_vectored` of src/write/mod.rs where the slices fit into the buffer.
use tario.Prelude.{
  refl, take-append_self, [], ◌∷◌, ℕ, ◌-◌, ◌≤◌, min, ◌≡◌, ap, ◌∙◌, true, false, Option, List, ◌++◌,
  arith, ltb, leb, ◌==◌, length, take, concat, take_all,
}
use tario.Io.Result.{ok}
use tario.Io.Poll.{ready}
use tario.Block.{Header, Tar}
use tario.Buffer.{Buf, capacity, after_write, remaining}
use tario.Buffer.Contents.{IsValid, contents, fill_from_slices_lem}
use tario.Slices.{Slice, Prefix, prefix_iter, bytes_len, slices_take_prefix}
use tario.Slices.Iter.{slices_take_prefix_lem, bytes_len_lem}
use tario.State.{State, take_slices, take_until, stops}
use tario.State.Chunks.{take_slices-eq-take_until}
use tario.Archive.{Archive}
use tario.Write.Calls.{
  poll_write_data, AsyncWrite, can_pass_through, make_room, buffer_up, state_after,
  poll_write_vectored,
}

module _ {W : Type 0} (tar : Tar) (sink : AsyncWrite W) (a : Archive W) (v : IsValid a.buf) where
  make_room_lem :
      (n : ℕ) → n ≤ capacity a.buf - a.buf.cap → make_room tar sink n false a ≡ (ready tt, a)
  unfolding make_room remaining
  make_room_lem n fits =
      let inside = v.inside in
      let some_room : leb a.buf.cap (capacity a.buf) ≡ true = ground arith in
      let test : ltb (capacity a.buf - a.buf.cap) n ≡ false = ground arith in rw (some_room, test)

  pub buffer_up_lem :
      (p : Prefix)
      → length (concat (prefix_iter p)) ≤ capacity a.buf - a.buf.cap
      → (b : Buf) × (buffer_up tar sink p a
          ≡ (ready (length (concat (prefix_iter p))), record a { buf = b }))
        × IsValid b
        × (contents b ≡ contents a.buf ++ concat (prefix_iter p))
        × (capacity b ≡ capacity a.buf)
        × (b.pos ≡ a.buf.pos)
  unfolding buffer_up
  buffer_up_lem p fits =
      let bytes = concat (prefix_iter p) in
      let (r, e, valid, held, sized) = fill_from_slices_lem (prefix_iter p) v in
      let all : min (length bytes) (capacity a.buf - a.buf.cap) ≡ length bytes = omega arith in
      (
        after_write a.buf r,
        rw (buffer_up, e, all),
        valid,
        held
            ∙ ap (λ (xs : List ℕ). contents a.buf ++ xs)
                (take_all (capacity a.buf - a.buf.cap) bytes fits),
        sized,
        refl,
      )

  poll_write_parts :
      (bufs : List Slice) (max : ℕ) (header : Option Header) (p : Prefix) (n : ℕ) (t : State)
      (b : Buf)
      → slices_take_prefix bufs max ≡ ok p
      → bytes_len (prefix_iter p) ≡ n
      → take_slices tar a.state (prefix_iter p) header ≡ ok (t, n)
      → can_pass_through tar sink n a ≡ false
      → make_room tar sink n false a ≡ (ready tt, a)
      → buffer_up tar sink p a ≡ (ready n, record a { buf = b })
      → poll_write_vectored tar sink bufs max header a ≡ (ready n, record a { buf = b; state = t })
  unfolding poll_write_vectored state_after
  poll_write_parts bufs max header p n t b cut size taken through room filled =
      let test : (n == n) ≡ true = ground arith in
      rw (cut, size, taken, test, through, room, filled, test)

  pub poll_write_bytes :
      (bufs : List Slice) (max : ℕ) (header : Option Header) {bytes : List ℕ} {t : State}
      → take max (concat bufs) ≡ bytes
      → length bytes ≤ capacity a.buf - a.buf.cap
      → can_pass_through tar sink (length bytes) a ≡ false
      → take_until tar a.state stops bytes header ≡ ok (t, length bytes)
      → (b : Buf) × (poll_write_vectored tar sink bufs max header a
          ≡ (ready (length bytes), record a { buf = b; state = t }))
        × IsValid b
        × (contents b ≡ contents a.buf ++ bytes)
        × (capacity b ≡ capacity a.buf)
        × (b.pos ≡ a.buf.pos)
  poll_write_bytes bufs max header {bytes} {t} same fits through taken =
      let (p, cut, taken_front) = slices_take_prefix_lem bufs max in
      let front : concat (prefix_iter p) ≡ bytes = taken_front ∙ same in
      let len : length (concat (prefix_iter p)) ≡ length bytes = ap length front in
      let (b, filled, valid, held, sized, unmoved) = buffer_up_lem p (omega arith) in
      let small = v.allocated in
      let size : bytes_len (prefix_iter p) ≡ length bytes =
        bytes_len_lem (prefix_iter p) ∙ omega arith in
      let leads : take_slices tar a.state (prefix_iter p) header ≡ ok (t, length bytes) =
        take_slices-eq-take_until tar header a.state (prefix_iter p)
        ∙ (ap (λ (xs : List ℕ). take_until tar a.state stops xs header) front ∙ taken) in
      (
        b,
        poll_write_parts bufs max header p (length bytes) t b cut size leads through
            (make_room_lem (length bytes) fits)
            (filled ∙ ap (λ (n : ℕ). (ready n, record a { buf = b })) len),
        valid,
        held ∙ ap (λ (xs : List ℕ). contents a.buf ++ xs) front,
        sized,
        unmoved,
      )

  -- Slices of which the first `max` bytes fit into the free part of a valid buffer, are not passed
  -- through, and lead the state to `t` are written whole: just these bytes, in order, are appended to
  -- the contents, their number is returned, and the state is `t`. The sink is not touched.
  pub poll_write_vectored_buffered :
      (bufs : List Slice) (max : ℕ) (header : Option Header) {t : State}
      → length (take max (concat bufs)) ≤ capacity a.buf - a.buf.cap
      → can_pass_through tar sink (length (take max (concat bufs))) a ≡ false
      → take_until tar a.state stops (take max (concat bufs)) header
        ≡ ok (t, length (take max (concat bufs)))
      → (b : Buf) × (poll_write_vectored tar sink bufs max header a
          ≡ (ready (length (take max (concat bufs))), record a { buf = b; state = t }))
        × IsValid b
        × (contents b ≡ contents a.buf ++ take max (concat bufs))
        × (capacity b ≡ capacity a.buf)
        × (b.pos ≡ a.buf.pos)
  poll_write_vectored_buffered bufs max header fits through taken =
      poll_write_bytes bufs max header refl fits through taken

  pub poll_write_data_buffered :
      (bytes : List ℕ) (header : Option Header) {t : State}
      → length bytes ≤ capacity a.buf - a.buf.cap
      → can_pass_through tar sink (length bytes) a ≡ false
      → take_until tar a.state stops bytes header ≡ ok (t, length bytes)
      → (b : Buf) × (poll_write_data tar sink bytes header a
          ≡ (ready (length bytes), record a { buf = b; state = t }))
        × IsValid b
        × (contents b ≡ contents a.buf ++ bytes)
        × (capacity b ≡ capacity a.buf)
        × (b.pos ≡ a.buf.pos)
  unfolding poll_write_data
  poll_write_data_buffered bytes header fits through taken =
      poll_write_bytes (bytes ∷ []) (length bytes) header (take-append_self bytes []) fits through
        taken
