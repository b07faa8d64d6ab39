-- ===== src/Read/Buffered.antt =====
-- The reading methods while the buffer holds bytes, so that nothing is polled; and `consume`.
use tario.Prelude.{
  ap, ◌∙◌, ℕ, ◌+◌, ◌-◌, ◌≤◌, ◌<◌, ◌≡◌, refl, sym, inl, inr, true, Option, [], ◌∷◌, arith, leb, ◌==◌,
  Bool-cases, length, take, drop, drop_all,
}
use tario.Io.Result.{Result, ok, slice_to_lem}
use tario.Io.Poll.{ready, of_result}
use tario.Block.{Header, Tar}
use tario.Buffer.{Buf, Region, after_read, clear, commit, region_is_empty}
use tario.Buffer.Contents.{
  IsValid, contents, length-contents, buffered_bytes_lem, buffered_lem, commit_lem, after_read_lem,
  clear_lem, shown, region_is_empty_lem,
}
use tario.State.{State, next, take_slices}
use tario.Archive.{Archive}
use tario.Read.Consume.{settle, advance_buf, consume}
use tario.Read.Calls.{AsyncRead, poll_fill_buf, poll_next_state}

module _ {R : Type 0} (tar : Tar) (source : AsyncRead R) (a : Archive R) (v : IsValid a.buf) where
  -- A buffer that holds bytes is not filled.
  pub poll_fill_buf_ready : 0 < length (contents a.buf) → poll_fill_buf tar source a ≡ (ready tt, a)
  unfolding poll_fill_buf
  poll_fill_buf_ready h = ground (arith, buffered_bytes_lem v)

  -- The next state is that of the buffered bytes, and the archive is left as it is.
  pub poll_next_state_ready :
      (header : Option Header)
      → 0 < length (contents a.buf)
      → poll_next_state tar source header a
        ≡ (of_result (next tar a.state (contents a.buf) header), a)
  unfolding poll_next_state
  poll_next_state_ready header h = ground (arith, poll_fill_buf_ready h, buffered_bytes_lem v)

  pub poll_next_state_ok :
      (header : Option Header) {r : State × ℕ}
      → 0 < length (contents a.buf)
      → next tar a.state (contents a.buf) header ≡ ok r
      → poll_next_state tar source header a ≡ (ready r, a)
  poll_next_state_ok header h e =
      poll_next_state_ready header h ∙ ap (λ (r : Result (State × ℕ)). (of_result r, a)) e

-- The buffer after `amt` bytes have been read.
abbrev pub Advanced : Buf → ℕ → Result Buf → Type 0
Advanced b amt r =
    (b' : Buf) × (r ≡ ok b')
    × IsValid b'
    × (contents b' ≡ drop amt (contents b))
    × (length b'.bytes ≡ length b.bytes)
    × (b'.pos ≡ b'.cap → b'.cap ≡ 0)

advance_buf-Advanced :
    (b : Buf) (amt : ℕ)
    → IsValid b
    → amt ≤ length (contents b)
    → Advanced b amt (advance_buf b (shown b) amt)
unfolding advance_buf
advance_buf-Advanced b amt v h =
    let size = length-contents v in
    let moved : Region = record { bytes = take b.cap b.bytes; cursor = b.pos + amt } in
    let (kept, left) = after_read_lem moved amt v refl h in
    let committed : commit (shown b) amt ≡ ok moved = commit_lem (shown b) amt (omega arith) in
    let empties : region_is_empty moved ≡ ok (b.cap - (b.pos + amt) == 0) =
      region_is_empty_lem moved v refl (omega arith) in
    elim (Bool-cases (b.cap - (b.pos + amt) == 0)) [
      | inl z ↦
          let (valid, emptied) = clear_lem kept in
          (
            clear (after_read b moved),
            rw (committed, empties, z),
            valid,
            sym (drop_all amt (contents b) (ground arith)),
            refl,
            λ _. refl,
          )
      | inr z ↦ (
        after_read b moved,
        rw (committed, empties, z),
        kept,
        left,
        refl,
        λ e. absurd (ground arith),
      )
    ]

-- `consume` of `amt` bytes that a valid buffer holds, where `take_slices` leads over all of them to
-- `t` and that settles in `u`: it does not panic, the state is `u`, exactly these bytes are gone from
-- the contents, the buffer stays valid and of its size, and it is reset when it is drained.
pub consume_lem :
    {R : Type 0} (tar : Tar) (a : Archive R) (amt : ℕ) (header : Option Header) {t u : State}
    → IsValid a.buf
    → amt ≤ length (contents a.buf)
    → take_slices tar a.state (take amt (contents a.buf) ∷ []) header ≡ ok (t, amt)
    → settle tar t header ≡ ok u
    → (b : Buf) × (consume tar a amt header ≡ ok (record a { buf = b; state = u }))
      × IsValid b
      × (contents b ≡ drop amt (contents a.buf))
      × (length b.bytes ≡ length a.buf.bytes)
      × (b.pos ≡ b.cap → b.cap ≡ 0)
unfolding consume
consume_lem tar a amt header {t} {u} v h e s =
    let (b, moved, valid, left, sized, normal) = advance_buf-Advanced a.buf amt v h in
    let (region, size, bytes) = buffered_lem v in
    let fits : leb amt (length (contents a.buf)) ≡ true = ground arith in
    let all : (amt == amt) ≡ true = ground arith in
    (
      b,
      rw (region, size, fits, bytes, slice_to_lem (contents a.buf) amt h, e, s, all, moved),
      valid,
      left,
      sized,
      normal,
    )
