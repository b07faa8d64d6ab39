-- ===== src/Read/Stream.antt =====
-- Reading from a source that is always ready, as from a slice of bytes or a file in memory.
use tario.Prelude.{
  ◌%◌, ℕ, ◌-◌, ◌≤◌, ◌<◌, ◌≡◌, refl, sym, ap, ◌∙◌, inl, inr, Option, List, ◌++◌, append_assoc, arith,
  ◌==◌, Bool-cases, length, length-append,
}
use tario.Io.Poll.{ready, pass_of, asks, ◌>>=◌}
use tario.Block.{block_size, Header, Tar}
use tario.Buffer.{Buf, capacity, buffered_bytes}
use tario.Buffer.Contents.{contents}
use tario.Buffer.Room.{IsReady, filled_up, filled_up_lem, drained}
use tario.State.{next}
use tario.Archive.{Archive}
use tario.Read.Buffered.{poll_fill_buf_ready}
use tario.Read.Calls.{AsyncRead, poll_fill_buf, poll_next_state}
use tario.Read.Fill.{puts_some, refill_lem, poll_fill_buf_refills}

-- A poll with room for some blocks is ready with first bytes of those that are left, and with some if
-- any are. It may rely on what `good` says of the object and keeps that.
abbrev pub Streams : {R : Type 0} → AsyncRead R → (R → List ℕ) → (R → Type 0) → Type 0
Streams {R} source left good =
    (room : ℕ) (r : R)
    → 0 < room
    → room % block_size ≡ 0
    → good r
    → (got : List ℕ) × (r' : R) × (source.poll_read room r ≡ (ready got, r'))
      × (length got ≤ room)
      × (left r ≡ got ++ left r')
      × (0 < length (left r) → 0 < length got)
      × good r'

-- The bytes that an archive has still to read.
abbrev pub stream : {R : Type 0} → (R → List ℕ) → Archive R → List ℕ
stream left a = contents a.buf ++ left a.io

-- The archive once its buffer holds bytes.
abbrev pub Refilled :
    {R : Type 0} → AsyncRead R → (R → List ℕ) → (R → Type 0) → Tar → Archive R → Type 0
Refilled {R} source left good tar a =
    (b : Buf) × (io : R) × (poll_fill_buf tar source a ≡ (ready tt, record a { buf = b; io = io }))
    × IsReady b
    × good io
    × (0 < length (contents b))
    × (contents b ++ left io ≡ stream left a)

module _ {R : Type 0} (tar : Tar) (source : AsyncRead R) (left : R → List ℕ) (good : R → Type 0)
    (law : Streams source left good) where
  refill_some :
      (a : Archive R)
      → IsReady a.buf
      → good a.io
      → length (contents a.buf) ≡ 0
      → 0 < length (left a.io)
      → Refilled source left good tar a
  refill_some a r g none_left more =
      let start = drained r none_left in
      let roomy = r.roomy in
      let all : capacity a.buf - a.buf.cap ≡ capacity a.buf = omega arith in
      let (got, io, polled, fits, gave, some_bytes, g') =
        law (capacity a.buf - a.buf.cap) a.io (omega arith)
          (ap (λ (n : ℕ). n % block_size) all ∙ r.blocks) g in
      let (after, view) = filled_up_lem got r fits in
      (
        filled_up a.buf got,
        io,
        poll_fill_buf_refills tar source a r.valid none_left
            ∙ (refill_lem tar source a r polled
                ∙ puts_some tar source (record a { io = io }) got r (some_bytes more) fits),
        after,
        g',
        omega (arith, ap length view, length-append (contents a.buf) got, some_bytes more),
        rw (view, gave, append_assoc),
      )

  pub fill_some :
      (a : Archive R)
      → IsReady a.buf
      → good a.io
      → 0 < length (stream left a)
      → Refilled source left good tar a
  fill_some a r g more = elim (Bool-cases (length (contents a.buf) == 0)) [
    | inl z ↦
        let none_left : length (contents a.buf) ≡ 0 = ground arith in
        refill_some a r g none_left (omega (arith, length-append (contents a.buf) (left a.io)))
    | inr z ↦
        let held : 0 < length (contents a.buf) = ground arith in
        (a.buf, a.io, poll_fill_buf_ready tar source a r.valid held, r, g, held, refl)
  ]

module _ {R : Type 0} (tar : Tar) (source : AsyncRead R) where
  -- From there on the loops go as they do on the buffer that holds bytes.
  pub poll_next_state_refilled :
      (a a' : Archive R) (header : Option Header)
      → IsReady a'.buf
      → 0 < length (contents a'.buf)
      → poll_fill_buf tar source a ≡ (ready tt, a')
      → poll_next_state tar source header a ≡ poll_next_state tar source header a'
  unfolding poll_next_state
  poll_next_state_refilled a a' header r held filled =
      let rest = λ (_ : Unit {0}).
        asks (λ b. buffered_bytes b.buf)
        >>= (λ bytes. asks (λ (b : Archive R). next tar b.state bytes header)) in
      pass_of rest filled ∙ sym (pass_of rest (poll_fill_buf_ready tar source a' r.valid held))
