-- ===== src/Read/Data.antt =====
-- Reading the data of an entry: what a reader is given, and what is left.
use tario.Prelude.{
  ℕ, suc, ◌+◌, ◌-◌, ◌≤◌, ◌<◌, min, ◌≡◌, ◌∙◌, inl, inr, false, Option, some, List, [], ◌∷◌, arith,
  ◌==◌, if◌then◌else◌, Bool-cases, length, take, drop, length-take, take-take,
}
use tario.Io.Result.{ok, slice_to, slice_to_lem}
use tario.Io.Poll.{ready, ◌>>◌, done, pass_of}
use tario.Block.{Header, Tar, block_size}
use tario.Buffer.{Buf, capacity}
use tario.Buffer.Contents.{IsValid, contents, buffered_bytes_lem}
use tario.State.{
  State, receiving_data, received_data, aligning_data, next, entry_size, take_slices, u64_size,
}
use tario.State.Layout.{padding, next_pad}
use tario.State.Taken.{take_slices_data}
use tario.Archive.{Archive, Entry}
use tario.Read.Consume.{passes_on, settle, consume}
use tario.Read.Calls.{
  entry_consume, AsyncRead, poll_read_entry, read_entry_loop, on_read_entry, poll_read, consumes,
}
use tario.Read.Buffered.{poll_next_state_ok, consume_lem}

-- The state in which the data of an entry stand once `n` of the `rem` bytes left are consumed.
abbrev pub data_after : ℕ → ℕ → ℕ → State
data_after size rem n = if n == rem then aligning_data (padding size) else receiving_data (rem - n)

pub consumes_lem :
    {R : Type 0} (tar : Tar) (source : AsyncRead R) (a : Archive R) (n : ℕ) (header : Option Header)
    {a' : Archive R}
    → consume tar a n header ≡ ok a'
    → consumes tar source n header a ≡ (ready tt, a')
unfolding consumes
consumes_lem tar source a n header moved = rw (consumes, moved)

-- `poll_read` by its parts: what is shown, and the archive once as much of it as fits is consumed.
pub poll_read_parts :
    {R : Type 0} (tar : Tar) (source : AsyncRead R) (a b a' : Archive R) (e : Entry) (room : ℕ)
    (got : List ℕ) {n : ℕ}
    → 0 < room
    → poll_read_entry tar source e a ≡ (ready got, b)
    → min (length got) room ≡ n
    → consume tar b n (some e) ≡ ok a'
    → poll_read tar source e room a ≡ (ready (take n got), a')
unfolding poll_read consumes
poll_read_parts tar source a b a' e room got {n} some_room shows same moved =
    let test : (room == 0) ≡ false = ground arith in
    rw test (
      pass_of
        (λ bytes.
          let n = min (length bytes) room in entry_consume tar source e n >> done (take n bytes))
        shows
      ∙ rw same (pass_of (λ _. done (take n got)) (consumes_lem tar source b n (some e) moved)))

module _ {R : Type 0} (tar : Tar) (source : AsyncRead R) (a : Archive R) (e : Entry)
    (v : IsValid a.buf) (rem : ℕ) (within : a.state ≡ receiving_data rem) (left : 0 < rem)
    (held : 0 < length (contents a.buf)) where
  read_entry_loop_data :
      (fuel : ℕ)
      → read_entry_loop tar source (suc fuel) e a
        ≡ (ready (take (min rem (length (contents a.buf))) (contents a.buf)), a)
  unfolding read_entry_loop on_read_entry next
  read_entry_loop_data fuel =
      let all = contents a.buf in
      let m = min rem (length all) in
      let shows : slice_to all m ≡ ok (take m all) = slice_to_lem all m (omega arith) in
      elim (Bool-cases (rem - m == 0)) [
        | inl z ↦
            pass_of (on_read_entry tar source e (read_entry_loop tar source fuel e)) (
              poll_next_state_ok tar source a v (some e) {r = (received_data, m)} held
                (rw within (rw z)))
            ∙ rw (buffered_bytes_lem v, shows)
        | inr z ↦
            pass_of (on_read_entry tar source e (read_entry_loop tar source fuel e)) (
              poll_next_state_ok tar source a v (some e) {r = (receiving_data (rem - m), m)} held
                (rw within (rw z)))
            ∙ rw (buffered_bytes_lem v, shows)
      ]

  -- In the data of an entry `poll_read_entry` shows the buffered bytes of the entry, and takes none.
  pub poll_read_entry_data :
      poll_read_entry tar source e a
      ≡ (ready (take (min rem (length (contents a.buf))) (contents a.buf)), a)
  unfolding poll_read_entry
  poll_read_entry_data = read_entry_loop_data 1023

  settle_data :
      (size n : ℕ)
      → entry_size tar (some e) ≡ ok size
      → size + block_size ≤ u64_size
      → 0 < n
      → n ≤ rem
      → settle tar (if n == rem then received_data else receiving_data (rem - n)) (some e)
        ≡ ok (data_after size rem n)
  unfolding settle passes_on
  settle_data size n sized small some_bytes fits = elim (Bool-cases (n == rem)) [
    | inl z ↦ rw (z, next_pad tar (some e) size [] sized small)
    | inr z ↦ let more : (rem - n == 0) ≡ false = ground arith in rw (z, more)
  ]

  pub consume_data :
      (size n : ℕ)
      → entry_size tar (some e) ≡ ok size
      → size + block_size ≤ u64_size
      → 0 < n
      → n ≤ min rem (length (contents a.buf))
      → (b : Buf) × (consume tar a n (some e)
          ≡ ok (record a { buf = b; state = data_after size rem n }))
        × IsValid b
        × (contents b ≡ drop n (contents a.buf))
        × (capacity b ≡ capacity a.buf)
        × (b.pos ≡ b.cap → b.cap ≡ 0)
  consume_data size n sized small some_bytes fits =
      let all = contents a.buf in
      let short : length (take n all) ≡ n = omega (arith, length-take n all) in
      let taken : take_slices tar (receiving_data rem) (take n all ∷ []) (some e)
          ≡ ok (if n == rem then received_data else receiving_data (rem - n), n) =
        rw short at (take_slices_data tar (some e) rem (take n all) (omega arith) (omega arith)) in
      consume_lem tar a n (some e)
        {t = if n == rem then received_data else receiving_data (rem - n)}
        {u = data_after size rem n} v (omega arith) (rw within taken)
        (settle_data size n sized small some_bytes (omega arith))

  -- `poll_read` in an entry with data left, on a valid buffer that holds bytes, with room for some, and
  -- a header that states a size of at most 2^64 - 512: it gives the next bytes of the stream, as many
  -- as are buffered, belong to the entry and fit, and leaves exactly the others in a valid buffer of
  -- the same size. The state then waits for the rest of the data, or after the last byte for the padding. The source
  -- object is as it was, and the buffer is reset when it is drained.
  pub poll_read_data :
      (size room : ℕ)
      → entry_size tar (some e) ≡ ok size
      → size + block_size ≤ u64_size
      → 0 < room
      → let n = min room (min rem (length (contents a.buf))) in
        (b : Buf) × (poll_read tar source e room a
          ≡ (ready (take n (contents a.buf)), record a { buf = b; state = data_after size rem n }))
        × IsValid b
        × (contents b ≡ drop n (contents a.buf))
        × (capacity b ≡ capacity a.buf)
        × (b.pos ≡ b.cap → b.cap ≡ 0)
  poll_read_data size room sized small some_room =
      let all = contents a.buf in
      let n = min room (min rem (length all)) in
      let same : min (length (take (min rem (length all)) all)) room ≡ n =
        omega (arith, length-take (min rem (length all)) all) in
      let (b, moved, valid, rest, sized', normal) =
        consume_data size n sized small (omega arith) (omega arith) in
      (
        b,
        poll_read_parts tar source a a (record a { buf = b; state = data_after size rem n }) e room
              (take (min rem (length all)) all) some_room poll_read_entry_data same moved
            ∙ rw (take-take n (min rem (length all)) all (omega arith)),
        valid,
        rest,
        sized',
        normal,
      )
