-- ===== src/Read/Fill.antt =====
-- `Archive::poll_fill_buf` of src/read/mod.rs against a source that says what it still holds.
use tario.Prelude.{
  true, false, append_assoc, Bool, length-append, refl, ◌∷◌, nil_of_length, ◌==◌, append-nil,
  is_empty-some, ℕ, ◌+◌, ◌-◌, ◌≤◌, ◌<◌, ◌≡◌, ap, inl, inr, not, ◌&&◌, List, [], ◌++◌, arith,
  if◌then◌else◌, Bool-cases, length, drop, is_empty, length-drop,
}
use tario.Io.Error.{simple, ErrorKind}
use tario.Io.Result.{ok}
use tario.Io.Poll.{asks, Poll, ready, failed, pending, panicked, Call, ◌>>=◌, ◌>>◌, done, pass}
use tario.Block.{Tar}
use tario.Buffer.{usize_size, available, available_bytes_mut, write_at, capacity}
use tario.Buffer.Contents.{buffered_bytes_lem, IsValid, contents, commit_lem, write_at_lem}
use tario.Buffer.Room.{
  IsReady, stored, filled_up, filled_up_lem, drained, available_lem, stored_lem, stored_none,
}
use tario.State.{State, is_terminal}
use mathlib.Core.Path.{sym, subst}
use tario.Archive.{Archive}
use tario.Read.Buffered.{poll_fill_buf_ready}
use tario.Read.Calls.{poll_fill_buf, stores, AsyncRead, refill, commits, check_eof}

-- A poll of a source with room for so many bytes gives some first bytes of those that it holds.
abbrev pub Gives : {R : Type 0} → (R → List ℕ) → ℕ → R → Poll (List ℕ) × R → Type 0
Gives left room r (ready got, r') = (length got ≤ room) × (left r ≡ got ++ left r')
Gives left room r (failed e, r') = left r' ≡ left r
Gives left room r (pending, r') = left r' ≡ left r
Gives left room r (panicked p, r') = ⊥

-- What a fill ends with: bytes in the buffer, or none at the end of the archive; it does not panic.
abbrev pub Filled : Poll (Unit {0}) → List ℕ → State → Type 0
Filled (ready _) bytes s = (not (is_terminal s) && is_empty bytes) ≡ false
Filled (failed e) bytes s = Unit {0}
Filled pending bytes s = Unit {0}
Filled (panicked p) bytes s = ⊥

-- A call after which the bytes buffered and the bytes to come are together what they were before.
abbrev pub Fills : {R : Type 0} → (R → List ℕ) → Archive R → Poll (Unit {0}) × Archive R → Type 0
Fills left a (r, a') =
    (contents a'.buf ++ left a'.io ≡ contents a.buf ++ left a.io)
    × IsReady a'.buf
    × (a'.state ≡ a.state)
    × Filled r (contents a'.buf) a.state

module _ {R : Type 0} (tar : Tar) (source : AsyncRead R) where
  -- What `refill` does with the bytes that the poll gave.
  abbrev pub puts : List ℕ → Call (Archive R) (Unit {0})
  puts got = do
    stores tar source got
    s ← asks (λ a. ok a.state)
    left ← asks (λ a. available_bytes_mut a.buf)
    if is_empty got then check_eof tar source left s else done tt
    commits tar source (length got)

  commits_lem :
      (a : Archive R) (n : ℕ)
      → a.buf.cap + n < usize_size
      → commits tar source n a ≡ (ready tt, record a { buf = record a.buf { cap = a.buf.cap + n } })
  unfolding commits
  commits_lem a n small = rw (commits, commit_lem (available a.buf) n small)

  pub refill_lem :
      (a : Archive R) {o : Poll (List ℕ) × R}
      → IsReady a.buf
      → source.poll_read (capacity a.buf - a.buf.cap) a.io ≡ o
      → refill tar source a ≡ pass (o.0, record a { io = o.1 }) puts
  unfolding refill
  refill_lem a r e = rw (available_lem r, length-drop a.buf.cap a.buf.bytes, e)

  pub puts_some :
      (a : Archive R) (got : List ℕ)
      → IsReady a.buf
      → 0 < length got
      → length got ≤ capacity a.buf - a.buf.cap
      → puts got a ≡ (ready tt, record a { buf = filled_up a.buf got })
  puts_some a got r some_bytes fits =
      let inside = r.valid.inside in
      let allocated = r.valid.allocated in
      let test : is_empty got ≡ false = is_empty-some got some_bytes in
      let stores = record a { buf = stored a.buf got } in
      rw (stored_lem got r fits, test, commits_lem stores (length got) (omega arith))

  pub puts_none :
      (a : Archive R)
      → IsReady a.buf
      → length (contents a.buf) ≡ 0
      → puts [] a ≡ (
          if is_terminal a.state
          then (ready tt, record a { buf = filled_up a.buf [] })
          else (failed (simple ErrorKind.unexpected_eof), record a { buf = stored a.buf [] }))
  unfolding check_eof
  puts_none a r none_left =
      let inside = r.valid.inside in
      let allocated = r.valid.allocated in
      let roomy = r.roomy in
      let start = drained r none_left in
      let stores = record a { buf = stored a.buf [] } in
      let (sized, view) = write_at_lem a.buf.bytes a.buf.cap [] (omega arith) in
      let room : is_empty (drop a.buf.cap (write_at a.buf.bytes a.buf.cap [])) ≡ false =
        is_empty-some (drop a.buf.cap (write_at a.buf.bytes a.buf.cap []))
          (omega (arith, length-drop a.buf.cap (write_at a.buf.bytes a.buf.cap []))) in
      rw (stored_lem [] r (omega arith), room)
        (elim (Bool-cases (is_terminal a.state)) [
          | inl z ↦ rw (z, commits_lem stores 0 (omega arith))
          | inr z ↦ rw z
        ])

  pub poll_fill_buf_refills :
      (a : Archive R)
      → IsValid a.buf
      → length (contents a.buf) ≡ 0
      → poll_fill_buf tar source a ≡ refill tar source a
  unfolding poll_fill_buf
  poll_fill_buf_refills a v none_left =
      rw (buffered_bytes_lem v, nil_of_length (contents a.buf) none_left)

  module _ (left : R → List ℕ)
      (law : (room : ℕ) (r : R) → Gives left room r (source.poll_read room r)) where
    fills_some : (s : State) (bytes : List ℕ) → 0 < length bytes → Filled (ready tt) bytes s
    fills_some s bytes held = let test = is_empty-some bytes held in ground arith

    -- The source has given no bytes.
    ends_or_fails :
        (a : Archive R) (io : R)
        → IsReady a.buf
        → length (contents a.buf) ≡ 0
        → left a.io ≡ left io
        → (terminal : Bool) → is_terminal a.state ≡ terminal
        → Fills left a (
            if terminal then (ready tt, record a { buf = filled_up a.buf []; io = io }) else (
              failed (simple ErrorKind.unexpected_eof),
              record a { buf = stored a.buf []; io = io },
            ))
    ends_or_fails a io r none_left gave true e =
        let (after, view) = filled_up_lem [] r (omega arith) in
        (rw (view, append-nil, gave), after, refl, rw e)
    ends_or_fails a io r none_left gave false e =
        let (after, view) = stored_none r none_left in (rw (view, gave), after, refl, tt)

    refill-Fills :
        (a : Archive R)
        → IsReady a.buf
        → length (contents a.buf) ≡ 0
        → (o : Poll (List ℕ) × R) → source.poll_read (capacity a.buf - a.buf.cap) a.io ≡ o
        → Gives left (capacity a.buf - a.buf.cap) a.io o
        → Fills left a (refill tar source a)
    refill-Fills a r none_left (ready [], io) e (fits, gave) =
        subst (Fills left a) (sym (refill_lem a r e)) (
          subst (Fills left a) (sym (puts_none (record a { io = io }) r none_left))
            (ends_or_fails a io r none_left gave (is_terminal a.state) refl))
    refill-Fills a r none_left (ready (x ∷ xs), io) e (fits, gave) =
        let (after, view) = filled_up_lem (x ∷ xs) r fits in
        let len = length-append (contents a.buf) (x ∷ xs) in
        let held : 0 < length (contents (filled_up a.buf (x ∷ xs))) =
          omega (arith, ap length view) in
        subst (Fills left a) (sym (refill_lem a r e)) (
          subst (Fills left a)
            (sym (puts_some (record a { io = io }) (x ∷ xs) r (omega arith) fits))
            (
              rw (view, gave, append_assoc),
              after,
              refl,
              fills_some a.state (contents (filled_up a.buf (x ∷ xs))) held,
            ))
    refill-Fills a r none_left (failed err, io) e kept =
        subst (Fills left a) (sym (refill_lem a r e))
          (ap (λ (xs : List ℕ). contents a.buf ++ xs) kept, r, refl, tt)
    refill-Fills a r none_left (pending, io) e kept =
        subst (Fills left a) (sym (refill_lem a r e))
          (ap (λ (xs : List ℕ). contents a.buf ++ xs) kept, r, refl, tt)
    refill-Fills a r none_left (panicked p, io) e never = absurd never

    -- A fill of a buffer that is valid, of a size that is a positive multiple of 512, and reset when
    -- drained, against a source that gives the bytes it holds in order: the bytes buffered and the bytes
    -- to come are together what they were, on every outcome; the state stays; if it is ready then bytes
    -- are buffered, or the archive has ended. It does not panic, and the buffer can be filled again.
    pub poll_fill_buf-Fills :
        (a : Archive R) → IsReady a.buf → Fills left a (poll_fill_buf tar source a)
    poll_fill_buf-Fills a r = elim (Bool-cases (length (contents a.buf) == 0)) [
      | inl z ↦
          let none_left : length (contents a.buf) ≡ 0 = ground arith in
          subst (Fills left a) (sym (poll_fill_buf_refills a r.valid none_left)) (
            refill-Fills a r none_left (source.poll_read (capacity a.buf - a.buf.cap) a.io) refl
              (law (capacity a.buf - a.buf.cap) a.io))
      | inr z ↦
          let held : 0 < length (contents a.buf) = ground arith in
          subst (Fills left a) (sym (poll_fill_buf_ready tar source a r.valid held))
            (refl, r, refl, fills_some a.state (contents a.buf) held)
    ]
