-- ===== src/Read/Pending/Fill.antt =====
-- The calls of src/read/mod.rs that read into the buffer, made again after they were pending.
use tario.Prelude.{
  List, ℕ, List, ℕ, List, ℕ, List, ℕ, List, ℕ, List, ℕ, List, ℕ, List, ℕ, ℕ, ◌≤◌, ◌≡◌, refl, sym,
  ap, ◌∙◌, inl, inr, true, Option, List, arith, if◌then◌else◌, Bool-cases, length, is_empty,
}
use tario.Archive.Waits.{waits_in, on_io-Meets}
use tario.Io.Waited.{Awaited}
use tario.Io.Poll.{
  Poll, ready, failed, panicked, Call, pass, pass_of, ◌>>=◌, ◌>>◌, done, asks, of_result,
}
use tario.Io.Result.{Result, Result-cases, ok, err, panic}
use tario.Io.Await.{Meets, Stays, here-Meets, Meets-change, bind-Meets, result-Stays}
use tario.Block.{Header, Tar}
use tario.Buffer.{buffered_bytes, available_bytes_mut}
use tario.State.{State, next}
use tario.Archive.{Archive}
use tario.Read.Consume.{consume}
use tario.Read.Calls.{
  AsyncRead, poll_fill_buf, refill, reads, stores, commits, check_eof, consumes, poll_next_state,
}
use mathlib.Core.Path.{subst}
use tario.Read.Pending.Source.{blocking}

-- A result that leaves the source object of the archive.
abbrev KeepsIo : {R : Type 0} → R → Result (Archive R) → Type 0
KeepsIo io (ok a) = a.io ≡ io
KeepsIo io (err e) = Unit {0}
KeepsIo io (panic p) = Unit {0}

module _ {R : Type 0} (tar : Tar) where
  consume-KeepsIo :
      (a : Archive R) (n : ℕ) (header : Option Header) → KeepsIo a.io (consume tar a n header)
  unfolding consume
  consume-KeepsIo a n header = ground arith

refills :
    {R : Type 0} (tar : Tar) (source : AsyncRead R) (a : Archive R) {bytes : List ℕ}
    → buffered_bytes a.buf ≡ ok bytes
    → is_empty bytes ≡ true
    → poll_fill_buf tar source a ≡ refill tar source a
unfolding poll_fill_buf
refills tar source a e z = rw (e, z)

module _ {R : Type 0} (tar : Tar) (source : AsyncRead R) (waits : R → ℕ) where
  abbrev waiting : AsyncRead R
  waiting = blocking source waits

  abbrev replaced : Archive R → Result (Archive R) → Poll (Unit {0}) × Archive R
  replaced a (ok b) = (ready tt, b)
  replaced a (err e) = (failed e, a)
  replaced a (panic p) = (panicked p, a)

  consumed-Stays :
      (a : Archive R) (v : ℕ) (r : Result (Archive R))
      → KeepsIo a.io r
      → waits a.io ≤ v
      → Stays (waits_in waits) v (replaced a r)
  consumed-Stays a v (ok b) same kept = omega (arith, ap waits same)
  consumed-Stays a v (err e) same kept = kept
  consumed-Stays a v (panic p) same kept = kept

  pub consumes-Stays :
      (a : Archive R) (v n : ℕ) (header : Option Header)
      → waits a.io ≤ v
      → Stays (waits_in waits) v (consumes tar source n header a)
  unfolding consumes
  consumes-Stays a v n header kept =
      consumed-Stays a v (consume tar a n header) (consume-KeepsIo tar a n header) kept

  -- A call that works on the archive alone, whichever the source.
  pub consumes-Meets :
      (later : Archive R → Type 0) (a : Archive R) (v n : ℕ) (header : Option Header)
      → waits a.io ≤ v
      → Meets
          (waits_in waits)
          v
          later
          (consumes tar source n header a)
          (consumes tar waiting n header a)
  unfolding consumes
  consumes-Meets later a v n header kept =
      here-Meets (waits_in waits) v later (consumes tar source n header a)
        (consumes tar waiting n header a) (consumes-Stays a v n header kept) refl

  pub asks-Meets :
      {A : Type 0} (later : Archive R → Type 0) (a : Archive R) (v : ℕ) (r : Result A)
      → waits a.io ≤ v
      → Meets (waits_in waits) v later (of_result r, a) (of_result r, a)
  asks-Meets later a v r kept =
      here-Meets (waits_in waits) v later (of_result r, a) (of_result r, a)
        (result-Stays (waits_in waits) v r a kept) refl

  -- The part of `refill` behind the poll.
  abbrev puts_back : List ℕ → Call (Archive R) (Unit {0})
  puts_back got = do
    stores tar source got
    s ← asks (λ a. ok a.state)
    left ← asks (λ a. available_bytes_mut a.buf)
    if is_empty got then check_eof tar source left s else done tt
    commits tar source (length got)

  puts_back-Stays :
      (a : Archive R) (v : ℕ) (got : List ℕ)
      → waits a.io ≤ v
      → Stays (waits_in waits) v (puts_back got a)
  unfolding check_eof commits
  puts_back-Stays a v got kept = ground arith

  module _ (law : (room : ℕ) (r : R) → Awaited waits (waits r) (source.poll_read room r)) where
    reads-Meets :
        (room : ℕ) (a : Archive R)
        → Meets
            (waits_in waits)
            (waits a.io)
            (λ (b : Archive R).
              (io : R) × (b ≡ record a { io = io })
              × (waiting.poll_read room io ≡ waiting.poll_read room a.io))
            (reads tar source room a)
            (reads tar waiting room a)
    reads-Meets room a = on_io-Meets waits (source.poll_read room) (law room) a

    -- With the buffer as it was, a refill goes on where the source object is.
    refill_at :
        (a : Archive R) (io : R) (room : List ℕ)
        → available_bytes_mut a.buf ≡ ok room
        → waiting.poll_read (length room) io ≡ waiting.poll_read (length room) a.io
        → refill tar waiting (record a { io = io }) ≡ refill tar waiting a
    unfolding refill
    refill_at a io room e same = rw (e, same)

    refill-Meets :
        (a : Archive R)
        → Meets
            (waits_in waits)
            (waits a.io)
            (λ (b : Archive R). (b.buf ≡ a.buf) × (refill tar waiting b ≡ refill tar waiting a))
            (refill tar source a)
            (refill tar waiting a)
    unfolding refill check_eof commits
    refill-Meets a = elim (Result-cases (available_bytes_mut a.buf)) [
      | inl (room, e) ↦
          let n = length room in
          let later =
            λ (b : Archive R). (b.buf ≡ a.buf) × (refill tar waiting b ≡ refill tar waiting a) in
          let later' = λ (b : Archive R).
            (b.buf ≡ a.buf) × (refill tar waiting b ≡ pass (reads tar waiting n a) puts_back) in
          rw e (
            bind-Meets (waits_in waits) (waits a.io) {later = later'} (reads tar source n a)
              (reads tar waiting n a) puts_back puts_back (reads-Meets n a)
              (λ b (io, at_io, same). (
                ap (λ (c : Archive R). c.buf) at_io,
                ap (refill tar waiting) at_io ∙ (refill_at a io room e same ∙ rw e refl),
              ))
              (λ got b same kept.
                here-Meets (waits_in waits) (waits a.io) later' (puts_back got b) (puts_back got b)
                  (puts_back-Stays b (waits a.io) got kept) refl))
      | inr (inl (x, e)) ↦ rw e (refl, omega arith)
      | inr (inr (p, e)) ↦ rw e (refl, omega arith)
    ]

    pub poll_fill_buf-Meets :
        (a : Archive R)
        → Meets
            (waits_in waits)
            (waits a.io)
            (λ (b : Archive R). poll_fill_buf tar waiting b ≡ poll_fill_buf tar waiting a)
            (poll_fill_buf tar source a)
            (poll_fill_buf tar waiting a)
    unfolding poll_fill_buf
    poll_fill_buf-Meets a = elim (Result-cases (buffered_bytes a.buf)) [
      | inl (bytes, e) ↦ elim (Bool-cases (is_empty bytes)) [
        | inl z ↦
            subst
              (λ (o : Poll (Unit {0}) × Archive R).
                Meets (waits_in waits) (waits a.io)
                  (λ (b : Archive R). poll_fill_buf tar waiting b ≡ poll_fill_buf tar waiting a) o
                  (poll_fill_buf tar waiting a))
              (sym (refills tar source a e z))
              (Meets-change (waits_in waits) (waits a.io) (waits a.io) (refill tar source a)
                (refill tar waiting a) (poll_fill_buf tar waiting a) (omega arith)
                (sym (refills tar waiting a e z))
                (λ b (kept, same).
                  refills tar waiting b (ap buffered_bytes kept ∙ e) z
                  ∙ (same ∙ sym (refills tar waiting a e z)))
                (refill-Meets a))
        | inr z ↦ rw (e, z) (refl, omega arith)
      ]
      | inr (inl (x, e)) ↦ rw e (refl, omega arith)
      | inr (inr (p, e)) ↦ rw e (refl, omega arith)
    ]

    pub poll_next_state-Meets :
        (a : Archive R) (header : Option Header)
        → Meets
            (waits_in waits)
            (waits a.io)
            (λ (b : Archive R).
              poll_next_state tar waiting header b ≡ poll_next_state tar waiting header a)
            (poll_next_state tar source header a)
            (poll_next_state tar waiting header a)
    unfolding poll_next_state
    poll_next_state-Meets a header =
        let rest : Unit {0} → Call (Archive R) (State × ℕ) = λ _.
          asks (λ b. buffered_bytes b.buf)
          >>= (λ bytes. asks (λ (b : Archive R). next tar b.state bytes header)) in
        let later = λ (b : Archive R).
          poll_next_state tar waiting header b ≡ poll_next_state tar waiting header a in
        bind-Meets (waits_in waits) (waits a.io) {later = later} (poll_fill_buf tar source a)
          (poll_fill_buf tar waiting a) rest rest (poll_fill_buf-Meets a)
          (λ b same. pass_of rest same)
          (λ x b same kept.
            here-Meets (waits_in waits) (waits a.io) later (rest x b) (rest x b) (ground arith)
              refl)
