-- ===== src/Write/Pending/Data.antt =====
-- `poll_write_vectored` of src/write/mod.rs, made again after it was pending.
use mathlib.Core.Path.{subst}
use tario.Io.Result.{Result-cases, ok}
use tario.Io.Await.{bind-Meets, first-Ended, Ended, here-Meets, Meets, Stays}
use tario.Write.Pending.Flush.{make_room-Meets}
use tario.Prelude.{
  ℕ, ◌≤◌, ◌≡◌, refl, sym, ap, ◌∙◌, inl, inr, false, Option, List, arith, leb, ◌==◌, Bool-cases,
  length,
}
use tario.Io.Poll.{pass_of, Poll, Call, pass, ◌>>=◌}
use tario.Block.{Header, Tar}
use tario.Archive.{Archive}
use tario.Archive.Waits.{waits_in}
use tario.Slices.{Slice, Prefix, bytes_len, prefix_iter, slices_take_prefix}
use tario.State.{State, take_slices}
use tario.Write.Calls.{
  AsyncWrite, make_room, buffer_up, state_after, can_pass_through, poll_write_vectored,
}
use tario.Write.Ready.{and_false}
use tario.Write.Vectored.{ending, write_parts}
use tario.Write.Pending.Sink.{IsPatient, blocking_sink}

module _ {W : Type 0} (tar : Tar) (sink : AsyncWrite W)
    (narrow : (w : W) → sink.is_write_vectored w ≡ false) where
  -- What `poll_write_vectored` does once room is made.
  abbrev puts_in : State → Prefix → Option Header → Unit {0} → Call (Archive W) ℕ
  puts_in t p header _ =
      buffer_up tar sink p >>= ending tar sink t p (bytes_len (prefix_iter p)) header

  write_at :
      (a : Archive W) (bufs : List Slice) (max : ℕ) (header : Option Header) (p : Prefix)
      (t : State)
      → slices_take_prefix bufs max ≡ ok p
      → take_slices tar a.state (prefix_iter p) header ≡ ok (t, bytes_len (prefix_iter p))
      → poll_write_vectored tar sink bufs max header a
        ≡ pass (make_room tar sink (bytes_len (prefix_iter p)) false a) (puts_in t p header)
  write_at a bufs max header p t cut taken =
      let n = bytes_len (prefix_iter p) in
      let through : can_pass_through tar sink n a ≡ false =
        rw (narrow a.io) (and_false (leb (length a.buf.bytes) n)) in
      write_parts tar sink a bufs max header p n t cut refl taken ∙ rw through refl

module _ {W : Type 0} (tar : Tar) (sink : AsyncWrite W) (waits : W → ℕ)
    (law : IsPatient sink waits) where
  abbrev waiting : AsyncWrite W
  waiting = blocking_sink sink waits

  puts_in-Stays :
      (t : State) (p : Prefix) (header : Option Header) (a : Archive W) (v : ℕ)
      → waits a.io ≤ v
      → Stays (waits_in waits) v (puts_in tar sink law.narrow t p header tt a)
  unfolding buffer_up
  puts_in-Stays t p header a v kept = ground arith

  puts_in_same :
      (t : State) (p : Prefix) (header : Option Header) (a : Archive W)
      → puts_in tar sink law.narrow t p header tt a ≡ puts_in tar waiting law.narrow t p header tt a
  unfolding buffer_up state_after
  puts_in_same t p header a = refl

  -- The write, once the slices have been checked.
  write_checked :
      (a : Archive W) (bufs : List Slice) (max : ℕ) (header : Option Header) (p : Prefix)
      (t : State)
      → slices_take_prefix bufs max ≡ ok p
      → take_slices tar a.state (prefix_iter p) header ≡ ok (t, bytes_len (prefix_iter p))
      → Ended (poll_write_vectored tar waiting bufs max header a)
      → Meets
          (waits_in waits)
          (waits a.io)
          (λ (b : Archive W).
            (poll_write_vectored tar waiting bufs max header b
              ≡ poll_write_vectored tar waiting bufs max header a)
            × (b.state ≡ a.state))
          (poll_write_vectored tar sink bufs max header a)
          (poll_write_vectored tar waiting bufs max header a)
  write_checked a bufs max header p t cut taken ended =
      let n = bytes_len (prefix_iter p) in
      let whole = poll_write_vectored tar waiting bufs max header in
      let at = write_at tar waiting law.narrow a bufs max header p t cut taken in
      let later = λ (b : Archive W). (whole b ≡ whole a) × (b.state ≡ a.state) in
      let first = make_room tar waiting n false a in
      let on = puts_in tar sink law.narrow t p header in
      let on' = puts_in tar waiting law.narrow t p header in
      subst (λ (o : Poll ℕ × Archive W). Meets (waits_in waits) (waits a.io) later o (whole a))
        (sym (write_at tar sink law.narrow a bufs max header p t cut taken))
        (subst
          (λ (q : Poll ℕ × Archive W).
            Meets (waits_in waits) (waits a.io) later (pass (make_room tar sink n false a) on) q)
          (sym at)
          (bind-Meets (waits_in waits) (waits a.io) {later = later} (make_room tar sink n false a)
            first on on'
            (make_room-Meets tar sink waits law n a (first-Ended first on' (subst Ended at ended)))
            (λ b (same, is). (
              write_at tar waiting law.narrow b bufs max header p t cut
                    (ap (λ (s : State). take_slices tar s (prefix_iter p) header) is.0 ∙ taken)
                  ∙ (pass_of on' same ∙ sym at),
              is.0,
            ))
            (λ x b same kept.
              here-Meets (waits_in waits) (waits a.io) later (on x b) (on' x b)
                (puts_in-Stays t p header b (waits a.io) kept) (puts_in_same t p header b))))

  -- A write that is pending is made again from there, in the same state.
  pub poll_write_vectored-Meets :
      (a : Archive W) (bufs : List Slice) (max : ℕ) (header : Option Header)
      → Ended (poll_write_vectored tar waiting bufs max header a)
      → Meets
          (waits_in waits)
          (waits a.io)
          (λ (b : Archive W).
            (poll_write_vectored tar waiting bufs max header b
              ≡ poll_write_vectored tar waiting bufs max header a)
            × (b.state ≡ a.state))
          (poll_write_vectored tar sink bufs max header a)
          (poll_write_vectored tar waiting bufs max header a)
  unfolding poll_write_vectored
  poll_write_vectored-Meets a bufs max header ended =
      elim (Result-cases (slices_take_prefix bufs max)) [
        | inl (p, cut) ↦ elim (Result-cases (take_slices tar a.state (prefix_iter p) header)) [
          | inl ((t, n), taken) ↦ elim (Bool-cases (n == bytes_len (prefix_iter p))) [
            | inl z ↦
                let all : n ≡ bytes_len (prefix_iter p) = ground arith in
                write_checked a bufs max header p t cut (taken ∙ ap (λ (k : ℕ). ok (t, k)) all)
                  ended
            | inr z ↦ rw (cut, taken, z) (refl, omega arith)
          ]
          | inr (inl (x, e)) ↦ rw (cut, e) (refl, omega arith)
          | inr (inr (x, e)) ↦ rw (cut, e) (refl, omega arith)
        ]
        | inr (inl (x, e)) ↦ rw e (refl, omega arith)
        | inr (inr (x, e)) ↦ rw e (refl, omega arith)
      ]
