-- ===== src/Write/Pending/Header.antt =====
-- `poll_write_header` of src/write/mod.rs, made again after it was pending.
use tario.Io.Poll.{◌>>=◌, attempt, Poll, Call, failed, panicked}
use tario.Io.Result.{Result-cases, slice_from}
use tario.Io.Await.{grows_bind, Ended, Meets, Stays}
use tario.Block.{Header, block_size, Tar}
use tario.State.{
  State, expecting_header, receiving_header, received_header, receiving_data, received_data,
  aligning_data, aligned_data, receiving_eof, received_eof,
}
use tario.Write.Calls.{takes_marker, checked_sub, AsyncWrite, poll_write_data}
use tario.Write.Entries.{poll_write_header, on_write_header, write_header_loop}
use tario.Prelude.{
  ℕ, zero, suc, ◌≡◌, refl, sym, ap, ◌∙◌, inl, inr, Bool, true, false, ◌&&◌, Option, some, List,
  arith, ltb, ◌==◌,
}
use mathlib.Core.Path.{subst}
use tario.Archive.Waits.{waits_in}
use tario.Write.Pending.Sink.{IsPatient, blocking_sink}
use tario.Archive.{Archive}
use tario.Write.Pending.Round.{goes, goes-grows, local-Meets, write_then-Meets}

module _ {W : Type 0} (tar : Tar) (sink : AsyncWrite W) (debug : Bool) where
  header_at :
      (fuel : ℕ) (h : Header) (a : Archive W) {s : State}
      → a.state ≡ s
      → write_header_loop tar sink debug (suc fuel) h a
        ≡ on_write_header tar sink debug h (write_header_loop tar sink debug fuel h) s a
  unfolding write_header_loop
  header_at fuel h a e =
      ap
        (λ (s : State).
          on_write_header tar sink debug h (write_header_loop tar sink debug fuel h) s a)
        e

  on_write_header-grows :
      (h : Header) (again more : Call (Archive W) (Unit {0})) (s : State) (a : Archive W)
      → Ended (on_write_header tar sink debug h again s a)
      → ((b : Archive W) → Ended (again b) → more b ≡ again b)
      → on_write_header tar sink debug h more s a ≡ on_write_header tar sink debug h again s a
  unfolding on_write_header
  on_write_header-grows h again more expecting_header a ended grows =
      let stops : ℕ → Bool = λ n. n == 0 in
      grows_bind (poll_write_data tar sink h (some h) a) (goes tar sink stops again)
        (goes tar sink stops more) ended
        (λ n b ends. goes-grows tar sink (stops n) again more b ends grows)
  on_write_header-grows h again more (receiving_header rem false) a ended grows =
      let stops : ℕ → Bool = λ n. n == 0 && ltb 0 rem in
      let writes = λ (k : Call (Archive W) (Unit {0})) (buf : List ℕ).
        poll_write_data tar sink buf (some h) >>= goes tar sink stops k in
      let cuts =
        λ (k : Call (Archive W) (Unit {0})) (pos : ℕ). attempt (slice_from h pos) >>= writes k in
      grows_bind (attempt (checked_sub block_size rem) a) (cuts again) (cuts more) ended
        (λ pos b ends.
          grows_bind (attempt (slice_from h pos) b) (writes again) (writes more) ends
            (λ buf c ends'.
              grows_bind (poll_write_data tar sink buf (some h) c) (goes tar sink stops again)
                (goes tar sink stops more) ends'
                (λ n d ends''. goes-grows tar sink (stops n) again more d ends'' grows)))
  on_write_header-grows h again more received_header a ended grows = refl
  on_write_header-grows h again more (receiving_data n) a ended grows = refl
  on_write_header-grows h again more received_data a ended grows = refl
  on_write_header-grows h again more (aligning_data n) a ended grows = refl
  on_write_header-grows h again more aligned_data a ended grows = refl
  on_write_header-grows h again more (receiving_header rem true) a ended grows = refl
  on_write_header-grows h again more (receiving_eof n) a ended grows = refl
  on_write_header-grows h again more received_eof a ended grows = refl

  pub write_header_loop-grows :
      (fuel : ℕ) (h : Header) (a : Archive W)
      → Ended (write_header_loop tar sink debug fuel h a)
      → write_header_loop tar sink debug (suc fuel) h a ≡ write_header_loop tar sink debug fuel h a
  unfolding write_header_loop
  write_header_loop-grows zero h a ended = absurd ended
  write_header_loop-grows (suc fuel) h a ended =
      on_write_header-grows h (write_header_loop tar sink debug fuel h)
        (write_header_loop tar sink debug (suc fuel) h) a.state a ended
        (write_header_loop-grows fuel h)

module _ {W : Type 0} (tar : Tar) (sink : AsyncWrite W) (debug : Bool) (waits : W → ℕ)
    (law : IsPatient sink waits) where
  abbrev waiting : AsyncWrite W
  waiting = blocking_sink sink waits

  marker_same :
      (header : Option Header) (a : Archive W)
      → takes_marker tar sink header a ≡ takes_marker tar waiting header a
  unfolding takes_marker
  marker_same header a = refl

  marker-Stays :
      (header : Option Header) (a : Archive W)
      → Stays (waits_in waits) (waits a.io) (takes_marker tar sink header a)
  unfolding takes_marker
  marker-Stays header a = ground arith

  abbrev LoopMeets : ℕ → Header → Archive W → Type 0
  LoopMeets fuel h a =
      Meets (waits_in waits) (waits a.io)
        (λ (b : Archive W).
          write_header_loop tar waiting debug fuel h b
          ≡ write_header_loop tar waiting debug fuel h a)
        (write_header_loop tar sink debug fuel h a) (write_header_loop tar waiting debug fuel h a)

  -- A round in a state in which nothing is written.
  header_local :
      (fuel : ℕ) (h : Header) (a : Archive W) (s : State) (r : Poll (Unit {0}) × Archive W)
      → a.state ≡ s
      → on_write_header tar sink debug h (write_header_loop tar sink debug fuel h) s a ≡ r
      → on_write_header tar waiting debug h (write_header_loop tar waiting debug fuel h) s a ≡ r
      → Stays (waits_in waits) (waits a.io) r
      → LoopMeets (suc fuel) h a
  header_local fuel h a s r e same same' stays =
      local-Meets tar sink waits (waits a.io)
        (λ (b : Archive W).
          write_header_loop tar waiting debug (suc fuel) h b
          ≡ write_header_loop tar waiting debug (suc fuel) h a)
        (write_header_loop tar sink debug (suc fuel) h a)
        (write_header_loop tar waiting debug (suc fuel) h a) r
        (header_at tar sink debug fuel h a e ∙ same)
        (header_at tar waiting debug fuel h a e ∙ same') stays

  header_round :
      (fuel : ℕ) (h : Header) (a : Archive W) (s : State)
      → a.state ≡ s
      → ((b : Archive W)
          → Ended (write_header_loop tar waiting debug fuel h b)
          → LoopMeets fuel h b)
      → Ended (write_header_loop tar waiting debug (suc fuel) h a)
      → LoopMeets (suc fuel) h a
  unfolding on_write_header
  header_round fuel h a expecting_header e resumes ended =
      let again = write_header_loop tar sink debug fuel h in
      let waited = write_header_loop tar waiting debug fuel h in
      let whole = write_header_loop tar waiting debug (suc fuel) h in
      let stops : ℕ → Bool = λ n. n == 0 in
      subst
        (λ (o : Poll (Unit {0}) × Archive W).
          Meets (waits_in waits) (waits a.io) (λ (b : Archive W). whole b ≡ whole a) o (whole a))
        (sym (header_at tar sink debug fuel h a e))
        (write_then-Meets tar sink waits law again waited whole stops a h (some h) resumes
          (write_header_loop-grows tar waiting debug fuel h)
          (λ b same. header_at tar waiting debug fuel h b (same ∙ e)) ended)
  header_round fuel h a (receiving_header rem false) e resumes ended =
      elim (Result-cases (checked_sub block_size rem)) [
        | inl (pos, e1) ↦ elim (Result-cases (slice_from h pos)) [
          | inl (buf, e2) ↦
              let again = write_header_loop tar sink debug fuel h in
              let waited = write_header_loop tar waiting debug fuel h in
              let whole = write_header_loop tar waiting debug (suc fuel) h in
              let stops : ℕ → Bool = λ n. n == 0 && ltb 0 rem in
              subst
                (λ (o : Poll (Unit {0}) × Archive W).
                  Meets (waits_in waits) (waits a.io) (λ (b : Archive W). whole b ≡ whole a) o
                    (whole a))
                (sym (header_at tar sink debug fuel h a e ∙ rw (e1, e2) refl))
                (write_then-Meets tar sink waits law again waited whole stops a buf (some h) resumes
                  (write_header_loop-grows tar waiting debug fuel h)
                  (λ b same. header_at tar waiting debug fuel h b (same ∙ e) ∙ rw (e1, e2) refl)
                  ended)
          | inr (inl (x, e2)) ↦
              header_local fuel h a (receiving_header rem false) (failed x, a) e (rw (e1, e2) refl)
                (rw (e1, e2) refl) (omega arith)
          | inr (inr (x, e2)) ↦
              header_local fuel h a (receiving_header rem false) (panicked x, a) e
                (rw (e1, e2) refl) (rw (e1, e2) refl) (omega arith)
        ]
        | inr (inl (x, e1)) ↦
            header_local fuel h a (receiving_header rem false) (failed x, a) e (rw e1 refl)
              (rw e1 refl) (omega arith)
        | inr (inr (x, e1)) ↦
            header_local fuel h a (receiving_header rem false) (panicked x, a) e (rw e1 refl)
              (rw e1 refl) (omega arith)
      ]
  header_round fuel h a received_header e resumes ended =
      header_local fuel h a received_header (takes_marker tar sink (some h) a) e refl
        (sym (marker_same (some h) a)) (marker-Stays (some h) a)
  header_round fuel h a (receiving_data n) e resumes ended =
      header_local fuel h a (receiving_data n) _ e refl refl (omega arith)
  header_round fuel h a received_data e resumes ended =
      header_local fuel h a received_data _ e refl refl (omega arith)
  header_round fuel h a (aligning_data n) e resumes ended =
      header_local fuel h a (aligning_data n) _ e refl refl (omega arith)
  header_round fuel h a aligned_data e resumes ended =
      header_local fuel h a aligned_data _ e refl refl (omega arith)
  header_round fuel h a (receiving_header rem true) e resumes ended =
      header_local fuel h a (receiving_header rem true) _ e refl refl (omega arith)
  header_round fuel h a (receiving_eof n) e resumes ended =
      header_local fuel h a (receiving_eof n) _ e refl refl (omega arith)
  header_round fuel h a received_eof e resumes ended =
      header_local fuel h a received_eof _ e refl refl (omega arith)

  write_header_loop-Meets :
      (fuel : ℕ) (h : Header) (a : Archive W)
      → Ended (write_header_loop tar waiting debug fuel h a)
      → LoopMeets fuel h a
  unfolding write_header_loop
  write_header_loop-Meets zero h a ended = absurd ended
  write_header_loop-Meets (suc fuel) h a ended =
      header_round fuel h a a.state refl (write_header_loop-Meets fuel h) ended

  pub poll_write_header-Meets :
      (h : Header) (a : Archive W)
      → Ended (poll_write_header tar waiting debug h a)
      → Meets
          (waits_in waits)
          (waits a.io)
          (λ (b : Archive W).
            poll_write_header tar waiting debug h b ≡ poll_write_header tar waiting debug h a)
          (poll_write_header tar sink debug h a)
          (poll_write_header tar waiting debug h a)
  unfolding poll_write_header
  poll_write_header-Meets h a ended = write_header_loop-Meets 1024 h a ended
