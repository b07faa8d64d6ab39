-- ===== src/Read/Pending/NextEntry.antt =====
-- `poll_next_entry` of src/read/mod.rs, made again after it was pending.
use tario.Prelude.{
  ℕ, ℕ, ℕ, ℕ, ℕ, ℕ, ℕ, ℕ, ℕ, zero, suc, ◌≤◌, ◌≡◌, refl, sym, ◌∙◌, inl, inr, Option, none, some,
  arith,
}
use tario.Io.Waited.{Awaited}
use tario.Archive.Waits.{waits_in}
use tario.Io.Poll.{Call, pass_of, ◌>>=◌, ◌>>◌, done, attempt}
use tario.Io.Result.{slice_to, Result-cases}
use tario.Buffer.{buffered_bytes}
use tario.Block.{block_size, from_bytes, as_header, Header, Tar}
use tario.Archive.{new_entry, Archive, Entry}
use mathlib.Core.Path.{subst}
use tario.Io.Await.{bind-Stays, Ended, Meets, Stays, here-Meets, Meets-change, bind-Meets}
use tario.State.{
  State, expecting_header, receiving_header, received_header, receiving_data, received_data,
  aligning_data, aligned_data, receiving_eof, received_eof,
}
use tario.Read.Calls.{
  AsyncRead, consumes, poll_next_state, on_next_entry, next_entry_loop, take_entry,
}
use tario.Read.Pending.Source.{blocking}
use tario.Read.Pending.Fill.{consumes-Meets, consumes-Stays, poll_next_state-Meets}
use tario.Read.Pending.ReadEntry.{Resumes, round_on}
use tario.Read.Pending.Grows.{next_entry_loop-grows}

module _ {R : Type 0} (tar : Tar) (source : AsyncRead R) (waits : R → ℕ) where
  take_last-Stays :
      (b : Archive R) (v amt : ℕ) (h : Header)
      → waits b.io ≤ v
      → Stays (waits_in waits) v (
          (consumes tar source amt (some h)
              >> (attempt (new_entry tar h) >>= (λ (entry : Entry). done (some entry))))
            b)
  take_last-Stays b v amt h kept =
      let k : Call (Archive R) (Option Entry) =
        attempt (new_entry tar h) >>= (λ (entry : Entry). done (some entry)) in
      bind-Stays (waits_in waits) v (consumes tar source amt (some h) b) (λ _. k)
        (consumes-Stays tar source waits b v amt (some h) kept) (λ x c kept'. ground arith)

  pub take_entry-Stays :
      (b : Archive R) (v amt : ℕ)
      → waits b.io ≤ v
      → Stays (waits_in waits) v (take_entry tar source amt b)
  unfolding take_entry
  take_entry-Stays b v amt kept = elim (Result-cases (buffered_bytes b.buf)) [
    | inr (inl (x, e)) ↦ rw e kept
    | inr (inr (p, e)) ↦ rw e kept
    | inl (bytes, e) ↦ elim (Result-cases (slice_to bytes block_size)) [
      | inr (inl (x, e1)) ↦ rw (e, e1) kept
      | inr (inr (p, e1)) ↦ rw (e, e1) kept
      | inl (front, e1) ↦ elim (Result-cases (from_bytes front)) [
        | inr (inl (x, e2)) ↦ rw (e, e1, e2) kept
        | inr (inr (p, e2)) ↦ rw (e, e1, e2) kept
        | inl (block, e2) ↦ elim (Result-cases (as_header tar block)) [
          | inr (inl (x, e3)) ↦ rw (e, e1, e2, e3) kept
          | inr (inr (p, e3)) ↦ rw (e, e1, e2, e3) kept
          | inl (h, e3) ↦ rw (e, e1, e2, e3) (take_last-Stays b v amt h kept)
        ]
      ]
    ]
  ]

  take_entry-same :
      (amt : ℕ) (b : Archive R)
      → take_entry tar source amt b ≡ take_entry tar (blocking source waits) amt b
  unfolding take_entry consumes
  take_entry-same amt b = refl

module _ {R : Type 0} (tar : Tar) (source : AsyncRead R) (waits : R → ℕ)
    (law : (room : ℕ) (r : R) → Awaited waits (waits r) (source.poll_read room r)) where
  abbrev waiting : AsyncRead R
  waiting = blocking source waits

  on_next_entry-Meets :
      (again waited whole : Call (Archive R) (Option Entry)) (r : State × ℕ) (b : Archive R) (v : ℕ)
      → Resumes tar source waits law again waited
      → ((a : Archive R) → Ended (waited a) → whole a ≡ waited a)
      → Ended (on_next_entry tar waiting waited r b)
      → waits b.io ≤ v
      → Meets
          (waits_in waits)
          v
          (λ (c : Archive R). whole c ≡ on_next_entry tar waiting waited r b)
          (on_next_entry tar source again r b)
          (on_next_entry tar waiting waited r b)
  unfolding on_next_entry
  on_next_entry-Meets again waited whole (aligning_data n, amt) b v resumes grows ended kept =
      round_on tar source waits law again waited whole resumes grows b b v amt none ended kept
  on_next_entry-Meets again waited whole (receiving_header n z, amt) b v resumes grows ended kept =
      round_on tar source waits law again waited whole resumes grows b b v amt none ended kept
  on_next_entry-Meets again waited whole (receiving_eof n, amt) b v resumes grows ended kept =
      round_on tar source waits law again waited whole resumes grows b b v amt none ended kept
  on_next_entry-Meets again waited whole (aligned_data, amt) b v resumes grows ended kept =
      round_on tar source waits law again waited whole resumes grows b b v amt none ended kept
  on_next_entry-Meets again waited whole (received_header, amt) b v resumes grows ended kept =
      here-Meets (waits_in waits) v (λ (c : Archive R). whole c ≡ take_entry tar waiting amt b)
        (take_entry tar source amt b) (take_entry tar waiting amt b)
        (take_entry-Stays tar source waits b v amt kept) (take_entry-same tar source waits amt b)
  on_next_entry-Meets again waited whole (received_eof, amt) b v resumes grows ended kept =
      let later = λ (c : Archive R).
        whole c ≡ (consumes tar waiting amt none >> done {A = Option Entry} none) b in
      bind-Meets (waits_in waits) v {later = later} (consumes tar source amt none b)
        (consumes tar waiting amt none b) (λ _. done none) (λ _. done none)
        (consumes-Meets tar source waits later b v amt none kept) (λ c l. l)
        (λ x c same kept'. (refl, kept'))
  on_next_entry-Meets again waited whole (expecting_header, amt) b v resumes grows ended kept =
      (refl, kept)
  on_next_entry-Meets again waited whole (receiving_data n, amt) b v resumes grows ended kept =
      (refl, kept)
  on_next_entry-Meets again waited whole (received_data, amt) b v resumes grows ended kept =
      (refl, kept)

  pub next_entry_loop-Meets :
      (fuel : ℕ)
      → Resumes tar source waits law
          (next_entry_loop tar source fuel)
          (next_entry_loop tar waiting fuel)
  unfolding next_entry_loop
  next_entry_loop-Meets zero a ended = absurd ended
  next_entry_loop-Meets (suc fuel) a ended =
      let again = next_entry_loop tar source fuel in
      let waited = next_entry_loop tar waiting fuel in
      let whole = next_entry_loop tar waiting (suc fuel) in
      let later = λ (b : Archive R). whole b ≡ whole a in
      bind-Meets (waits_in waits) (waits a.io) {later = later} (poll_next_state tar source none a)
        (poll_next_state tar waiting none a) (on_next_entry tar source again)
        (on_next_entry tar waiting waited) (poll_next_state-Meets tar source waits law a none)
        (λ b same. pass_of (on_next_entry tar waiting waited) same)
        (λ r b same kept.
          let same' = pass_of (on_next_entry tar waiting waited) same in
          Meets-change (waits_in waits) (waits a.io) (waits a.io)
            (on_next_entry tar source again r b) (on_next_entry tar waiting waited r b)
            (on_next_entry tar waiting waited r b) (omega arith) refl (λ c resumed. resumed ∙ same')
            (on_next_entry-Meets again waited whole r b (waits a.io) (next_entry_loop-Meets fuel)
              (next_entry_loop-grows tar waiting fuel) (subst Ended (sym same') ended) kept))
