-- ===== src/Read/Pending/Skip.antt =====
-- `poll_skip_entry` and `poll_read` of src/read/mod.rs, made again after they were pending.
use tario.Prelude.{
  List, ℕ, List, ℕ, List, ℕ, List, ℕ, List, ℕ, List, ℕ, List, ℕ, List, ℕ, ℕ, zero, suc, ◌^◌, ◌≤◌,
  min, ◌≡◌, refl, sym, ◌∙◌, Bool, true, false, some, List, [], arith, ◌==◌, if◌then◌else◌, length,
  take,
}
use tario.Io.Waited.{Awaited}
use tario.Archive.Waits.{waits_in}
use tario.Io.Poll.{Call, pass_of, ◌>>=◌, ◌>>◌, done, of_result}
use tario.Io.Result.{assert, assertion}
use mathlib.Core.Path.{subst}
use tario.Io.Await.{first-Ended, Ended, Meets, here-Meets, Meets-change, bind-Meets}
use tario.Block.{Tar}
use tario.Archive.{Archive, Entry}
use tario.State.{state_eq, expecting_header}
use tario.Read.Calls.{
  AsyncRead, consumes, poll_read, poll_read_entry, skip_loop, check_skipped, poll_skip_entry,
}
use tario.Read.Pending.Source.{blocking}
use tario.Read.Pending.Fill.{consumes-Meets}
use tario.Read.Pending.Grows.{skip_loop-grows}
use tario.Read.Pending.ReadEntry.{Resumes, round_on, read_entry_loop-Meets}

module _ {R : Type 0} (tar : Tar) (source : AsyncRead R) (waits : R → ℕ)
    (law : (room : ℕ) (r : R) → Awaited waits (waits r) (source.poll_read room r)) where
  abbrev waiting : AsyncRead R
  waiting = blocking source waits

  pub poll_read_entry-Meets :
      (e : Entry)
      → Resumes tar source waits law (poll_read_entry tar source e) (poll_read_entry tar waiting e)
  unfolding poll_read_entry
  poll_read_entry-Meets e = read_entry_loop-Meets tar source waits law 1024 e

  skip_round-Meets :
      (again waited whole : Call (Archive R) (Unit {0})) (e : Entry) (n : ℕ) (ends : Bool)
      (b : Archive R) (v : ℕ)
      → Resumes tar source waits law again waited
      → ((a : Archive R) → Ended (waited a) → whole a ≡ waited a)
      → Ended (
          (if ends then check_skipped tar waiting else (consumes tar waiting n (some e) >> waited))
            b)
      → waits b.io ≤ v
      → Meets
          (waits_in waits)
          v
          (λ (c : Archive R).
            whole c
            ≡ (if ends
                  then check_skipped tar waiting
                  else (consumes tar waiting n (some e) >> waited))
                b)
          ((if ends then check_skipped tar source else (consumes tar source n (some e) >> again)) b)
          ((if ends then check_skipped tar waiting else (consumes tar waiting n (some e) >> waited))
            b)
  unfolding check_skipped
  skip_round-Meets again waited whole e n true b v resumes grows ended kept =
      let o = of_result (assert (state_eq b.state expecting_header) assertion) in
      here-Meets (waits_in waits) v (λ (c : Archive R). whole c ≡ (o, b)) (o, b) (o, b)
        (ground arith) refl
  skip_round-Meets again waited whole e n false b v resumes grows ended kept =
      round_on tar source waits law again waited whole resumes grows b b v n (some e) ended kept

  skip_loop-Meets :
      (fuel : ℕ) (e : Entry)
      → Resumes tar source waits law (skip_loop tar source fuel e) (skip_loop tar waiting fuel e)
  unfolding skip_loop
  skip_loop-Meets zero e a ended = absurd ended
  skip_loop-Meets (suc fuel) e a ended =
      let again = skip_loop tar source fuel e in
      let waited = skip_loop tar waiting fuel e in
      let whole = skip_loop tar waiting (suc fuel) e in
      let later = λ (b : Archive R). whole b ≡ whole a in
      let on : List ℕ → Call (Archive R) (Unit {0}) = λ got.
        if length got == 0
        then check_skipped tar source
        else (consumes tar source (length got) (some e) >> again) in
      let on' : List ℕ → Call (Archive R) (Unit {0}) = λ got.
        if length got == 0
        then check_skipped tar waiting
        else (consumes tar waiting (length got) (some e) >> waited) in
      let reads_end : Ended (poll_read_entry tar waiting e a) =
        first-Ended (poll_read_entry tar waiting e a) on' ended in
      bind-Meets (waits_in waits) (waits a.io) {later = later} (poll_read_entry tar source e a)
        (poll_read_entry tar waiting e a) on on' (poll_read_entry-Meets e a reads_end)
        (λ b same. pass_of on' same)
        (λ got b same kept.
          let same' = pass_of on' same in
          Meets-change (waits_in waits) (waits a.io) (waits a.io) (on got b) (on' got b) (on' got b)
            (omega arith) refl (λ c resumed. resumed ∙ same')
            (skip_round-Meets again waited whole e (length got) (length got == 0) b (waits a.io)
              (skip_loop-Meets fuel e) (skip_loop-grows tar waiting fuel e)
              (subst Ended (sym same') ended) kept))

  pub poll_skip_entry-Meets :
      (e : Entry)
      → Resumes tar source waits law (poll_skip_entry tar source e) (poll_skip_entry tar waiting e)
  unfolding poll_skip_entry
  poll_skip_entry-Meets e = skip_loop-Meets (2 ^ 64) e

  -- What `poll_read` does with room for some bytes.
  abbrev takes : AsyncRead R → Entry → ℕ → List ℕ → Call (Archive R) (List ℕ)
  takes object e room bytes =
      let n = min (length bytes) room in consumes tar object n (some e) >> done (take n bytes)

  room-Meets :
      (e : Entry) (room : ℕ) (full : Bool)
      → Resumes tar source waits law
          (if full then done [] else (poll_read_entry tar source e >>= takes source e room))
          (if full then done [] else (poll_read_entry tar waiting e >>= takes waiting e room))
  room-Meets e room true a ended = (refl, omega arith)
  room-Meets e room false a ended =
      let whole : Call (Archive R) (List ℕ) =
        poll_read_entry tar waiting e >>= takes waiting e room in
      let later = λ (b : Archive R). whole b ≡ whole a in
      bind-Meets (waits_in waits) (waits a.io) {later = later} (poll_read_entry tar source e a)
        (poll_read_entry tar waiting e a) (takes source e room) (takes waiting e room)
        (poll_read_entry-Meets e a
          (first-Ended (poll_read_entry tar waiting e a) (takes waiting e room) ended))
        (λ b same. pass_of (takes waiting e room) same)
        (λ got b same kept.
          let n = min (length got) room in
          let shown : Call (Archive R) (List ℕ) = done (take n got) in
          let near = λ (c : Archive R). whole c ≡ takes waiting e room got b in
          Meets-change (waits_in waits) (waits a.io) (waits a.io) (takes source e room got b)
            (takes waiting e room got b) (takes waiting e room got b) (omega arith) refl
            (λ c resumed. resumed ∙ pass_of (takes waiting e room) same)
            (bind-Meets (waits_in waits) (waits a.io) {later = near}
              (consumes tar source n (some e) b) (consumes tar waiting n (some e) b) (λ _. shown)
              (λ _. shown) (consumes-Meets tar source waits near b (waits a.io) n (some e) kept)
              (λ c l. l) (λ x c same' kept'. (refl, kept'))))

  pub poll_read-Meets :
      (e : Entry) (room : ℕ)
      → Resumes tar source waits law (poll_read tar source e room) (poll_read tar waiting e room)
  unfolding poll_read
  poll_read-Meets e room = room-Meets e room (room == 0)
