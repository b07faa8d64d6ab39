-- ===== src/Read/Pending/ReadEntry.antt =====
-- `poll_read_entry` of src/read/mod.rs, made again after it was pending.
use tario.Prelude.{
  List, ℕ, List, ℕ, List, ℕ, List, ℕ, List, ℕ, List, ℕ, List, ℕ, List, ℕ, ℕ, zero, suc, ◌≤◌, ◌≡◌,
  refl, sym, ◌∙◌, Option, none, some, List, [], arith,
}
use tario.Io.Waited.{Awaited}
use tario.Archive.Waits.{waits_in}
use tario.Io.Poll.{Call, pass_of, ◌>>◌, done}
use mathlib.Core.Path.{subst}
use tario.Io.Await.{bind-Stays, Ended, Meets, here-Meets, Meets-change, bind-Meets}
use tario.Block.{Header, Tar}
use tario.State.{
  State, expecting_header, receiving_header, received_header, receiving_data, received_data,
  aligning_data, aligned_data, receiving_eof, received_eof,
}
use tario.Archive.{Archive, Entry}
use tario.Read.Calls.{AsyncRead, consumes, poll_next_state, on_read_entry, read_entry_loop}
use tario.Read.Pending.Source.{blocking}
use tario.Read.Pending.Fill.{consumes-Meets, consumes-Stays, poll_next_state-Meets}
use tario.Read.Pending.Grows.{read_entry_loop-grows}

module _ {R : Type 0} (tar : Tar) (source : AsyncRead R) (waits : R → ℕ)
    (law : (room : ℕ) (r : R) → Awaited waits (waits r) (source.poll_read room r)) where
  abbrev waiting : AsyncRead R
  waiting = blocking source waits

  -- Calls of which the second waits, where the first may be pending.
  abbrev pub Resumes : {A : Type 0} → Call (Archive R) A → Call (Archive R) A → Type 0
  Resumes again waited =
      (a : Archive R)
      → Ended (waited a)
      → Meets (waits_in waits) (waits a.io) (λ (b : Archive R). waited b ≡ waited a) (again a)
          (waited a)

  module _ {A : Type 0} (again waited whole : Call (Archive R) A) (resumes : Resumes again waited)
      (grows : (a : Archive R) → Ended (waited a) → whole a ≡ waited a) where
    -- A round of a loop, whose `whole` is made again when a later round is pending.
    pub round_on :
        (a b : Archive R) (v amt : ℕ) (header : Option Header)
        → Ended ((consumes tar waiting amt header >> waited) b)
        → waits b.io ≤ v
        → Meets
            (waits_in waits)
            v
            (λ (c : Archive R). whole c ≡ (consumes tar waiting amt header >> waited) b)
            ((consumes tar source amt header >> again) b)
            ((consumes tar waiting amt header >> waited) b)
    round_on a b v amt header ended kept =
        let t = (consumes tar waiting amt header >> waited) b in
        let later = λ (c : Archive R). whole c ≡ t in
        bind-Meets (waits_in waits) v {later = later} (consumes tar source amt header b)
          (consumes tar waiting amt header b) (λ _. again) (λ _. waited)
          (consumes-Meets tar source waits later b v amt header kept) (λ c l. l)
          (λ x c same kept'.
            let same' : waited c ≡ t = pass_of (λ _. waited) same in
            let ends : Ended (waited c) = subst Ended (sym same') ended in
            Meets-change (waits_in waits) v (waits c.io) (again c) (waited c) (waited c) kept' refl
              (λ d resumed. grows d (subst Ended (sym resumed) ends) ∙ (resumed ∙ same'))
              (resumes c ends))

  on_read_entry-Meets :
      (again waited whole : Call (Archive R) (List ℕ)) (e : Entry) (r : State × ℕ) (b : Archive R)
      (v : ℕ)
      → Resumes again waited
      → ((a : Archive R) → Ended (waited a) → whole a ≡ waited a)
      → Ended (on_read_entry tar waiting e waited r b)
      → waits b.io ≤ v
      → Meets
          (waits_in waits)
          v
          (λ (c : Archive R). whole c ≡ on_read_entry tar waiting e waited r b)
          (on_read_entry tar source e again r b)
          (on_read_entry tar waiting e waited r b)
  unfolding on_read_entry consumes
  on_read_entry-Meets again waited whole e (aligning_data n, amt) b v resumes grows ended kept =
      round_on again waited whole resumes grows b b v amt none ended kept
  on_read_entry-Meets again waited whole e (aligned_data, amt) b v resumes grows ended kept =
      let o = (consumes tar source amt (some e) >> done []) b in
      here-Meets (waits_in waits) v
        (λ (c : Archive R). whole c ≡ on_read_entry tar waiting e waited (aligned_data, amt) b) o o
        (bind-Stays (waits_in waits) v (consumes tar source amt (some e) b) (λ _. done [])
          (consumes-Stays tar source waits b v amt (some e) kept) (λ x c kept'. kept'))
        refl
  on_read_entry-Meets again waited whole e (expecting_header, amt) b v resumes grows ended kept =
      (refl, kept)
  on_read_entry-Meets again waited whole e (receiving_header n z, amt) b v resumes grows ended
        kept =
      (refl, kept)
  on_read_entry-Meets again waited whole e (received_header, amt) b v resumes grows ended kept =
      (refl, kept)
  on_read_entry-Meets again waited whole e (receiving_data n, amt) b v resumes grows ended kept =
      let o = on_read_entry tar source e again (receiving_data n, amt) b in
      here-Meets (waits_in waits) v
        (λ (c : Archive R). whole c ≡ on_read_entry tar waiting e waited (receiving_data n, amt) b)
        o o (ground arith) refl
  on_read_entry-Meets again waited whole e (received_data, amt) b v resumes grows ended kept =
      let o = on_read_entry tar source e again (received_data, amt) b in
      here-Meets (waits_in waits) v
        (λ (c : Archive R). whole c ≡ on_read_entry tar waiting e waited (received_data, amt) b) o o
        (ground arith) refl
  on_read_entry-Meets again waited whole e (receiving_eof n, amt) b v resumes grows ended kept =
      (refl, kept)
  on_read_entry-Meets again waited whole e (received_eof, amt) b v resumes grows ended kept =
      (refl, kept)

  pub read_entry_loop-Meets :
      (fuel : ℕ) (e : Entry)
      → Resumes (read_entry_loop tar source fuel e) (read_entry_loop tar waiting fuel e)
  unfolding read_entry_loop
  read_entry_loop-Meets zero e a ended = absurd ended
  read_entry_loop-Meets (suc fuel) e a ended =
      let again = read_entry_loop tar source fuel e in
      let waited = read_entry_loop tar waiting fuel e in
      let whole = read_entry_loop tar waiting (suc fuel) e in
      let later = λ (b : Archive R). whole b ≡ whole a in
      bind-Meets (waits_in waits) (waits a.io) {later = later}
        (poll_next_state tar source (some e) a) (poll_next_state tar waiting (some e) a)
        (on_read_entry tar source e again) (on_read_entry tar waiting e waited)
        (poll_next_state-Meets tar source waits law a (some e))
        (λ b same. pass_of (on_read_entry tar waiting e waited) same)
        (λ r b same kept.
          let same' = pass_of (on_read_entry tar waiting e waited) same in
          Meets-change (waits_in waits) (waits a.io) (waits a.io)
            (on_read_entry tar source e again r b) (on_read_entry tar waiting e waited r b)
            (on_read_entry tar waiting e waited r b) (omega arith) refl
            (λ c resumed. resumed ∙ same')
            (on_read_entry-Meets again waited whole e r b (waits a.io)
              (read_entry_loop-Meets fuel e) (read_entry_loop-grows tar waiting fuel e)
              (subst Ended (sym same') ended) kept))
