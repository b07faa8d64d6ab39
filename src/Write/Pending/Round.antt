-- ===== src/Write/Pending/Round.antt =====
-- A round of the loops of src/write/mod.rs that writes data, made again after it was pending.
use tario.Io.Poll.{pass, pass_of, fail, Poll, Call}
use tario.Block.{Header, Tar}
use tario.Prelude.{
  ℕ, ◌≤◌, ◌≡◌, refl, sym, ◌∙◌, Bool, true, false, Option, List, [], ◌∷◌, if◌then◌else◌, length,
}
use mathlib.Core.Path.{subst}
use tario.Io.Await.{Ended, Meets, Stays, here-Meets, bind-Meets, next-Meets, first-Ended}
use tario.Archive.{Archive}
use tario.Archive.Waits.{waits_in}
use tario.Write.Calls.{AsyncWrite, poll_write_data, zero_write}
use tario.Write.Pending.Sink.{IsPatient, blocking_sink}
use tario.Write.Pending.Data.{poll_write_vectored-Meets}

module _ {W : Type 0} (tar : Tar) (sink : AsyncWrite W) where
  -- What comes behind a write of `n` bytes: an error, or the next round.
  abbrev pub goes : (ℕ → Bool) → Call (Archive W) (Unit {0}) → ℕ → Call (Archive W) (Unit {0})
  goes stops again n = if stops n then fail (zero_write tar sink) else again

  pub goes-grows :
      (stop : Bool) (again more : Call (Archive W) (Unit {0})) (a : Archive W)
      → Ended ((if stop then fail (zero_write tar sink) else again) a)
      → ((b : Archive W) → Ended (again b) → more b ≡ again b)
      → (if stop then fail (zero_write tar sink) else more) a
        ≡ (if stop then fail (zero_write tar sink) else again) a
  goes-grows true again more a ended grows = refl
  goes-grows false again more a ended grows = grows a ended

  -- A call that does not reach the sink, whichever it is.
  pub local-Meets :
      {A : Type 0} (waits : W → ℕ) (v : ℕ) (later : Archive W → Type 0) (o t r : Poll A × Archive W)
      → o ≡ r
      → t ≡ r
      → Stays (waits_in waits) v r
      → Meets (waits_in waits) v later o t
  local-Meets {A} waits v later o t r same same' stays =
      here-Meets (waits_in waits) v later o t
        (subst (λ (q : Poll A × Archive W). Stays (waits_in waits) v q) (sym same) stays)
        (same ∙ sym same')

module _ {W : Type 0} (tar : Tar) (sink : AsyncWrite W) (waits : W → ℕ)
    (law : IsPatient sink waits) where
  abbrev waiting : AsyncWrite W
  waiting = blocking_sink sink waits

  stop-Meets :
      (again waited whole : Call (Archive W) (Unit {0})) (t : Poll (Unit {0}) × Archive W)
      → ((c : Archive W)
          → Ended (waited c)
          → Meets
              (waits_in waits)
              (waits c.io)
              (λ (d : Archive W). waited d ≡ waited c)
              (again c)
              (waited c))
      → ((c : Archive W) → Ended (waited c) → whole c ≡ waited c)
      → (stop : Bool) (c : Archive W) (v : ℕ)
      → (if stop then fail (zero_write tar waiting) else waited) c ≡ t
      → Ended t
      → waits c.io ≤ v
      → Meets
          (waits_in waits)
          v
          (λ (d : Archive W). whole d ≡ t)
          ((if stop then fail (zero_write tar sink) else again) c)
          ((if stop then fail (zero_write tar waiting) else waited) c)
  stop-Meets again waited whole t resumes grows true c v same ended kept = (refl, kept)
  stop-Meets again waited whole t resumes grows false c v same ended kept =
      next-Meets (waits_in waits) v again waited whole t resumes grows c same ended kept

  -- A round of a loop that writes data, and is the same at every archive in that state.
  pub write_then-Meets :
      (again waited whole : Call (Archive W) (Unit {0})) (stops : ℕ → Bool) (a : Archive W)
      (buf : List ℕ) (header : Option Header)
      → ((c : Archive W)
          → Ended (waited c)
          → Meets
              (waits_in waits)
              (waits c.io)
              (λ (d : Archive W). waited d ≡ waited c)
              (again c)
              (waited c))
      → ((c : Archive W) → Ended (waited c) → whole c ≡ waited c)
      → ((b : Archive W)
          → b.state ≡ a.state
          → whole b
            ≡ pass (poll_write_data tar waiting buf header b) (goes tar waiting stops waited))
      → Ended (whole a)
      → Meets
          (waits_in waits)
          (waits a.io)
          (λ (b : Archive W). whole b ≡ whole a)
          (pass (poll_write_data tar sink buf header a) (goes tar sink stops again))
          (whole a)
  unfolding poll_write_data
  write_then-Meets again waited whole stops a buf header resumes grows at ended =
      let first = poll_write_data tar waiting buf header a in
      let on = goes tar sink stops again in
      let on' = goes tar waiting stops waited in
      let here = at a refl in
      let later = λ (b : Archive W). whole b ≡ whole a in
      subst
        (λ (t : Poll (Unit {0}) × Archive W).
          Meets (waits_in waits) (waits a.io) later
            (pass (poll_write_data tar sink buf header a) on) t)
        (sym here)
        (bind-Meets (waits_in waits) (waits a.io) {later = later}
          (poll_write_data tar sink buf header a) first on on'
          (poll_write_vectored-Meets tar sink waits law a (buf ∷ []) (length buf) header
            (first-Ended first on' (subst Ended here ended)))
          (λ b (same, state). at b state ∙ (pass_of on' same ∙ sym here))
          (λ n c same kept.
            stop-Meets again waited whole (whole a) resumes grows (stops n) c (waits a.io)
              (pass_of on' same ∙ sym here) ended kept))
