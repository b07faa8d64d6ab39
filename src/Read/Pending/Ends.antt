-- ===== src/Read/Pending/Ends.antt =====
-- Where `poll_next_entry` of src/read/mod.rs is pending, the archive has not ended.
use tario.Prelude.{
  ℕ, Option, ◌≡◌, ℕ, Option, ◌≡◌, ℕ, Option, ◌≡◌, ℕ, Option, ◌≡◌, ℕ, Option, ◌≡◌, ℕ, Option, ◌≡◌, ℕ,
  Option, ◌≡◌, ℕ, Option, ◌≡◌, ℕ, zero, suc, ◌≡◌, refl, sym, ◌∙◌, inl, inr, Option, none, arith,
}
use tario.Io.Pends.{Pends, Goes, bind-Pends, bind-Goes, here-Goes, Stays-Pends}
use tario.Io.Poll.{Poll, ready, failed, pending, panicked, Call, pass, ◌>>=◌, done, asks}
use tario.Io.Result.{Result, ok, err, panic, Result-cases}
use tario.Block.{Header, Tar}
use tario.Archive.{Archive, Entry}
use tario.Buffer.{buffered_bytes}
use mathlib.Core.Path.{subst}
use tario.Io.Await.{IsDone}
use tario.Read.Pending.NextEntry.{take_entry-Stays}
use tario.State.{
  State, next, expecting_header, receiving_header, received_header, receiving_data, received_data,
  aligning_data, aligned_data, receiving_eof, received_eof,
}
use tario.Read.Consume.{consume}
use tario.Read.Calls.{
  AsyncRead, consumes, poll_fill_buf, poll_next_state, next_entry_loop, on_next_entry, take_entry,
}
use tario.Read.Pending.Passed.{IsPassed, KeepsPassed, consume-IsPassed, fill_keeps}

module _ {R : Type 0} (tar : Tar) (source : AsyncRead R) where
  abbrev AtPassed : Archive R → Type 0
  AtPassed a = IsPassed a.state

  abbrev replaced : Archive R → Result (Archive R) → Poll (Unit {0}) × Archive R
  replaced a (ok b) = (ready tt, b)
  replaced a (err e) = (failed e, a)
  replaced a (panic p) = (panicked p, a)

  replaced-Goes :
      (a : Archive R) (r : Result (Archive R)) → KeepsPassed r → Goes AtPassed (replaced a r)
  replaced-Goes a (ok b) is = is
  replaced-Goes a (err e) is = tt
  replaced-Goes a (panic p) is = tt

  consumes-Goes :
      (a : Archive R) (n : ℕ) (header : Option Header)
      → Goes AtPassed (consumes tar source n header a)
  unfolding consumes
  consumes-Goes a n header =
      replaced-Goes a (consume tar a n header) (consume-IsPassed tar a n header)

  next_state-Goes :
      (a : Archive R) (header : Option Header)
      → AtPassed a
      → Goes AtPassed (poll_next_state tar source header a)
  unfolding poll_next_state
  next_state-Goes a header is =
      bind-Goes AtPassed (poll_fill_buf tar source a)
        (λ (_ : Unit {0}).
          asks (λ b. buffered_bytes b.buf)
          >>= (λ bytes. asks (λ (b : Archive R). next tar b.state bytes header)))
        (subst IsPassed (sym (fill_keeps tar source a)) is)
        (λ _ b is'.
          bind-Goes AtPassed (asks (λ (c : Archive R). buffered_bytes c.buf) b)
            (λ bytes. asks (λ (c : Archive R). next tar c.state bytes header)) is'
            (λ bytes c is''.
              here-Goes AtPassed (asks (λ (d : Archive R). next tar d.state bytes header) c) is''))

  on_next_entry-Pends :
      (again : Call (Archive R) (Option Entry)) (r : State × ℕ) (b : Archive R)
      → ((a : Archive R) → AtPassed a → Pends AtPassed (again a))
      → Pends AtPassed (on_next_entry tar source again r b)
  unfolding on_next_entry
  on_next_entry-Pends again (aligning_data n, amt) b pends =
      bind-Pends AtPassed (consumes tar source amt none b) (λ _. again) (consumes-Goes b amt none)
        (λ _. pends)
  on_next_entry-Pends again (receiving_header n z, amt) b pends =
      bind-Pends AtPassed (consumes tar source amt none b) (λ _. again) (consumes-Goes b amt none)
        (λ _. pends)
  on_next_entry-Pends again (receiving_eof n, amt) b pends =
      bind-Pends AtPassed (consumes tar source amt none b) (λ _. again) (consumes-Goes b amt none)
        (λ _. pends)
  on_next_entry-Pends again (aligned_data, amt) b pends =
      bind-Pends AtPassed (consumes tar source amt none b) (λ _. again) (consumes-Goes b amt none)
        (λ _. pends)
  on_next_entry-Pends again (received_header, amt) b pends =
      Stays-Pends AtPassed (λ _. 0) 0 (take_entry tar source amt b)
        (take_entry-Stays tar source (λ _. 0) b 0 amt (omega arith))
  on_next_entry-Pends again (received_eof, amt) b pends =
      bind-Pends AtPassed (consumes tar source amt none b) (λ _. done none)
        (consumes-Goes b amt none) (λ _ c is. tt)
  on_next_entry-Pends again (expecting_header, amt) b pends = tt
  on_next_entry-Pends again (receiving_data n, amt) b pends = tt
  on_next_entry-Pends again (received_data, amt) b pends = tt

  pub next_entry_loop-Pends :
      (fuel : ℕ) (a : Archive R) → AtPassed a → Pends AtPassed (next_entry_loop tar source fuel a)
  unfolding next_entry_loop
  next_entry_loop-Pends zero a is = tt
  next_entry_loop-Pends (suc fuel) a is =
      let again = next_entry_loop tar source fuel in
      bind-Pends AtPassed (poll_next_state tar source none a) (on_next_entry tar source again)
        (next_state-Goes a none is)
        (λ r b is'. on_next_entry-Pends again r b (next_entry_loop-Pends fuel))

  not_done :
      (o : Poll (Unit {0}) × Archive R) (on : State × ℕ → Call (Archive R) (Option Entry))
      → (o.1).state ≡ received_eof
      → IsDone (
          pass
            (pass o (λ _.
              asks (λ b. buffered_bytes b.buf)
              >>= (λ bytes. asks (λ (b : Archive R). next tar b.state bytes none))))
            on)
      → ⊥
  unfolding next
  not_done (ready x, a) on s is = elim (Result-cases (buffered_bytes a.buf)) [
    | inl (bytes, e) ↦ subst (λ (d : Type 0). d) (rw (e, s) refl) is
    | inr (inl (x, e)) ↦ subst (λ (d : Type 0). d) (rw e refl) is
    | inr (inr (p, e)) ↦ subst (λ (d : Type 0). d) (rw e refl) is
  ]
  not_done (failed e, a) on s never = never
  not_done (panicked p, a) on s never = never
  not_done (pending, a) on s never = never

  -- Where the archive has ended, the loop gives no entry.
  pub loop_ended :
      (fuel : ℕ) (a : Archive R)
      → a.state ≡ received_eof
      → IsDone (next_entry_loop tar source (suc fuel) a)
      → ⊥
  unfolding next_entry_loop poll_next_state
  loop_ended fuel a s =
      not_done (poll_fill_buf tar source a)
        (on_next_entry tar source (next_entry_loop tar source fuel)) (fill_keeps tar source a ∙ s)
