-- ===== src/Read/Pending/Grows.antt =====
-- The loops of src/read/mod.rs, on more fuel than they need.
use tario.Prelude.{
  ℕ, zero, suc, ◌≡◌, refl, Bool, true, false, Option, none, some, List, ◌==◌, if◌then◌else◌, length,
}
use tario.Io.Poll.{Call, ◌>>◌}
use tario.Io.Await.{Ended, grows_bind}
use tario.Block.{Tar}
use tario.State.{
  State, expecting_header, receiving_header, received_header, receiving_data, received_data,
  aligning_data, aligned_data, receiving_eof, received_eof,
}
use tario.Archive.{Archive, Entry}
use tario.Read.Calls.{
  AsyncRead, consumes, poll_next_state, on_read_entry, read_entry_loop, on_next_entry,
  next_entry_loop, skip_loop, check_skipped, poll_read_entry,
}

module _ {R : Type 0} (tar : Tar) (source : AsyncRead R) where
  on_read_entry-grows :
      (e : Entry) (again more : Call (Archive R) (List ℕ)) (r : State × ℕ) (a : Archive R)
      → Ended (on_read_entry tar source e again r a)
      → ((b : Archive R) → Ended (again b) → more b ≡ again b)
      → on_read_entry tar source e more r a ≡ on_read_entry tar source e again r a
  unfolding on_read_entry
  on_read_entry-grows e again more (aligning_data n, amt) a ended grows =
      grows_bind (consumes tar source amt none a) (λ _. again) (λ _. more) ended (λ x b. grows b)
  on_read_entry-grows e again more (expecting_header, amt) a ended grows = refl
  on_read_entry-grows e again more (receiving_header n z, amt) a ended grows = refl
  on_read_entry-grows e again more (received_header, amt) a ended grows = refl
  on_read_entry-grows e again more (receiving_data n, amt) a ended grows = refl
  on_read_entry-grows e again more (received_data, amt) a ended grows = refl
  on_read_entry-grows e again more (aligned_data, amt) a ended grows = refl
  on_read_entry-grows e again more (receiving_eof n, amt) a ended grows = refl
  on_read_entry-grows e again more (received_eof, amt) a ended grows = refl

  pub read_entry_loop-grows :
      (fuel : ℕ) (e : Entry) (a : Archive R)
      → Ended (read_entry_loop tar source fuel e a)
      → read_entry_loop tar source (suc fuel) e a ≡ read_entry_loop tar source fuel e a
  unfolding read_entry_loop
  read_entry_loop-grows zero e a ended = absurd ended
  read_entry_loop-grows (suc fuel) e a ended =
      let again = read_entry_loop tar source fuel e in
      let more = read_entry_loop tar source (suc fuel) e in
      grows_bind (poll_next_state tar source (some e) a) (on_read_entry tar source e again)
        (on_read_entry tar source e more) ended
        (λ r b ends. on_read_entry-grows e again more r b ends (read_entry_loop-grows fuel e))

  on_next_entry-grows :
      (again more : Call (Archive R) (Option Entry)) (r : State × ℕ) (a : Archive R)
      → Ended (on_next_entry tar source again r a)
      → ((b : Archive R) → Ended (again b) → more b ≡ again b)
      → on_next_entry tar source more r a ≡ on_next_entry tar source again r a
  unfolding on_next_entry
  on_next_entry-grows again more (aligning_data n, amt) a ended grows =
      grows_bind (consumes tar source amt none a) (λ _. again) (λ _. more) ended (λ x b. grows b)
  on_next_entry-grows again more (receiving_header n z, amt) a ended grows =
      grows_bind (consumes tar source amt none a) (λ _. again) (λ _. more) ended (λ x b. grows b)
  on_next_entry-grows again more (receiving_eof n, amt) a ended grows =
      grows_bind (consumes tar source amt none a) (λ _. again) (λ _. more) ended (λ x b. grows b)
  on_next_entry-grows again more (aligned_data, amt) a ended grows =
      grows_bind (consumes tar source amt none a) (λ _. again) (λ _. more) ended (λ x b. grows b)
  on_next_entry-grows again more (expecting_header, amt) a ended grows = refl
  on_next_entry-grows again more (received_header, amt) a ended grows = refl
  on_next_entry-grows again more (receiving_data n, amt) a ended grows = refl
  on_next_entry-grows again more (received_data, amt) a ended grows = refl
  on_next_entry-grows again more (received_eof, amt) a ended grows = refl

  pub next_entry_loop-grows :
      (fuel : ℕ) (a : Archive R)
      → Ended (next_entry_loop tar source fuel a)
      → next_entry_loop tar source (suc fuel) a ≡ next_entry_loop tar source fuel a
  unfolding next_entry_loop
  next_entry_loop-grows zero a ended = absurd ended
  next_entry_loop-grows (suc fuel) a ended =
      let again = next_entry_loop tar source fuel in
      let more = next_entry_loop tar source (suc fuel) in
      grows_bind (poll_next_state tar source none a) (on_next_entry tar source again)
        (on_next_entry tar source more) ended
        (λ r b ends. on_next_entry-grows again more r b ends (next_entry_loop-grows fuel))

  skip_round-grows :
      (again more : Call (Archive R) (Unit {0})) (e : Entry) (n : ℕ) (ends : Bool) (a : Archive R)
      → Ended
          ((if ends then check_skipped tar source else (consumes tar source n (some e) >> again)) a)
      → ((b : Archive R) → Ended (again b) → more b ≡ again b)
      → (if ends then check_skipped tar source else (consumes tar source n (some e) >> more)) a
        ≡ (if ends then check_skipped tar source else (consumes tar source n (some e) >> again)) a
  skip_round-grows again more e n true a ended grows = refl
  skip_round-grows again more e n false a ended grows =
      grows_bind (consumes tar source n (some e) a) (λ _. again) (λ _. more) ended (λ y b. grows b)

  -- The skip of an entry, likewise.
  pub skip_loop-grows :
      (fuel : ℕ) (e : Entry) (a : Archive R)
      → Ended (skip_loop tar source fuel e a)
      → skip_loop tar source (suc fuel) e a ≡ skip_loop tar source fuel e a
  unfolding skip_loop
  skip_loop-grows zero e a ended = absurd ended
  skip_loop-grows (suc fuel) e a ended =
      let again = skip_loop tar source fuel e in
      let more = skip_loop tar source (suc fuel) e in
      let goes = λ (k : Call (Archive R) (Unit {0})) (got : List ℕ).
        if length got == 0
        then check_skipped tar source
        else (consumes tar source (length got) (some e) >> k) in
      grows_bind (poll_read_entry tar source e a) (goes again) (goes more) ended (λ got b ends.
        skip_round-grows again more e (length got) (length got == 0) b ends
          (skip_loop-grows fuel e))
