-- ===== src/Write/Pending/Grows.antt =====
-- `poll_finish` of src/write/mod.rs with more rounds than it needs.
use tario.Io.Poll.{Call, ◌>>=◌, ◌>>◌, attempt}
use tario.Io.Result.{slice_to}
use tario.Io.Await.{Ended, grows_bind}
use tario.Block.{Tar, empty_block}
use tario.Archive.{Archive}
use tario.State.{
  State, expecting_header, receiving_header, received_header, receiving_data, received_data,
  aligning_data, aligned_data, receiving_eof, received_eof,
}
use tario.Write.Calls.{AsyncWrite, poll_write_data}
use tario.Write.Entries.{on_finish, poll_finish}
use tario.Prelude.{ℕ, zero, suc, ◌≡◌, refl, ap, Bool, true, false, none}

module _ {W : Type 0} (tar : Tar) (sink : AsyncWrite W) (debug : Bool) where
  pub finish_at :
      (fuel : ℕ) (a : Archive W) {s : State}
      → a.state ≡ s
      → poll_finish tar sink debug (suc fuel) a
        ≡ on_finish tar sink debug (poll_finish tar sink debug fuel) s a
  unfolding poll_finish
  finish_at fuel a e =
      ap (λ (s : State). on_finish tar sink debug (poll_finish tar sink debug fuel) s a) e

  cut_grows :
      (rem : ℕ) (again more : Call (Archive W) (Unit {0})) (a : Archive W)
      → Ended (
          (attempt (slice_to empty_block rem)
              >>= (λ buf. poll_write_data tar sink buf none >> again))
            a)
      → ((b : Archive W) → Ended (again b) → more b ≡ again b)
      → (attempt (slice_to empty_block rem) >>= (λ buf. poll_write_data tar sink buf none >> more))
          a
        ≡ (attempt (slice_to empty_block rem)
              >>= (λ buf. poll_write_data tar sink buf none >> again))
            a
  cut_grows rem again more a ended grows =
      grows_bind (attempt (slice_to empty_block rem) a)
        (λ buf. poll_write_data tar sink buf none >> again)
        (λ buf. poll_write_data tar sink buf none >> more) ended
        (λ buf b ends.
          grows_bind (poll_write_data tar sink buf none b) (λ _. again) (λ _. more) ends
            (λ n. grows))

  on_finish-grows :
      (again more : Call (Archive W) (Unit {0})) (s : State) (a : Archive W)
      → Ended (on_finish tar sink debug again s a)
      → ((b : Archive W) → Ended (again b) → more b ≡ again b)
      → on_finish tar sink debug more s a ≡ on_finish tar sink debug again s a
  unfolding on_finish
  on_finish-grows again more expecting_header a ended grows =
      grows_bind (poll_write_data tar sink empty_block none a) (λ _. again) (λ _. more) ended
        (λ n. grows)
  on_finish-grows again more (receiving_header rem true) a ended grows =
      cut_grows rem again more a ended grows
  on_finish-grows again more (receiving_eof rem) a ended grows =
      cut_grows rem again more a ended grows
  on_finish-grows again more received_eof a ended grows = refl
  on_finish-grows again more (receiving_header rem false) a ended grows = refl
  on_finish-grows again more received_header a ended grows = refl
  on_finish-grows again more (receiving_data n) a ended grows = refl
  on_finish-grows again more received_data a ended grows = refl
  on_finish-grows again more (aligning_data n) a ended grows = refl
  on_finish-grows again more aligned_data a ended grows = refl

  pub poll_finish-grows :
      (fuel : ℕ) (a : Archive W)
      → Ended (poll_finish tar sink debug fuel a)
      → poll_finish tar sink debug (suc fuel) a ≡ poll_finish tar sink debug fuel a
  unfolding poll_finish
  poll_finish-grows zero a ended = absurd ended
  poll_finish-grows (suc fuel) a ended =
      on_finish-grows (poll_finish tar sink debug fuel) (poll_finish tar sink debug (suc fuel))
        a.state a ended (poll_finish-grows fuel)
