-- ===== src/Write/Room.antt =====
-- The first half of `Archive::poll_write_vectored` of src/write/mod.rs: room is made.
use tario.Prelude.{
  ℕ, ◌-◌, ◌≡◌, refl, sym, inl, inr, Bool, true, false, List, [], ◌++◌, arith, ltb, leb,
  if◌then◌else◌, Bool-cases,
}
use mathlib.Core.Path.{subst}
use tario.Io.Poll.{Poll, ready, failed, pending, panicked, done}
use tario.Block.{Tar}
use tario.Buffer.{capacity, remaining}
use tario.Buffer.Contents.{IsValid, contents}
use tario.Archive.{Archive}
use tario.Write.Calls.{AsyncWrite, make_room, poll_flush_buffered}
use tario.Write.Flush.{Sends, Keeps, poll_flush_buffered-Keeps}

-- What a call leaves that is to make room: the bytes in their order, and nothing in the buffer where
-- the slices are to be passed through.
abbrev pub MadeRoom :
    {W : Type 0} → (W → List ℕ) → Bool → Archive W → Poll (Unit {0}) × Archive W → Type 0
MadeRoom sent through a (ready _, b) =
    (sent b.io ++ contents b.buf ≡ sent a.io ++ contents a.buf)
    × IsValid b.buf
    × (b.state ≡ a.state)
    × (through ≡ true → contents b.buf ≡ [])
MadeRoom sent through a (failed e, b) =
    (sent b.io ++ contents b.buf ≡ sent a.io ++ contents a.buf)
    × IsValid b.buf
    × (b.state ≡ a.state)
MadeRoom sent through a (pending, b) =
    (sent b.io ++ contents b.buf ≡ sent a.io ++ contents a.buf)
    × IsValid b.buf
    × (b.state ≡ a.state)
MadeRoom sent through a (panicked p, b) = ⊥

module _ {W : Type 0} (tar : Tar) (sink : AsyncWrite W) (sent : W → List ℕ)
    (law : (bytes : List ℕ) (w : W) → Sends sent bytes w (sink.poll_write bytes w)) where
  flush-MadeRoom :
      (through : Bool) (a : Archive W) (r : Poll (Unit {0}) × Archive W)
      → Keeps sent a r
      → MadeRoom sent through a r
  flush-MadeRoom through a (ready x, b) (same, valid, still, empty) =
      (same, valid, still, (λ _. empty))
  flush-MadeRoom through a (failed e, b) (same, valid, still, _) = (same, valid, still)
  flush-MadeRoom through a (pending, b) (same, valid, still, _) = (same, valid, still)
  flush-MadeRoom through a (panicked p, b) (same, valid, still, never) = never

  pub make_room-MadeRoom :
      (n : ℕ) (through : Bool) (a : Archive W)
      → IsValid a.buf
      → MadeRoom sent through a (make_room tar sink n through a)
  unfolding make_room remaining
  make_room-MadeRoom n true a v =
      flush-MadeRoom true a (poll_flush_buffered tar sink a)
        (poll_flush_buffered-Keeps tar sink sent law a v)
  make_room-MadeRoom n false a v =
      let inside = v.inside in
      let some_room : leb a.buf.cap (capacity a.buf) ≡ true = ground arith in
      let shows : make_room tar sink n false a
          ≡ (if ltb (capacity a.buf - a.buf.cap) n then poll_flush_buffered tar sink else done tt)
              a =
        rw (make_room, some_room) in
      subst (MadeRoom sent false a) (sym shows)
        (elim (Bool-cases (ltb (capacity a.buf - a.buf.cap) n)) [
          | inl z ↦ rw z (
              flush-MadeRoom false a (poll_flush_buffered tar sink a)
                (poll_flush_buffered-Keeps tar sink sent law a v))
          | inr z ↦ rw z (refl, v, refl, (λ h. absurd (ground arith)))
        ])
