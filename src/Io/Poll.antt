-- ===== src/Io/Poll.antt =====
-- `Poll<io::Result<A>>`, with the panics of the code, and calls that also change what they work on.
use tario.Prelude.{ℕ, zero, suc, ◌≡◌, ap}
use tario.Io.Error.{IoError, ReadError, WriteError, read_error_into_io, write_error_into_io}
use tario.Io.Result.{Result, ok, err, panic, Panic}

pub data Poll (A : Type 0) : Type 0 where
  ready : A → Poll A
  failed : IoError → Poll A
  pending : Poll A
  panicked : Panic → Poll A

-- The conversions of the crate's errors into a poll.
abbrev pub read_error_into_poll : {A : Type 0} → ReadError → Poll A
read_error_into_poll e = failed (read_error_into_io e)

abbrev pub write_error_into_poll : {A : Type 0} → WriteError → Poll A
write_error_into_poll e = failed (write_error_into_io e)

-- A call on a mutable `S`. What was changed before an error, or before the call is pending, stays.
abbrev pub Call : Type 0 → Type 0 → Type 0
Call S A = S → Poll A × S

abbrev pub done : {S A : Type 0} → A → Call S A
done a s = (ready a, s)

abbrev pub fail : {S A : Type 0} → IoError → Call S A
fail e s = (failed e, s)

abbrev pub crash : {S A : Type 0} → Panic → Call S A
crash p s = (panicked p, s)

-- `ready!(…)?` on the outcome of a call, and as a bind.
abbrev pub pass : {S A B : Type 0} → Poll A × S → (A → Call S B) → Poll B × S
pass (ready a, s) f = f a s
pass (failed e, s) f = (failed e, s)
pass (pending, s) f = (pending, s)
pass (panicked p, s) f = (panicked p, s)

infixl 5 ◌>>=◌ ◌>>◌
abbrev pub ◌>>=◌ : {S A B : Type 0} → Call S A → (A → Call S B) → Call S B
◌>>=◌ m f s = pass (m s) f

abbrev pub ◌>>◌ : {S A B : Type 0} → Call S A → Call S B → Call S B
m >> k = m >>= λ _. k

-- A call that is not asynchronous and changes nothing.
abbrev pub of_result : {A : Type 0} → Result A → Poll A
of_result (ok a) = ready a
of_result (err e) = failed e
of_result (panic p) = panicked p

abbrev pub attempt : {S A : Type 0} → Result A → Call S A
attempt r s = (of_result r, s)

abbrev pub asks : {S A : Type 0} → (S → Result A) → Call S A
asks f s = (of_result (f s), s)

abbrev pub modify : {S : Type 0} → (S → S) → Call S (Unit {0})
modify f s = (ready tt, f s)

-- Calls of one outcome go on alike.
pub pass_of : {S A B : Type 0} {p q : Poll A × S} (f : A → Call S B) → p ≡ q → pass p f ≡ pass q f
pass_of f e = ap (λ r. pass r f) e

-- What is done with the outcome of a poll: a pending one is followed by another.
abbrev pub polled : {S A : Type 0} → Call S A → Poll A × S → Poll A × S
polled again (ready a, s) = (ready a, s)
polled again (failed e, s) = (failed e, s)
polled again (pending, s) = again s
polled again (panicked p, s) = (panicked p, s)

-- `poll_fn(…).await`, which polls again while the call is pending, on so many polls.
unfoldable pub awaits : {S A : Type 0} → ℕ → Call S A → Call S A
awaits zero call s = (pending, s)
awaits (suc polls) call s = polled (awaits polls call) (call s)

-- A poll that is ready ends the await.
pub awaits_ready :
    {S A : Type 0} (polls : ℕ) (call : Call S A) (s : S) {a : A} {s' : S}
    → call s ≡ (ready a, s')
    → awaits (suc polls) call s ≡ (ready a, s')
unfolding awaits
awaits_ready polls call s e = ap (polled (awaits polls call)) e
