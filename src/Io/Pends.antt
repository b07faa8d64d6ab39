-- ===== src/Io/Pends.antt =====
-- What is so of the state on which a call is pending.
use tario.Prelude.{ℕ}
use tario.Io.Poll.{Call, Poll, ready, failed, pending, panicked, pass}
use tario.Io.Await.{Meets, Stays}

-- What is so of the state when a call is pending, and when it is pending or goes on.
abbrev pub Pends : {S A : Type 0} → (S → Type 0) → Poll A × S → Type 0
Pends P (ready x, s) = Unit {0}
Pends P (failed e, s) = Unit {0}
Pends P (panicked p, s) = Unit {0}
Pends P (pending, s) = P s

abbrev pub Goes : {S A : Type 0} → (S → Type 0) → Poll A × S → Type 0
Goes P (ready x, s) = P s
Goes P (failed e, s) = Unit {0}
Goes P (panicked p, s) = Unit {0}
Goes P (pending, s) = P s

pub bind-Pends :
    {S A B : Type 0} (P : S → Type 0) (o : Poll A × S) (f : A → Call S B)
    → Goes P o
    → ((x : A) (s : S) → P s → Pends P (f x s))
    → Pends P (pass o f)
bind-Pends P (ready x, s) f holds goes = goes x s holds
bind-Pends P (failed e, s) f holds goes = tt
bind-Pends P (panicked p, s) f holds goes = tt
bind-Pends P (pending, s) f holds goes = holds

pub bind-Goes :
    {S A B : Type 0} (P : S → Type 0) (o : Poll A × S) (f : A → Call S B)
    → P o.1
    → ((x : A) (s : S) → P s → Goes P (f x s))
    → Goes P (pass o f)
bind-Goes P (ready x, s) f holds goes = goes x s holds
bind-Goes P (failed e, s) f holds goes = tt
bind-Goes P (panicked p, s) f holds goes = tt
bind-Goes P (pending, s) f holds goes = holds

pub here-Goes : {S A : Type 0} (P : S → Type 0) (o : Poll A × S) → P o.1 → Goes P o
here-Goes P (ready x, s) holds = holds
here-Goes P (failed e, s) holds = tt
here-Goes P (panicked p, s) holds = tt
here-Goes P (pending, s) holds = holds

pub Stays-Pends :
    {S A : Type 0} (P : S → Type 0) (weight : S → ℕ) (v : ℕ) (o : Poll A × S)
    → Stays weight v o
    → Pends P o
Stays-Pends P weight v (ready x, s) stays = tt
Stays-Pends P weight v (failed e, s) stays = tt
Stays-Pends P weight v (panicked p, s) stays = tt
Stays-Pends P weight v (pending, s) never = absurd never

-- Where a call is pending, what is so of the state helps to make it again.
pub Meets-Pends :
    {S A : Type 0} (weight : S → ℕ) (v : ℕ) {near later P : S → Type 0} (o t : Poll A × S)
    → Pends P o
    → ((s : S) → near s → P s → later s)
    → Meets weight v near o t
    → Meets weight v later o t
Meets-Pends weight v (ready x, s) t holds again meets = meets
Meets-Pends weight v (failed e, s) t holds again meets = meets
Meets-Pends weight v (panicked p, s) t holds again meets = meets
Meets-Pends weight v (pending, s) t holds again (near, less) = (again s near holds, less)

pub Goes-Pends : {S A : Type 0} (P : S → Type 0) (o : Poll A × S) → Goes P o → Pends P o
Goes-Pends P (ready x, s) holds = tt
Goes-Pends P (failed e, s) holds = tt
Goes-Pends P (panicked p, s) holds = tt
Goes-Pends P (pending, s) holds = holds
