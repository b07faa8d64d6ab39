-- ===== src/Io/Await.antt =====
-- Calls that may be pending, against calls that wait: what `poll_fn(…).await` comes to.
use tario.Prelude.{ℕ, zero, suc, ◌≤◌, ◌<◌, ◌≡◌, refl, sym, ap, ◌∙◌, arith}
use mathlib.Core.Path.{subst}
use tario.Io.Poll.{
  pass_of, Poll, ready, failed, pending, panicked, Call, pass, of_result, awaits, polled,
}
use tario.Io.Result.{Panic, panic, err, ok, Result, no_fuel}

-- A call that has not run out of fuel.
abbrev IsPanic : Panic → Type 0
IsPanic no_fuel = ⊥
IsPanic _ = Unit {0}

abbrev pub Ended : {S A : Type 0} → Poll A × S → Type 0
Ended (panicked p, s) = IsPanic p
Ended (ready x, s) = Unit {0}
Ended (failed e, s) = Unit {0}
Ended (pending, s) = Unit {0}

abbrev pub IsDone : {S A : Type 0} → Poll A × S → Type 0
IsDone (ready x, s) = Unit {0}
IsDone _ = ⊥

-- A call that may be pending, against the outcome of one that waits: it is pending with less to wait for
-- and what is `later`, or it has that outcome. The weight is what there is to wait for at most.
abbrev pub Meets : {S A : Type 0} → (S → ℕ) → ℕ → (S → Type 0) → Poll A × S → Poll A × S → Type 0
Meets weight v later (ready x, s) t = ((ready x, s) ≡ t) × (weight s ≤ v)
Meets weight v later (failed e, s) t = ((failed e, s) ≡ t) × (weight s ≤ v)
Meets weight v later (panicked p, s) t = ((panicked p, s) ≡ t) × (weight s ≤ v)
Meets weight v later (pending, s) t = later s × (weight s < v)

-- A call that is never pending.
abbrev pub Stays : {S A : Type 0} → (S → ℕ) → ℕ → Poll A × S → Type 0
Stays weight v (pending, s) = ⊥
Stays weight v (ready x, s) = weight s ≤ v
Stays weight v (failed e, s) = weight s ≤ v
Stays weight v (panicked p, s) = weight s ≤ v

module _ {S A : Type 0} (weight : S → ℕ) (v : ℕ) where
  pub here-Meets :
      (later : S → Type 0) (o t : Poll A × S) → Stays weight v o → o ≡ t → Meets weight v later o t
  here-Meets later (ready x, s) t kept same = (same, kept)
  here-Meets later (failed e, s) t kept same = (same, kept)
  here-Meets later (panicked p, s) t kept same = (same, kept)
  here-Meets later (pending, s) t never same = absurd never

  pub Meets-change :
      {near later : S → Type 0} (u : ℕ) (o t t' : Poll A × S)
      → u ≤ v
      → t ≡ t'
      → ((s : S) → near s → later s)
      → Meets weight u near o t
      → Meets weight v later o t'
  Meets-change u (ready x, s) t t' le same again (e, kept) = (e ∙ same, omega arith)
  Meets-change u (failed x, s) t t' le same again (e, kept) = (e ∙ same, omega arith)
  Meets-change u (panicked x, s) t t' le same again (e, kept) = (e ∙ same, omega arith)
  Meets-change u (pending, s) t t' le same again (next, less) = (again s next, omega arith)

  pub result-Stays : (r : Result A) (s : S) → weight s ≤ v → Stays weight v (of_result r, s)
  result-Stays (ok x) s kept = kept
  result-Stays (err e) s kept = kept
  result-Stays (panic p) s kept = kept

module _ {S A B : Type 0} (weight : S → ℕ) (v : ℕ) where
  pub bind-Stays :
      (o : Poll A × S) (f : A → Call S B)
      → Stays weight v o
      → ((x : A) (s : S) → weight s ≤ v → Stays weight v (f x s))
      → Stays weight v (pass o f)
  bind-Stays (ready x, s) f kept goes = goes x s kept
  bind-Stays (failed e, s) f kept goes = kept
  bind-Stays (panicked p, s) f kept goes = kept
  bind-Stays (pending, s) f never goes = absurd never

  pub bind-Meets :
      {near later : S → Type 0} (o t : Poll A × S) (f g : A → Call S B)
      → Meets weight v near o t
      → ((s : S) → near s → later s)
      → ((x : A) (s : S) → (ready x, s) ≡ t → weight s ≤ v → Meets weight v later (f x s) (g x s))
      → Meets weight v later (pass o f) (pass t g)
  bind-Meets {later = later} (ready x, s) t f g (same, kept) again goes =
      subst (λ (q : Poll A × S). Meets weight v later (f x s) (pass q g)) same (goes x s same kept)
  bind-Meets (failed e, s) t f g (same, kept) again goes = (pass_of g same, kept)
  bind-Meets (panicked p, s) t f g (same, kept) again goes = (pass_of g same, kept)
  bind-Meets (pending, s) t f g (near, less) again goes = (again s near, less)

-- The call that comes next, where the `whole` is made again when it is pending.
pub next-Meets :
    {S A : Type 0} (weight : S → ℕ) (v : ℕ) (again waited whole : Call S A) (t : Poll A × S)
    → ((c : S)
        → Ended (waited c)
        → Meets weight (weight c) (λ (d : S). waited d ≡ waited c) (again c) (waited c))
    → ((c : S) → Ended (waited c) → whole c ≡ waited c)
    → (c : S) → waited c ≡ t
    → Ended t
    → weight c ≤ v
    → Meets weight v (λ (d : S). whole d ≡ t) (again c) (waited c)
next-Meets weight v again waited whole t resumes grows c same ended kept =
    let ends : Ended (waited c) = subst Ended (sym same) ended in
    Meets-change weight v (weight c) (again c) (waited c) (waited c) kept refl
      (λ d resumed. grows d (subst Ended (sym resumed) ends) ∙ (resumed ∙ same)) (resumes c ends)

-- More fuel behind a call changes nothing where less was enough.
pub grows_bind :
    {S A B : Type 0} (o : Poll A × S) (f g : A → Call S B)
    → Ended (pass o f)
    → ((x : A) (s : S) → Ended (f x s) → g x s ≡ f x s)
    → pass o g ≡ pass o f
grows_bind (ready x, s) f g ended goes = goes x s ended
grows_bind (failed e, s) f g ended goes = refl
grows_bind (panicked p, s) f g ended goes = refl
grows_bind (pending, s) f g ended goes = refl

pub first-Ended : {S A B : Type 0} (o : Poll A × S) (f : A → Call S B) → Ended (pass o f) → Ended o
first-Ended (ready x, s) f ended = tt
first-Ended (failed e, s) f ended = tt
first-Ended (pending, s) f ended = tt
first-Ended (panicked p, s) f ended = ended

module _ {S A : Type 0} (weight : S → ℕ) (call waiting : Call S A) (Fine : Poll A × S → Type 0)
    (meets : (s : S)
      → Fine (waiting s)
      → Meets weight (weight s) (λ (t : S). waiting t ≡ waiting s) (call s) (waiting s)) where
  polled_waits :
      (again : Call S A) (s : S) (o : Poll A × S)
      → Meets weight (weight s) (λ (t : S). waiting t ≡ waiting s) o (waiting s)
      → ((t : S)
          → weight t < weight s
          → waiting t ≡ waiting s
          → (again t ≡ waiting t) × (weight ((waiting t).1) ≤ weight t))
      → (polled again o ≡ waiting s) × (weight ((waiting s).1) ≤ weight s)
  polled_waits again s (ready x, t) (same, kept) goes = (same, rw (sym same) kept)
  polled_waits again s (failed x, t) (same, kept) goes = (same, rw (sym same) kept)
  polled_waits again s (panicked x, t) (same, kept) goes = (same, rw (sym same) kept)
  polled_waits again s (pending, t) (same, less) goes =
      let (answers, kept) = goes t less same in
      (answers ∙ same, omega (arith, ap (λ (o : Poll A × S). weight (o.1)) same))

  -- A call that is awaited comes to what one that waits gives.
  pub awaits-Meets :
      (polls : ℕ) (s : S)
      → Fine (waiting s)
      → weight s < polls
      → (awaits polls call s ≡ waiting s) × (weight ((waiting s).1) ≤ weight s)
  unfolding awaits
  awaits-Meets zero s fine h = absurd (omega arith)
  awaits-Meets (suc polls) s fine h =
      polled_waits (awaits polls call) s (call s) (meets s fine)
        (λ (t : S) less same. awaits-Meets polls t (subst Fine (sym same) fine) (omega arith))

-- Two calls that end alike, with no more to wait for.
abbrev pub Agrees : {S A : Type 0} → (S → ℕ) → ℕ → Poll A × S → Poll A × S → Type 0
Agrees weight v o t = (o ≡ t) × (weight (t.1) ≤ v)

pub first-IsDone :
    {S A B : Type 0} (o : Poll A × S) (f : A → Call S B) → IsDone (pass o f) → IsDone o
first-IsDone (ready x, s) f is = tt
first-IsDone (failed e, s) f never = never
first-IsDone (pending, s) f never = never
first-IsDone (panicked p, s) f never = never

module _ {S A B : Type 0} (weight : S → ℕ) (v : ℕ) where
  pub bind-Agrees :
      (o t : Poll A × S) (f g : A → Call S B)
      → IsDone (pass t g)
      → Agrees weight v o t
      → ((x : A) (s : S) → weight s ≤ v → IsDone (g x s) → Agrees weight v (f x s) (g x s))
      → Agrees weight v (pass o f) (pass t g)
  bind-Agrees o (ready x, s) f g is (same, kept) goes =
      let (same', kept') = goes x s kept is in (pass_of f same ∙ same', kept')
  bind-Agrees o (failed e, s) f g never (same, kept) goes = absurd never
  bind-Agrees o (pending, s) f g never (same, kept) goes = absurd never
  bind-Agrees o (panicked p, s) f g never (same, kept) goes = absurd never

pub Agrees-change :
    {S A : Type 0} (weight : S → ℕ) (u v : ℕ) {o t : Poll A × S}
    → u ≤ v
    → Agrees weight u o t
    → Agrees weight v o t
Agrees-change weight u v le (same, kept) = (same, omega arith)

polled_once : {S A : Type 0} (call : Call S A) (o : Poll A × S) → polled (awaits 0 call) o ≡ o
unfolding awaits
polled_once call (ready x, s) = refl
polled_once call (failed e, s) = refl
polled_once call (pending, s) = refl
polled_once call (panicked p, s) = refl

-- One poll is the call itself.
pub awaits_once : {S A : Type 0} (call : Call S A) (s : S) → awaits 1 call s ≡ call s
unfolding awaits
awaits_once call s = polled_once call (call s)
