-- ===== src/Io/Waited.antt =====
-- An object that may be pending, as one that waits until it is not.
use tario.Prelude.{ℕ, zero, suc, ◌≤◌, ◌<◌, ◌≡◌, refl, arith}
use tario.Io.Poll.{Call, Poll, ready, failed, pending, panicked, awaits, polled}
use tario.Io.Await.{Meets}

-- How often an object can still be pending, as a bound that each time goes down.
abbrev pub Awaited : {S A : Type 0} → (S → ℕ) → ℕ → Poll A × S → Type 0
Awaited waits v (pending, r) = waits r < v
Awaited waits v (ready x, r) = waits r ≤ v
Awaited waits v (failed e, r) = waits r ≤ v
Awaited waits v (panicked p, r) = waits r ≤ v

-- A call of the object, polled until it is not pending.
abbrev pub waited : {S A : Type 0} → (S → ℕ) → Call S A → Call S A
waited waits call r = awaits (suc (waits r)) call r

module _ {S A : Type 0} (waits : S → ℕ) (call : Call S A)
    (law : (r : S) → Awaited waits (waits r) (call r)) where
  polled_enough :
      (m n v : ℕ) (o : Poll A × S)
      → Awaited waits v o
      → ((r : S) → waits r < v → awaits m call r ≡ awaits n call r)
      → polled (awaits m call) o ≡ polled (awaits n call) o
  polled_enough m n v (ready x, r) less again = refl
  polled_enough m n v (failed e, r) less again = refl
  polled_enough m n v (panicked p, r) less again = refl
  polled_enough m n v (pending, r) less again = again r less

  -- Any number of polls that is enough gives the same.
  awaits_enough : (m n : ℕ) (r : S) → waits r < m → waits r < n → awaits m call r ≡ awaits n call r
  unfolding awaits
  awaits_enough zero n r h k = absurd (omega arith)
  awaits_enough (suc m) zero r h k = absurd (omega arith)
  awaits_enough (suc m) (suc n) r h k =
      polled_enough m n (waits r) (call r) (law r)
        (λ (t : S) less. awaits_enough m n t (omega arith) (omega arith))

  polled-Meets :
      (r : S) (o : Poll A × S)
      → Awaited waits (waits r) o
      → Meets waits
          (waits r)
          (λ (t : S). waited waits call t ≡ polled (awaits (waits r) call) o)
          o
          (polled (awaits (waits r) call) o)
  polled-Meets r (ready x, t) less = (refl, less)
  polled-Meets r (failed e, t) less = (refl, less)
  polled-Meets r (panicked p, t) less = (refl, less)
  polled-Meets r (pending, t) less =
      (awaits_enough (suc (waits t)) (waits r) t (omega arith) less, less)

  pub waited-Meets :
      (r : S)
      → Meets waits
          (waits r)
          (λ (t : S). waited waits call t ≡ waited waits call r)
          (call r)
          (waited waits call r)
  unfolding awaits
  waited-Meets r = polled-Meets r (call r) (law r)
