-- ===== src/Archive/Waits.antt =====
-- Calls of the object in an archive that may be pending, on the archive of src/lib.rs.
use tario.Prelude.{ℕ, ◌≡◌, refl, ap}
use tario.Io.Poll.{Call, Poll, ready, failed, pending, panicked}
use tario.Io.Await.{Meets}
use tario.Io.Waited.{Awaited, waited, waited-Meets}
use tario.Archive.{Archive}

-- What the object of an archive has still to wait for.
abbrev pub waits_in : {R : Type 0} → (R → ℕ) → Archive R → ℕ
waits_in waits a = waits a.io

-- A call of the object, on the archive.
abbrev pub lifted : {R A : Type 0} → Call R A → Call (Archive R) A
lifted call a = let (r, io) = call a.io in (r, record a { io = io })

module _ {R A : Type 0} (waits : R → ℕ) where
  lifts :
      (a : Archive R) (again : R → Type 0) (o t : Poll A × R)
      → Meets waits (waits a.io) again o t
      → Meets
          (waits_in waits)
          (waits a.io)
          (λ (b : Archive R). (io : R) × (b ≡ record a { io = io }) × again io)
          (o.0, record a { io = o.1 })
          (t.0, record a { io = t.1 })
  lifts a again (ready x, io) t (same, kept) =
      (ap (λ (o : Poll A × R). (o.0, record a { io = o.1 })) same, kept)
  lifts a again (failed e, io) t (same, kept) =
      (ap (λ (o : Poll A × R). (o.0, record a { io = o.1 })) same, kept)
  lifts a again (panicked p, io) t (same, kept) =
      (ap (λ (o : Poll A × R). (o.0, record a { io = o.1 })) same, kept)
  lifts a again (pending, io) t (same, less) = ((io, refl, same), less)

  -- Where a call of the object is pending, the archive is as it was but for the object.
  pub on_io-Meets :
      (call : Call R A)
      → ((r : R) → Awaited waits (waits r) (call r))
      → (a : Archive R)
      → Meets
          (waits_in waits)
          (waits a.io)
          (λ (b : Archive R).
            (io : R) × (b ≡ record a { io = io }) × (waited waits call io ≡ waited waits call a.io))
          (lifted call a)
          (lifted (waited waits call) a)
  on_io-Meets call law a =
      lifts a (λ (io : R). waited waits call io ≡ waited waits call a.io) (call a.io)
        (waited waits call a.io) (waited-Meets waits call law a.io)
