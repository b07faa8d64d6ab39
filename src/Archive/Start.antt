-- ===== src/Archive/Start.antt =====
-- The constructors `Archive::with_capacity` and `Archive::new` of src/lib.rs.
use tario.Prelude.{
  ℕ, ◌*◌, ◌%◌, ◌≤◌, ◌<◌, ◌≡◌, refl, inl, inr, true, false, [], arith, ltb, leb, Bool-cases,
  replicate, length-replicate, take_all,
}
use tario.Io.Result.{ok, panic, overflow}
use tario.Block.{block_size}
use tario.Buffer.{Buf, capacity, max_alloc, usize_size}
use tario.Buffer
use tario.Buffer.Contents.{contents}
use tario.Buffer.Room.{IsReady}
use tario.State.{expecting_header}
use tario.Archive.{Archive, with_capacity}

-- What an archive starts with: an empty buffer of `n` bytes, before the first header.
abbrev pub Starts : {T : Type 0} → T → ℕ → Archive T → Type 0
Starts io n a =
    IsReady a.buf
    × (contents a.buf ≡ [])
    × (capacity a.buf ≡ n)
    × (a.state ≡ expecting_header)
    × (a.io ≡ io)

module _ {T : Type 0} (io : T) where
  new_buf-IsReady :
      (n : ℕ)
      → 0 < n
      → n % block_size ≡ 0
      → n ≤ max_alloc
      → IsReady (record { bytes = replicate n 0; cap = 0; pos = 0 })
  new_buf-IsReady n some_bytes even fits =
      let len = length-replicate {A = ℕ} n 0 in
      record {
        valid = record { ordered = omega arith; inside = omega arith; allocated = omega arith };
        reset = λ e. refl;
        roomy = omega arith;
        blocks = omega arith;
      }

  -- `with_capacity` of some blocks that can be allocated makes an archive whose buffer is empty, of just
  -- that size, and ready to be filled, before the first header and around the object that was given.
  pub with_capacity-Starts :
      (n : ℕ)
      → 0 < n
      → n * block_size ≤ max_alloc
      → (a : Archive T) × (with_capacity io n ≡ ok a) × Starts io (n * block_size) a
  unfolding with_capacity Buffer.new
  with_capacity-Starts n some_blocks fits =
      let small : ltb (n * block_size) usize_size ≡ true = ground arith in
      let enough : leb (n * block_size) max_alloc ≡ true = ground arith in
      (
        record {
          buf = record { bytes = replicate (n * block_size) 0; cap = 0; pos = 0 };
          state = expecting_header;
          io = io;
        },
        rw (small, enough) refl,
        (
          new_buf-IsReady (n * block_size) (omega arith) (omega arith) fits,
          take_all 0 [] (omega arith),
          length-replicate (n * block_size) 0,
          refl,
          refl,
        ),
      )

  -- It panics if there are more bytes than that.
  with_capacity_panics : (n : ℕ) → max_alloc < n * block_size → with_capacity io n ≡ panic overflow
  unfolding with_capacity Buffer.new
  with_capacity_panics n many =
      let more : leb (n * block_size) max_alloc ≡ false = ground arith in
      elim (Bool-cases (ltb (n * block_size) usize_size)) [
        | inl z ↦ rw (z, more) refl
        | inr z ↦ rw z refl
      ]
