-- ===== src/Buffer/Room.antt =====
-- The buffer of a reader, which is reset when it is drained: writing into its free part.
use tario.Prelude.{
  ℕ, ◌+◌, ◌-◌, ◌%◌, ◌≤◌, ◌<◌, ◌≡◌, sym, ap, ◌∙◌, List, [], ◌++◌, arith, length, take, drop,
  length-take, drop-append_le, nil_of_length,
}
use tario.Io.Result.{ok, slice_from_lem}
use tario.Block.{block_size}
use tario.Buffer.{Buf, available_bytes_mut, write_at, capacity}
use tario.Buffer.Contents.{IsValid, contents, length-contents, write_at_lem}

-- A buffer that is read through holds a number of blocks. It is reset when it is drained, so that there
-- is room again.
pub record IsReady (b : Buf) : Type 0 where
  pub valid : IsValid b
  pub reset : b.pos ≡ b.cap → b.cap ≡ 0
  pub roomy : 0 < capacity b
  pub blocks : capacity b % block_size ≡ 0

-- What a change of the buffer has to keep.
pub IsReady-change :
    {b b' : Buf}
    → IsReady b
    → IsValid b'
    → (b'.pos ≡ b'.cap → b'.cap ≡ 0)
    → capacity b' ≡ capacity b
    → IsReady b'
IsReady-change r valid reset same =
    let roomy = r.roomy in
    record {
      valid = valid;
      reset = reset;
      roomy = omega arith;
      blocks = ap (λ (n : ℕ). n % block_size) same ∙ r.blocks;
    }

-- The buffer with `got` written into its free part, and then committed.
abbrev pub stored : Buf → List ℕ → Buf
stored b got = record b { bytes = write_at b.bytes b.cap got }

abbrev pub filled_up : Buf → List ℕ → Buf
filled_up b got = record (stored b got) { cap = b.cap + length got }

pub filled_up_lem :
    {b : Buf} (got : List ℕ)
    → IsReady b
    → length got ≤ capacity b - b.cap
    → IsReady (filled_up b got) × (contents (filled_up b got) ≡ contents b ++ got)
filled_up_lem {b} got r fits =
    let ordered = r.valid.ordered in
    let inside = r.valid.inside in
    let allocated = r.valid.allocated in
    let roomy = r.roomy in
    let (sized, view) = write_at_lem b.bytes b.cap got (omega arith) in
    (
      IsReady-change r
          (record { ordered = omega arith; inside = omega arith; allocated = omega arith })
          (λ e. let z = r.reset (omega arith) in omega arith) sized,
      ap (drop b.pos) view
          ∙ drop-append_le b.pos (take b.cap b.bytes) got
              (omega (arith, length-take b.cap b.bytes)),
    )

-- A drained buffer stands at its start, with all of its room.
pub drained : {b : Buf} → IsReady b → length (contents b) ≡ 0 → b.cap ≡ 0
drained {b} r none_left =
    let len = length-contents r.valid in let ordered = r.valid.ordered in r.reset (omega arith)

pub available_lem : {b : Buf} → IsReady b → available_bytes_mut b ≡ ok (drop b.cap b.bytes)
unfolding available_bytes_mut
available_lem {b} r = slice_from_lem b.bytes b.cap r.valid.inside

pub stored_lem :
    {b : Buf} (got : List ℕ)
    → IsReady b
    → length got ≤ capacity b - b.cap
    → available_bytes_mut (stored b got) ≡ ok (drop b.cap (write_at b.bytes b.cap got))
unfolding available_bytes_mut
stored_lem {b} got r fits =
    let inside = r.valid.inside in
    let (sized, view) = write_at_lem b.bytes b.cap got (omega arith) in
    slice_from_lem (write_at b.bytes b.cap got) b.cap (omega arith)

-- Nothing is stored in a drained buffer.
pub stored_none :
    {b : Buf}
    → IsReady b
    → length (contents b) ≡ 0
    → IsReady (stored b []) × (contents (stored b []) ≡ contents b)
stored_none {b} r none_left =
    let ordered = r.valid.ordered in
    let inside = r.valid.inside in
    let allocated = r.valid.allocated in
    let roomy = r.roomy in
    let (sized, view) = write_at_lem b.bytes b.cap [] (omega arith) in
    let valid : IsValid (stored b []) = record {
      ordered = omega arith;
      inside = omega arith;
      allocated = omega arith;
    } in
    let len = length-contents r.valid in
    let len' = length-contents valid in
    (
      IsReady-change r valid r.reset sized,
      nil_of_length (contents (stored b [])) (omega arith)
          ∙ sym (nil_of_length (contents b) none_left),
    )
