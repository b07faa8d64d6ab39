-- ===== src/Buffer.antt =====
-- src/shared/buffer.rs: a fixed buffer with a write cursor `cap` and a read cursor `pos`.
pub mod Contents
pub mod Room
pub mod Queue
use tario.Prelude.{
  ℕ, zero, suc, ◌+◌, ◌-◌, ◌*◌, ◌/◌, ◌%◌, ◌^◌, ◌≤◌, ◌<◌, min, ◌≡◌, refl, sym, ap, ◌∙◌, ◌≢◌, ◌⊎◌, inl,
  inr, Bool, true, false, not, ◌&&◌, ◌||◌, Option, none, some, List, [], ◌∷◌, ◌++◌, append-nil,
  append_assoc, arith, ltb, leb, ◌==◌, if◌then◌else◌, Bool-cases, le-cases, length, take, drop,
  replicate, is_empty, concat, all_zero, length-append, length-take, length-drop, length-replicate,
  take-append-drop, take_all, drop_all, take-append_le, take-append_add, drop-append_le,
  drop-append_add, all_zero-append, take-append_self, drop-append_self, all_zero-replicate,
  concat-append,
}
use tario.Io.Result.{
  Result, ok, err, panic, ◌>>=◌, ◌>>◌, assert, slice_to, slice_from, slice_range, overflow,
}

-- `Buf`; the field `buf` of the source is `bytes`.
pub record Buf : Type 0 where
  pub bytes : List ℕ
  pub cap : ℕ
  pub pos : ℕ

-- The largest allocation, `isize::MAX`: `vec!` panics on more.
abbrev pub max_alloc : ℕ
max_alloc = 2 ^ 63 - 1

abbrev pub usize_size : ℕ
usize_size = 2 ^ 64

-- `Buf::new`
unfoldable pub new : ℕ → Result Buf
new capacity = do
  assert (leb capacity max_alloc) overflow
  ok (record { bytes = replicate capacity 0; cap = 0; pos = 0 })

-- `Buf::capacity`
abbrev pub capacity : Buf → ℕ
capacity b = length b.bytes

-- `Buf::clear`
abbrev pub clear : Buf → Buf
clear b = record b { cap = 0; pos = 0 }

-- `Region` and `RegionMut`: a part of the buffer and the cursor that they move, which is `pos` of the
-- buffer for the one and `cap` for the other.
pub record Region : Type 0 where
  pub bytes : List ℕ
  pub cursor : ℕ

-- `Buf::buffered`, and the buffer once the region's cursor has moved.
unfoldable pub buffered : Buf → Result Region
buffered b = do written ← slice_to b.bytes b.cap; ok (record { bytes = written; cursor = b.pos })

abbrev pub after_read : Buf → Region → Buf
after_read b r = record b { pos = r.cursor }

-- `Buf::available`, and the buffer once the region has been written to.
abbrev pub available : Buf → Region
available b = record { bytes = b.bytes; cursor = b.cap }

abbrev pub after_write : Buf → Region → Buf
after_write b r = record b { bytes = r.bytes; cap = r.cursor }

-- `Buf::buffered_bytes`
unfoldable pub buffered_bytes : Buf → Result (List ℕ)
buffered_bytes b = slice_range b.bytes b.pos b.cap

-- `Buf::available_bytes_mut`
unfoldable pub available_bytes_mut : Buf → Result (List ℕ)
available_bytes_mut b = slice_from b.bytes b.cap

-- `ReadableRegion::capacity`
abbrev pub region_capacity : Region → ℕ
region_capacity r = length r.bytes

-- `ReadableRegion::remaining`; the subtraction panics below 0.
unfoldable pub remaining : Region → Result ℕ
remaining r =
    if leb r.cursor (region_capacity r) then ok (region_capacity r - r.cursor) else panic overflow

-- `Region::len` is what remains to be read, `RegionMut::len` is what has been written.
abbrev pub region_len : Region → Result ℕ
region_len r = remaining r

abbrev pub region_mut_len : Region → ℕ
region_mut_len r = r.cursor

-- `ReadableRegion::is_empty`, at `Region`.
unfoldable pub region_is_empty : Region → Result Bool
unfolding remaining
region_is_empty r = do n ← region_len r; ok (n == 0)

-- `ReadableRegion::commit`
unfoldable pub commit : Region → ℕ → Result Region
commit r amt = do
  assert (ltb (r.cursor + amt) usize_size) overflow
  ok (record r { cursor = r.cursor + amt })

-- `ReadableRegion::bytes`
unfoldable pub region_bytes : Region → Result (List ℕ)
region_bytes r = slice_from r.bytes r.cursor

-- `buf` and `buf_mut` of a region, and `WritableRegion::bytes_mut`.
abbrev pub region_buf : Region → List ℕ
region_buf r = r.bytes

abbrev pub bytes_mut : Region → Result (List ℕ)
bytes_mut r = slice_from (region_buf r) r.cursor

-- `copy_from_slice` into the bytes from an offset on.
abbrev pub write_at : List ℕ → ℕ → List ℕ → List ℕ
write_at bytes at src = take at bytes ++ (src ++ drop (at + length src) bytes)

-- The branch of `fill` that copies `len` bytes.
unfoldable pub copy_in : Region → List ℕ → ℕ → Result Region
unfolding commit
copy_in r slice len = do
  room ← bytes_mut r
  target ← slice_to room len
  src ← slice_to slice len
  commit (record r { bytes = write_at r.bytes r.cursor src }) len

-- `WritableRegion::fill`
unfoldable pub fill : Region → List ℕ → Result (Region × ℕ)
unfolding remaining copy_in
fill r slice = do
  max ← remaining r
  let len = min (length slice) max
  r' ← if ltb 0 len then copy_in r slice len else ok r
  ok (r', len)

-- The fold of `WritableRegion::fill_from_slices`.
unfoldable pub fill_from : Region → ℕ → List (List ℕ) → Result (Region × ℕ)
fill_from r len [] = ok (r, len)
fill_from r len (s ∷ ss) = do (r', n) ← fill r s; fill_from r' (len + n) ss

-- `WritableRegion::fill_from_slices`
unfoldable pub fill_from_slices : Region → List (List ℕ) → Result (Region × ℕ)
unfolding fill_from
fill_from_slices r slices = fill_from r 0 slices
