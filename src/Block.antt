-- ===== src/Block.antt =====
-- src/shared/block.rs: the 512-byte block, its checksum, and its view as a header.
pub mod Cksum
use tario.Prelude.{
  ◌⊎◌, inl, inr, ℕ, ◌+◌, ◌*◌, List, ◌++◌, ◌==◌, if◌then◌else◌, length, take, drop, replicate,
}
use mathlib.Core.List.{foldl}
use tario.Io.Error.{IoError, checksum}
use tario.Io.Result.{Result, ok, err, ◌>>=◌, ◌>>◌, assert, assertion}

abbrev pub block_size : ℕ
block_size = 512

-- A `Header` of the tar crate is the block of bytes that it was cast from.
abbrev pub Header : Type 0
Header = List ℕ

-- The readings of a header that the crate takes from the tar crate: `Header::cksum`,
-- `Header::size` and `Header::entry_size`. Each gives a number, or an error on the left.
pub record Tar : Type 0 where
  pub cksum : Header → IoError ⊎ ℕ
  pub size : Header → IoError ⊎ ℕ
  pub entry_size : Header → IoError ⊎ ℕ

abbrev pub lift : IoError ⊎ ℕ → Result ℕ
lift (inl e) = err e
lift (inr n) = ok n

-- `Block`, of which the length is the one of a block.
abbrev pub Block : Type 0
Block = List ℕ

-- `EMPTY_BLOCK`
unfoldable pub empty_block : List ℕ
empty_block = replicate block_size 0

-- `Block::new` and `Block::default`
abbrev pub new_block : Block
new_block = empty_block

abbrev pub default_block : Block
default_block = new_block

-- `cast`: the sizes and the alignments of the two types are asserted to be equal.
abbrev pub cast : {A : Type 0} → ℕ × ℕ → ℕ × ℕ → A → Result A
cast from to a = do assert (from.0 == to.0) assertion; assert (from.1 == to.1) assertion; ok a

-- The size and the alignment of a block, of its array of bytes, and of a header.
abbrev pub block_layout : ℕ × ℕ
block_layout = (block_size, 1)

-- `cast_bytes` to a block: the size and the alignment are asserted to be equal.
abbrev pub cast_bytes : List ℕ → Result Block
cast_bytes bytes = cast (length bytes, 1) block_layout bytes

-- `Block::from_bytes`
unfoldable pub from_bytes : List ℕ → Result (List ℕ)
from_bytes value = cast_bytes value

-- `Block::empty`
abbrev pub empty : Result Block
empty = from_bytes empty_block

-- `Block::as_bytes`
abbrev pub as_bytes : List ℕ → List ℕ
as_bytes block = block

-- The fold over the bytes outside of the checksum field, which counts as eight spaces.
unfoldable pub calc_cksum : List ℕ → ℕ
calc_cksum bytes = foldl (λ a b. a + b) 0 (take 148 bytes ++ drop 156 bytes) + 8 * 32

-- `Block::as_header`: the block itself, if its checksum is the one that it states.
unfoldable pub as_header : Tar → List ℕ → Result Header
unfolding calc_cksum
as_header tar bytes = do
  header ← cast block_layout block_layout bytes
  expected ← lift (tar.cksum header)
  let actual = calc_cksum bytes
  if expected == actual then ok header else err (checksum expected actual)
