-- ===== src/Io/Texts.antt =====
-- The texts of the errors, `Display` in src/shared/state.rs, src/read/error.rs and src/write/error.rs.
use tario.Prelude.{
  ℕ, zero, suc, ◌+◌, ◌-◌, ◌*◌, ◌/◌, ◌%◌, ◌^◌, ◌<◌, ◌≡◌, refl, ◌∙◌, inl, inr, List, [], ◌∷◌, ◌++◌,
  arith, ltb, if◌then◌else◌, Bool-cases,
}
use Prim.Native.Char.{code}
use Prim.Native.String.{String}
use tario.Io.Error.{StateError, expecting_header, expecting_empty_block, eof, ReadError, WriteError}

-- A text is the list of its codes.
abbrev pub codes : String → List ℕ
codes String.[] = []
codes (String.◌∷◌ c s) = code c ∷ codes s

-- The digits of a `usize`, of which there are twenty at most.
unfoldable pub digits : ℕ → ℕ → List ℕ
digits zero n = []
digits (suc fuel) n =
    let front = digits fuel (n / 10) in
    if ltb n 10 then (48 + n) ∷ [] else (front ++ (48 + n % 10) ∷ [])

abbrev pub decimal : ℕ → List ℕ
decimal n = digits 20 n

unfoldable pub state_error_text : StateError → List ℕ
state_error_text expecting_header = codes "expecting header"
state_error_text expecting_empty_block = codes "expecting empty block"
state_error_text eof = codes "cannot process data after eof"

abbrev more_data : ℕ → ℕ → List ℕ
more_data expected received =
    codes "expecting more data for entry; expected = "
    ++ (decimal expected ++ (codes ", received = " ++ decimal received))

unfoldable pub read_error_text : ReadError → List ℕ
read_error_text (ReadError.unexpected_eof expected received) = more_data expected received

unfoldable pub write_error_text : WriteError → List ℕ
write_error_text (WriteError.unexpected_eof expected received) = more_data expected received
write_error_text WriteError.write_zero = codes "failed to write the buffered data"
write_error_text WriteError.overlapping_entry =
    codes "cannot write new entry while another is being written"

-- The text of the error that `Block::as_header` makes of two checksums.
abbrev pub checksum_text : ℕ → ℕ → List ℕ
checksum_text expected actual =
    codes "expected block to be a valid header; checksum expected = "
    ++ (decimal expected ++ (codes ", actual = " ++ (decimal actual ++ codes ";")))

-- The number that a text of digits states, behind `n`.
abbrev pub stated : ℕ → List ℕ → ℕ
stated n [] = n
stated n (c ∷ cs) = stated (n * 10 + (c - 48)) cs

abbrev ten_to : ℕ → ℕ
ten_to zero = 1
ten_to (suc k) = ten_to k * 10

stated-append :
    (n : ℕ) (xs : List ℕ) (c : ℕ) → stated n (xs ++ c ∷ []) ≡ stated n xs * 10 + (c - 48)
stated-append n [] c = refl
stated-append n (x ∷ xs) c = stated-append (n * 10 + (x - 48)) xs c

stated-digits : (fuel n : ℕ) → n < ten_to fuel → stated 0 (digits fuel n) ≡ n
unfolding digits
stated-digits zero n h = omega arith
stated-digits (suc fuel) n h = elim (Bool-cases (ltb n 10)) [
  | inl z ↦ rw z (ground arith)
  | inr z ↦
      let front = stated-digits fuel (n / 10) (omega arith) in
      rw z (stated-append 0 (digits fuel (n / 10)) (48 + n % 10) ∙ omega (arith, front))
]

-- The number in the text of an error is the one that the error holds, for any `usize`.
pub stated-decimal : (n : ℕ) → n < 2 ^ 64 → stated 0 (decimal n) ≡ n
stated-decimal n small = stated-digits 20 n (omega arith)
