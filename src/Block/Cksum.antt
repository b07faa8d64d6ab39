-- ===== src/Block/Cksum.antt =====
-- The checksum of a block, `calc_cksum` and `Block::as_header` of src/shared/block.rs.
use tario.Prelude.{
  ℕ, zero, suc, ◌+◌, ◌*◌, ◌≤◌, ◌<◌, ◌≡◌, refl, sym, ap, ◌∙◌, ◌≢◌, inl, inr, Bool, true, false, ◌&&◌,
  List, [], ◌∷◌, ◌++◌, arith, ltb, ◌==◌, Bool-cases, length, take, drop, length-append, length-take,
  length-drop, take-append_self, append_assoc, drop-append_self,
}
use mathlib.Core.List.{foldl}
use tario.Io.Error.{checksum}
use tario.Io.Result.{ok, err}
use tario.Block.{Tar, block_size, calc_cksum, as_header}

-- The numbers of the list are bytes.
unfoldable pub all_bytes : List ℕ → Bool
all_bytes [] = true
all_bytes (x ∷ xs) = ltb x 256 && all_bytes xs

abbrev pub sum : ℕ → List ℕ → ℕ
sum = foldl (λ a b. a + b)

sum_from : (n : ℕ) (xs : List ℕ) → sum n xs ≡ n + sum 0 xs
sum_from n [] = omega arith
sum_from n (x ∷ xs) = let h = sum_from (n + x) xs in let k = sum_from (0 + x) xs in omega arith

sum-append : (xs ys : List ℕ) → sum 0 (xs ++ ys) ≡ sum 0 xs + sum 0 ys
sum-append [] ys = omega arith
sum-append (x ∷ xs) ys =
    let h = sum-append xs ys in
    let i = sum_from (0 + x) (xs ++ ys) in let j = sum_from (0 + x) xs in omega arith

sum_le : (xs : List ℕ) → all_bytes xs ≡ true → sum 0 xs ≤ 255 * length xs
unfolding all_bytes
sum_le [] h = omega arith
sum_le (x ∷ xs) h =
    let i = sum_from (0 + x) xs in
    let (small, rest) : (ltb x 256 ≡ true) × (all_bytes xs ≡ true) = ground arith in
    let j = sum_le xs rest in let k : x < 256 = ground arith in omega arith

all_bytes-take : (n : ℕ) (xs : List ℕ) → all_bytes xs ≡ true → all_bytes (take n xs) ≡ true
unfolding all_bytes
all_bytes-take zero xs h = refl
all_bytes-take (suc n) [] h = refl
all_bytes-take (suc n) (x ∷ xs) h =
    let (small, rest) : (ltb x 256 ≡ true) × (all_bytes xs ≡ true) = ground arith in
    rw (small, all_bytes-take n xs rest)

all_bytes-drop : (n : ℕ) (xs : List ℕ) → all_bytes xs ≡ true → all_bytes (drop n xs) ≡ true
unfolding all_bytes
all_bytes-drop zero xs h = h
all_bytes-drop (suc n) [] h = refl
all_bytes-drop (suc n) (x ∷ xs) h =
    let rest : all_bytes xs ≡ true = ground arith in all_bytes-drop n xs rest

-- The checksum of a block of 512 bytes is at least 256 and at most 128776, so that no sum leaves `u32`.
pub calc_cksum_le :
    (bytes : List ℕ)
    → length bytes ≡ block_size
    → all_bytes bytes ≡ true
    → (256 ≤ calc_cksum bytes) × (calc_cksum bytes ≤ 128776)
unfolding calc_cksum
calc_cksum_le bytes size h =
    let front = sum_le (take 148 bytes) (all_bytes-take 148 bytes h) in
    let back = sum_le (drop 156 bytes) (all_bytes-drop 156 bytes h) in
    let e = sum-append (take 148 bytes) (drop 156 bytes) in
    let m = length-take 148 bytes in let n = length-drop 156 bytes in (omega arith, omega arith)

-- The sum of a block with a field of 8 bytes at 148 is that of the bytes around the field.
calc_cksum_parts :
    (front field back : List ℕ)
    → length front ≡ 148
    → length field ≡ 8
    → calc_cksum (front ++ (field ++ back)) ≡ sum 0 front + sum 0 back + 256
unfolding calc_cksum
calc_cksum_parts front field back f n =
    let h : take 148 (front ++ (field ++ back)) ≡ front =
      ap (λ (k : ℕ). take k (front ++ (field ++ back))) (sym f)
      ∙ take-append_self front (field ++ back) in
    let w : length (front ++ field) ≡ 156 = omega (arith, length-append front field) in
    let t : drop 156 (front ++ (field ++ back)) ≡ back =
      ap (drop 156) (sym (append_assoc front field back))
      ∙ (ap (λ (k : ℕ). drop k ((front ++ field) ++ back)) (sym w)
          ∙ drop-append_self (front ++ field) back) in
    ap (λ (xs : List ℕ). sum 0 (xs ++ drop 156 (front ++ (field ++ back))) + 256) h
    ∙ (ap (λ (xs : List ℕ). sum 0 (front ++ xs) + 256) t ∙ omega (arith, sum-append front back))

-- A block is accepted once the 8 bytes of its checksum field, behind the first 148, state the checksum
-- that the block had before, whatever stood in the field: writing it does not change the sum.
pub as_header_stamped :
    (tar : Tar) (front field old back : List ℕ)
    → length front ≡ 148
    → length field ≡ 8
    → length old ≡ 8
    → tar.cksum (front ++ (field ++ back)) ≡ inr (calc_cksum (front ++ (old ++ back)))
    → as_header tar (front ++ (field ++ back)) ≡ ok (front ++ (field ++ back))
unfolding as_header
as_header_stamped tar front field old back f n o stated =
    let same : calc_cksum (front ++ (old ++ back)) ≡ calc_cksum (front ++ (field ++ back)) =
      calc_cksum_parts front old back f o ∙ sym (calc_cksum_parts front field back f n) in
    let all : (calc_cksum (front ++ (field ++ back)) == calc_cksum (front ++ (field ++ back)))
        ≡ true =
      ground arith in
    rw (stated, same, all)

-- A single changed byte behind the checksum field is noticed: if a block is accepted, and the stated
-- checksum is read alike from the block with the other byte, then that block is refused.
pub as_header_damaged :
    (tar : Tar) (front field mid back : List ℕ) (x y n : ℕ)
    → length front ≡ 148
    → length field ≡ 8
    → x ≢ y
    → tar.cksum (front ++ (field ++ (mid ++ (x ∷ back)))) ≡ inr n
    → tar.cksum (front ++ (field ++ (mid ++ (y ∷ back)))) ≡ inr n
    → as_header tar (front ++ (field ++ (mid ++ (x ∷ back))))
      ≡ ok (front ++ (field ++ (mid ++ (x ∷ back))))
    → as_header tar (front ++ (field ++ (mid ++ (y ∷ back))))
      ≡ err (checksum n (calc_cksum (front ++ (field ++ (mid ++ (y ∷ back))))))
unfolding as_header
as_header_damaged tar front field mid back x y n f w differ at_x at_y accepted =
    let h = calc_cksum_parts front field (mid ++ (x ∷ back)) f w in
    let k = calc_cksum_parts front field (mid ++ (y ∷ back)) f w in
    let i = sum-append mid (x ∷ back) in
    let j = sum-append mid (y ∷ back) in
    let r = sum_from (0 + x) back in
    let s = sum_from (0 + y) back in
    elim (Bool-cases (n == calc_cksum (front ++ (field ++ (mid ++ (x ∷ back)))))) [
      | inl z ↦
          let e : n ≡ calc_cksum (front ++ (field ++ (mid ++ (x ∷ back)))) = ground arith in
          let ne : n ≢ calc_cksum (front ++ (field ++ (mid ++ (y ∷ back)))) =
            λ u. differ (omega arith) in
          let test : (n == calc_cksum (front ++ (field ++ (mid ++ (y ∷ back))))) ≡ false =
            ground arith in
          rw (at_y, test)
      | inr z ↦
          let refused : ok (front ++ (field ++ (mid ++ (x ∷ back))))
              ≡ err (checksum n (calc_cksum (front ++ (field ++ (mid ++ (x ∷ back)))))) =
            sym accepted ∙ rw (at_x, z) in
          absurd (ground arith)
    ]
