-- ===== src/Slices/Prefix.antt =====
-- `split_at_byte_offset` and `take_prefix` on a `Prefix`, which is itself the result of a split.
use tario.Prelude.{
  ℕ, suc, ◌+◌, ◌-◌, ◌≤◌, ◌<◌, ◌≡◌, sym, ap, ◌∙◌, inl, inr, true, false, Option, none, some, List,
  [], ◌∷◌, ◌++◌, arith, ltb, leb, ◌==◌, if◌then◌else◌, le-cases, length, take, drop, concat,
  length-append, take_all, drop_all, take-append_le, concat-append,
}
use tario.Io.Result.{Result, ok, slice_to_lem, slice_from_lem}
use tario.Slices.{
  Slice, Prefix, Suffix, from_parts, empty_split, prefix_iter, suffix_iter, prefix_as_prefix,
  find_split, prefix_split_at_index, prefix_split_at_byte_offset,
}
use tario.Slices.Split.{
  back-bytes, front-bytes, Found, find_split-Found, concat-snoc, cut_at, slices_split_at_index_lem,
  cut_at-bytes,
}

abbrev or_else : Option (ℕ × ℕ) → Option (ℕ × ℕ) → Option (ℕ × ℕ)
or_else (some r) later = some r
or_else none later = later

-- The search stops in one of the whole slices, or passes them all.
find_split-append :
    (i rem : ℕ) (xs ys : List Slice)
    → find_split i rem (xs ++ ys)
      ≡ or_else (find_split i rem xs) (find_split (i + length xs) (rem - length (concat xs)) ys)
unfolding find_split
find_split-append i rem [] ys =
    let a : i + 0 ≡ i = omega arith in let b : rem - 0 ≡ rem = omega arith in rw (a, b)
find_split-append i rem (x ∷ xs) ys = elim (le-cases (length x) rem) [
  | inl h ↦
      let passed : leb (length x) rem ≡ true = ground arith in
      let a : i + suc (length xs) ≡ i + 1 + length xs = omega arith in
      let b : rem - length (x ++ concat xs) ≡ rem - length x - length (concat xs) =
        omega (arith, length-append x (concat xs)) in
      rw (passed, a, b) (find_split-append (i + 1) (rem - length x) xs ys)
  | inr h ↦ let stopped : leb (length x) rem ≡ false = ground arith in rw stopped
]

-- What the suffix holds: where the offset falls in the whole slices, the remainder is left out.
abbrev pub kept : Prefix → ℕ → List ℕ
kept p n =
    if ltb n (length (concat p.slices))
    then drop n (concat p.slices)
    else drop n (concat (prefix_iter p))

abbrev pub PrefixSplitsAt : Prefix → ℕ → Result (Prefix × Suffix) → Type 0
PrefixSplitsAt p n r =
    (q : Prefix) × (s : Suffix) × (r ≡ ok (q, s))
    × (concat (prefix_iter q) ≡ take n (concat (prefix_iter p)))
    × (concat (suffix_iter s) ≡ kept p n)

module _ (slices : List Slice) (rest : Slice) (n : ℕ) where
  abbrev parts : Prefix
  parts = from_parts slices rest

  prefix_cut_at :
      (front : List Slice) (b : Slice) (back : List Slice) (r : ℕ)
      → slices ≡ front ++ b ∷ back
      → r < length b
      → prefix_split_at_index parts (length front) r ≡ ok (cut_at front b back r)
  unfolding prefix_split_at_index
  prefix_cut_at front b back r e lt =
      let inside : (length front == length (front ++ b ∷ back)) ≡ false =
        ground (arith, length-append front (b ∷ back)) in
      rw (e, inside) (slices_split_at_index_lem front b back r lt)

  in_slices :
      (j r : ℕ)
      → Found 0 n slices (some (j, r))
      → PrefixSplitsAt parts n (prefix_split_at_index parts j r)
  in_slices j r (front, b, back, e, ej, en, lt) =
      let index : j ≡ length front = omega arith in
      let (left, right) = cut_at-bytes front b back r n en lt in
      let size : length (concat slices) ≡ length (concat front) + length (b ++ concat back) =
        ap (λ (t : List Slice). length (concat t)) e
        ∙ (ap length (concat-append front (b ∷ back))
            ∙ length-append (concat front) (b ++ concat back)) in
      let inside : n < length (concat slices) =
        omega (arith, size, length-append b (concat back)) in
      let test : ltb n (length (concat slices)) ≡ true = ground arith in
      (
        (cut_at front b back r).0,
        (cut_at front b back r).1,
        rw index (prefix_cut_at front b back r e lt),
        left
            ∙ (ap (λ (t : List Slice). take n (concat t)) (sym e)
                ∙ (sym (take-append_le n (concat slices) rest (omega arith))
                    ∙ ap (take n) (sym (concat-snoc slices rest)))),
        rw test (right ∙ ap (λ (t : List Slice). drop n (concat t)) (sym e)),
      )

  abbrev choose : Option (ℕ × ℕ) → Result (Prefix × Suffix)
  choose none = ok (prefix_as_prefix parts, empty_split)
  choose (some (index, rem)) = prefix_split_at_index parts index rem

  past_slices :
      length (concat slices) ≤ n
      → PrefixSplitsAt parts n
          (choose (find_split (length slices) (n - length (concat slices)) (rest ∷ [])))
  unfolding find_split prefix_split_at_index
  past_slices le = elim (le-cases (length rest) (n - length (concat slices))) [
    | inl h ↦
        let passed : leb (length rest) (n - length (concat slices)) ≡ true = ground arith in
        (
          parts,
          empty_split,
          rw passed,
          sym (take_all n (concat (prefix_iter parts)) (omega (arith, size))),
          rw test (sym (drop_all n (concat (prefix_iter parts)) (omega (arith, size)))),
        )
    | inr h ↦
        let stopped : leb (length rest) (n - length (concat slices)) ≡ false = ground arith in
        let last : (length slices == length slices) ≡ true = ground arith in
        (
          from_parts slices (take (n - length (concat slices)) rest),
          from_parts [] (drop (n - length (concat slices)) rest),
          rw stopped (
              rw (
                last,
                slice_to_lem rest (n - length (concat slices)) (omega arith),
                slice_from_lem rest (n - length (concat slices)) (omega arith),
              )),
          concat-snoc slices (take (n - length (concat slices)) rest)
              ∙ front-bytes slices rest [] (n - length (concat slices)) n (omega arith)
                  (omega arith),
          rw test (
              back-bytes slices rest [] (n - length (concat slices)) n (omega arith) (omega arith)),
        )
  ]
    where
      test : ltb n (length (concat slices)) ≡ false
      test = ground arith

      size : length (concat (prefix_iter parts)) ≡ length (concat slices) + length rest
      size = ap length (concat-snoc slices rest) ∙ length-append (concat slices) rest

  split_Found :
      (o : Option (ℕ × ℕ))
      → Found 0 n slices o
      → PrefixSplitsAt parts n
          (choose (or_else o (find_split (length slices) (n - length (concat slices)) (rest ∷ []))))
  split_Found none h = past_slices h
  split_Found (some (j, r)) h = in_slices j r h

  split_choose : prefix_split_at_byte_offset parts n ≡ choose (find_split 0 n (slices ++ rest ∷ []))
  unfolding prefix_split_at_byte_offset
  split_choose = ground arith

  whole_search :
      find_split 0 n (slices ++ rest ∷ [])
      ≡ or_else
          (find_split 0 n slices)
          (find_split (length slices) (n - length (concat slices)) (rest ∷ []))
  whole_search =
      let a : 0 + length slices ≡ length slices = omega arith in
      rw (← a) (find_split-append 0 n slices (rest ∷ []))

-- `split_at_byte_offset` on a prefix never panics, and its prefix holds the bytes before the offset.
-- Its suffix holds all others only where the offset does not fall in the whole slices; there the
-- suffix is without the remainder.
pub prefix_split_at_byte_offset_lem :
    (p : Prefix) (n : ℕ) → PrefixSplitsAt p n (prefix_split_at_byte_offset p n)
prefix_split_at_byte_offset_lem p n =
    rw (split_choose p.slices p.remainder n, whole_search p.slices p.remainder n)
      (split_Found p.slices p.remainder n (find_split 0 n p.slices) (find_split-Found 0 n p.slices))
