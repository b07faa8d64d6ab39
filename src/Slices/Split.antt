-- ===== src/Slices/Split.antt =====
-- `split_at_byte_offset` and `take_prefix` against `take` and `drop` on the bytes.
use tario.Prelude.{
  ℕ, ◌+◌, ◌-◌, ◌≤◌, ◌<◌, ◌≡◌, refl, sym, ap, ◌∙◌, inl, inr, true, false, Option, none, some, List,
  [], ◌∷◌, ◌++◌, append-nil, arith, leb, ◌==◌, if◌then◌else◌, Bool-cases, le-cases, length, take,
  drop, concat, length-append, take_all, drop_all, take-append_le, take-append_add, drop-append_le,
  drop-append_add, take-append_self, drop-append_self, concat-append,
}
use tario.Io.Result.{slice_from_lem, slice_to_lem, Result, ok}
use tario.Slices.{
  empty_split, slices_as_prefix, Slice, Prefix, Suffix, from_parts, prefix_iter, suffix_iter,
  find_split, slices_split_at_index, slices_split_at_byte_offset,
}

-- Where `find_split` stops: before the slice `b`, after the slices `front`, at an offset inside `b`;
-- or nowhere, past all bytes.
abbrev pub Found : ℕ → ℕ → List Slice → Option (ℕ × ℕ) → Type 0
Found i rem slices none = length (concat slices) ≤ rem
Found i rem slices (some (j, r)) =
    (front : List Slice) × (b : Slice) × (back : List Slice) × (slices ≡ front ++ b ∷ back)
    × (j ≡ i + length front)
    × (rem ≡ length (concat front) + r)
    × (r < length b)

Found-later :
    (i rem : ℕ) (s : Slice) (ss : List Slice) (o : Option (ℕ × ℕ))
    → length s ≤ rem
    → Found (i + 1) (rem - length s) ss o
    → Found i rem (s ∷ ss) o
Found-later i rem s ss none h f = omega (arith, length-append s (concat ss))
Found-later i rem s ss (some (j, r)) h (front, b, back, e, ej, er, lt) =
    (s ∷ front, b, back, rw e, omega arith, omega (arith, length-append s (concat front)), lt)

pub find_split-Found :
    (i rem : ℕ) (slices : List Slice) → Found i rem slices (find_split i rem slices)
unfolding find_split
find_split-Found i rem [] = omega arith
find_split-Found i rem (s ∷ ss) = elim (le-cases (length s) rem) [
  | inl h ↦
      let passed : leb (length s) rem ≡ true = ground arith in
      rw passed (Found-later i rem s ss _ h (find_split-Found (i + 1) (rem - length s) ss))
  | inr h ↦
      let stopped : leb (length s) rem ≡ false = ground arith in
      rw stopped ([], s, ss, refl, omega arith, omega arith, h)
]

-- The two parts, cut inside `b` or just before it.
abbrev pub cut_at : List Slice → Slice → List Slice → ℕ → Prefix × Suffix
cut_at front b back r =
    if r == 0
    then (from_parts front [], from_parts (b ∷ back) [])
    else (from_parts front (take r b), from_parts back (drop r b))

pub slices_split_at_index_lem :
    (front : List Slice) (b : Slice) (back : List Slice) (r : ℕ)
    → r < length b
    → slices_split_at_index (front ++ b ∷ back) (length front) r ≡ ok (cut_at front b back r)
unfolding slices_split_at_index
slices_split_at_index_lem front b back r lt =
    let room : length front ≤ length (front ++ b ∷ back) =
      omega (arith, length-append front (b ∷ back)) in
    rw
      (
        slice_to_lem (front ++ b ∷ back) (length front) room,
        slice_from_lem (front ++ b ∷ back) (length front) room,
        take-append_self front (b ∷ back),
        drop-append_self front (b ∷ back),
      )
      (elim (Bool-cases (r == 0)) [
        | inl z ↦ rw z
        | inr z ↦ rw (
          z,
          slice_to_lem (b ∷ back) 1 (omega arith),
          slice_from_lem (b ∷ back) 1 (omega arith),
          slice_to_lem b r (omega arith),
          slice_from_lem b r (omega arith),
        )
      ])

-- The bytes around the cut.
pub front-bytes :
    (front : List Slice) (b : Slice) (back : List Slice) (r n : ℕ)
    → n ≡ length (concat front) + r
    → r ≤ length b
    → concat front ++ take r b ≡ take n (concat (front ++ b ∷ back))
front-bytes front b back r n e le =
    rw (e, concat-append front (b ∷ back), take-append_add (concat front) (b ++ concat back) r)
      (ap (λ (t : List ℕ). concat front ++ t) (sym (take-append_le r b (concat back) le)))

pub back-bytes :
    (front : List Slice) (b : Slice) (back : List Slice) (r n : ℕ)
    → n ≡ length (concat front) + r
    → r ≤ length b
    → drop r b ++ concat back ≡ drop n (concat (front ++ b ∷ back))
back-bytes front b back r n e le =
    rw (e, concat-append front (b ∷ back), drop-append_add (concat front) (b ++ concat back) r)
      (sym (drop-append_le r b (concat back) le))

pub concat-snoc : (xss : List Slice) (xs : Slice) → concat (xss ++ xs ∷ []) ≡ concat xss ++ xs
concat-snoc xss xs = rw (concat-append xss (xs ∷ []), append-nil)

-- The two parts hold the bytes before and after the offset.
pub cut_at-bytes :
    (front : List Slice) (b : Slice) (back : List Slice) (r n : ℕ)
    → n ≡ length (concat front) + r
    → r < length b
    → (concat (prefix_iter (cut_at front b back r).0) ≡ take n (concat (front ++ b ∷ back)))
      × (concat (suffix_iter (cut_at front b back r).1) ≡ drop n (concat (front ++ b ∷ back)))
cut_at-bytes front b back r n e lt = elim (Bool-cases (r == 0)) [
  | inl z ↦
      let none_cut : r ≡ 0 = ground arith in
      let left =
        front-bytes front b back 0 n (e ∙ ap (λ (k : ℕ). length (concat front) + k) none_cut)
          (omega arith) in
      let right =
        back-bytes front b back 0 n (e ∙ ap (λ (k : ℕ). length (concat front) + k) none_cut)
          (omega arith) in
      rw z (concat-snoc front [] ∙ left, right)
  | inr z ↦ rw z (
    concat-snoc front (take r b) ∙ front-bytes front b back r n e (omega arith),
    back-bytes front b back r n e (omega arith),
  )
]

-- What a split at `n` of the bytes gives: both parts, with no panic.
abbrev pub SplitsAt : List ℕ → ℕ → Result (Prefix × Suffix) → Type 0
SplitsAt bytes n r =
    (p : Prefix) × (s : Suffix) × (r ≡ ok (p, s))
    × (concat (prefix_iter p) ≡ take n bytes)
    × (concat (suffix_iter s) ≡ drop n bytes)

pub slices_split_Found :
    (slices : List Slice) (n : ℕ) (o : Option (ℕ × ℕ))
    → Found 0 n slices o
    → SplitsAt (concat slices) n (elim o [
      | none ↦ ok (slices_as_prefix slices, empty_split)
      | some (index, rem) ↦ slices_split_at_index slices index rem
    ])
slices_split_Found slices n none h = (
  slices_as_prefix slices,
  empty_split,
  refl,
  concat-snoc slices [] ∙ (append-nil (concat slices) ∙ sym (take_all n (concat slices) h)),
  sym (drop_all n (concat slices) h),
)
slices_split_Found slices n (some (j, r)) (front, b, back, e, ej, en, lt) =
    let index : j ≡ length front = omega arith in
    let (left, right) = cut_at-bytes front b back r n en lt in
    rw (e, index)
      (
        (cut_at front b back r).0,
        (cut_at front b back r).1,
        slices_split_at_index_lem front b back r lt,
        left,
        right,
      )

-- `split_at_byte_offset` on a sequence of slices never panics. The prefix holds the bytes before the
-- offset and the suffix all others, in order, also where the offset lies past the end.
pub slices_split_at_byte_offset_lem :
    (slices : List Slice) (n : ℕ)
    → SplitsAt (concat slices) n (slices_split_at_byte_offset slices n)
unfolding slices_split_at_byte_offset
slices_split_at_byte_offset_lem slices n =
    slices_split_Found slices n (find_split 0 n slices) (find_split-Found 0 n slices)
