-- ===== src/State/Chunks.antt =====
-- `State::take_slices` and the cuts of the stream into slices.
use tario.Prelude.{
  ℕ, zero, suc, ◌+◌, ◌<◌, ◌≡◌, refl, ap, ◌∙◌, sym, inl, inr, true, false, ◌||◌, Option, List, [],
  ◌∷◌, ◌++◌, arith, if◌then◌else◌, Bool-cases, length, drop, is_empty, concat, append-nil,
  drop-append_le, drop-append_add, drop_all,
}
use tario.Io.Result.{Result, ok, err, panic, ◌>>=◌, Result-cases}
use tario.Block.{Header, Tar}
use tario.State.{State, next, contains, take_until, take_slices, take_slices_loop, stops}
use tario.State.Next.{shift, next-append, next-le-length}
use tario.State.Until.{bind-Goes, measure, shift-shift, shift-zero, next-measure, take_until-step}

pub is_empty-append : (xs ys : List ℕ) → is_empty ys ≡ false → is_empty (xs ++ ys) ≡ false
is_empty-append [] ys h = h
is_empty-append (x ∷ xs) ys h = refl

nil_of_is_empty : (xs : List ℕ) → is_empty xs ≡ true → xs ≡ []
nil_of_is_empty [] h = refl
nil_of_is_empty (x ∷ xs) h = cc

pub pos_of_drop : (n : ℕ) (xs : List ℕ) → is_empty (drop n xs) ≡ false → 0 < length xs
pos_of_drop zero [] h = cc
pos_of_drop (suc n) [] h = cc
pos_of_drop n (x ∷ xs) h = omega arith

module _ (tar : Tar) (hdr : Option Header) where
  -- What a run on one slice leaves for the next one.
  abbrev resume : List ℕ → State × ℕ → Result (State × ℕ)
  resume ys (t, n) = if contains stops t then ok (t, n) else shift n (take_until tar t stops ys hdr)

  shift-resume :
      (n : ℕ) (ys : List ℕ) (r : Result (State × ℕ))
      → shift n (r >>= resume ys) ≡ (shift n r >>= resume ys)
  shift-resume n ys (ok (t, m)) = elim (Bool-cases (contains stops t)) [
    | inl e ↦ rw e
    | inr e ↦ rw e (shift-shift n m (take_until tar t stops ys hdr))
  ]
  shift-resume n ys (err e) = refl
  shift-resume n ys (panic p) = refl

  -- The transition on the longer buffer crosses the cut.
  crosses :
      (xs ys : List ℕ) (r : Result (State × ℕ))
      → (shift (length xs) r >>= λ q.
          bind-Goes stops (xs ++ ys) q (take_until tar q.0 stops (drop q.1 (xs ++ ys)) hdr))
        ≡ shift
            (length xs)
            (r >>= λ q. bind-Goes stops ys q (take_until tar q.0 stops (drop q.1 ys) hdr))
  crosses xs ys (ok (t, m)) =
      rw (drop-append_add xs ys m) (elim (Bool-cases (contains stops t || is_empty (drop m ys))) [
        | inl e ↦ rw e
        | inr e ↦ rw e (sym (shift-shift (length xs) m (take_until tar t stops (drop m ys) hdr)))
      ])
  crosses xs ys (err e) = refl
  crosses xs ys (panic p) = refl

  -- One round of the run on `xs ++ ys`, where the transition sees `xs` alone.
  within :
      (s t : State) (n : ℕ) (xs ys : List ℕ)
      → next tar s xs hdr ≡ ok (t, n)
      → is_empty ys ≡ false
      → (is_empty (drop n xs) ≡ false
          → take_until tar t stops (drop n xs ++ ys) hdr
            ≡ (take_until tar t stops (drop n xs) hdr >>= resume ys))
      → bind-Goes stops (xs ++ ys) (t, n) (take_until tar t stops (drop n (xs ++ ys)) hdr)
        ≡ (bind-Goes stops xs (t, n) (take_until tar t stops (drop n xs) hdr) >>= resume ys)
  within s t n xs ys e ne ih =
      rw (drop-append_le n xs ys (next-le-length tar hdr s xs e), is_empty-append (drop n xs) ys ne)
        (elim (Bool-cases (contains stops t)) [
          | inl c ↦ rw (c, c)
          | inr c ↦ elim (Bool-cases (is_empty (drop n xs))) [
            | inl z ↦ rw (c, z, nil_of_is_empty (drop n xs) z, c)
            | inr z ↦ rw (c, z, ih z) (shift-resume n ys (take_until tar t stops (drop n xs) hdr))
          ]
        ])

  take_until-append_below :
      (k : ℕ) (s : State) (xs ys : List ℕ)
      → measure s xs < k
      → is_empty ys ≡ false
      → take_until tar s stops (xs ++ ys) hdr ≡ (take_until tar s stops xs hdr >>= resume ys)
  take_until-append_below zero s xs ys h ne = absurd (omega arith)
  take_until-append_below (suc k) s xs ys h ne = elim (next-append tar hdr s xs ys) [
    | inl same ↦
        rw (take_until-step tar hdr stops s (xs ++ ys), same, take_until-step tar hdr stops s xs)
          (elim (Result-cases (next tar s xs hdr)) [
            | inl ((t, n), e) ↦ rw e (
                within s t n xs ys e ne λ z.
                  take_until-append_below k t (drop n xs) ys
                    (omega (arith, next-measure tar hdr s xs e (pos_of_drop n xs z))) ne)
            | inr (inl (x, e)) ↦ rw e
            | inr (inr (p, e)) ↦ rw e
          ])
    | inr (t, e, going, e') ↦
        rw (take_until-step tar hdr stops s (xs ++ ys), e')
          (crosses xs ys (next tar t ys hdr)
            ∙ rw (take_until-step tar hdr stops s xs, e)
                (rw (drop_all (length xs) xs (omega arith), going)
                  (rw (going, take_until-step tar hdr stops t ys))))
  ]

  -- A run on two slices in a row, the second one not empty, is a run on the first and then, unless
  -- that has reached a stop state, a run on the second.
  pub take_until-append :
      (s : State) (xs ys : List ℕ)
      → is_empty ys ≡ false
      → take_until tar s stops (xs ++ ys) hdr ≡ (take_until tar s stops xs hdr >>= resume ys)
  take_until-append s xs ys ne =
      take_until-append_below (suc (measure s xs)) s xs ys (omega arith) ne

  -- What the loop of `take_slices` makes of a slice that gave `r`, with the slices after it.
  round :
      (bufs : List (List ℕ)) (cur : ℕ)
      → ((t : State) (m : ℕ)
          → take_slices_loop tar bufs false t m hdr ≡ (
              if is_empty (concat bufs)
              then ok (t, m)
              else shift m (take_until tar t stops (concat bufs) hdr)))
      → (r : Result (State × ℕ))
      → (r >>= λ q.
          if contains stops q.0
          then ok (q.0, cur + q.1)
          else take_slices_loop tar bufs false q.0 (cur + q.1) hdr)
        ≡ shift cur (if is_empty (concat bufs) then r else r >>= resume (concat bufs))
  round bufs cur ih (ok (t, n)) = rw (ih t (cur + n)) (elim (Bool-cases (contains stops t)) [
    | inl c ↦ rw c (elim (Bool-cases (is_empty (concat bufs))) [ inl z ↦ rw z | inr z ↦ rw z ])
    | inr c ↦ rw c (elim (Bool-cases (is_empty (concat bufs))) [
      | inl z ↦ rw z
      | inr z ↦ rw z (sym (shift-shift cur n (take_until tar t stops (concat bufs) hdr)))
    ])
  ])
  round bufs cur ih (err e) = ground arith
  round bufs cur ih (panic p) = ground arith

  join :
      (s : State) (buf : List ℕ) (bufs : List (List ℕ))
      → (if is_empty (concat bufs)
          then take_until tar s stops buf hdr
          else take_until tar s stops buf hdr >>= resume (concat bufs))
        ≡ take_until tar s stops (buf ++ concat bufs) hdr
  join s buf bufs = elim (Bool-cases (is_empty (concat bufs))) [
    | inl z ↦ rw (z, nil_of_is_empty (concat bufs) z, append-nil)
    | inr z ↦ rw z (sym (take_until-append s buf (concat bufs) z))
  ]

  -- The loop of `take_slices` once a slice has been read.
  loop_after :
      (bufs : List (List ℕ)) (s : State) (cur : ℕ)
      → take_slices_loop tar bufs false s cur hdr ≡ (
          if is_empty (concat bufs)
          then ok (s, cur)
          else shift cur (take_until tar s stops (concat bufs) hdr))
  unfolding take_slices_loop
  loop_after [] s cur = refl
  loop_after ([] ∷ bufs) s cur = loop_after bufs s cur
  loop_after ((x ∷ xs) ∷ bufs) s cur =
      round bufs cur (loop_after bufs) (take_until tar s stops (x ∷ xs) hdr)
      ∙ ap (shift cur) (join s (x ∷ xs) bufs)

  shift_by_bind :
      (cur : ℕ) (r : Result (State × ℕ)) → (r >>= λ x. ok (x.0, cur + x.1)) ≡ shift cur r
  shift_by_bind cur (ok (t, n)) = refl
  shift_by_bind cur (err e) = refl
  shift_by_bind cur (panic p) = refl

  loop_before :
      (bufs : List (List ℕ)) (s : State) (cur : ℕ)
      → take_slices_loop tar bufs true s cur hdr
        ≡ shift cur (take_until tar s stops (concat bufs) hdr)
  unfolding take_slices_loop
  loop_before [] s cur = shift_by_bind cur (take_until tar s stops [] hdr)
  loop_before ([] ∷ bufs) s cur = loop_before bufs s cur
  loop_before ((x ∷ xs) ∷ bufs) s cur =
      round bufs cur (loop_after bufs) (take_until tar s stops (x ∷ xs) hdr)
      ∙ ap (shift cur) (join s (x ∷ xs) bufs)

  -- `take_slices` sees only the bytes of the slices in order: the state and the count are those of
  -- `take_until` on their concatenation, whatever the cuts, on errors and panics too.
  pub take_slices-eq-take_until :
      (s : State) (bufs : List (List ℕ))
      → take_slices tar s bufs hdr ≡ take_until tar s stops (concat bufs) hdr
  unfolding take_slices
  take_slices-eq-take_until s bufs =
      loop_before bufs s 0 ∙ shift-zero (take_until tar s stops (concat bufs) hdr)
