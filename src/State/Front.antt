-- ===== src/State/Front.antt =====
-- `State::take_until` on the first bytes of a buffer that it takes whole.
use tario.Prelude.{
  ℕ, zero, suc, ◌≤◌, ◌<◌, ◌≡◌, sym, ap, ◌∙◌, inl, inr, false, Option, List, [], ◌∷◌, ◌++◌, arith,
  Bool-cases, length, drop, is_empty, length-append, length-drop,
}
use tario.Io.Result.{ok, Result-cases}
use tario.Block.{Header, Tar}
use tario.State.{State, take_until, contains, stops}
use tario.State.Next.{next-le-length, shift}
use tario.State.Until.{measure, next-measure, take_until-cases, shift-eq-ok}
use tario.State.Chunks.{take_until-append, pos_of_drop}

some_of : {A : Type 0} (xs : List A) → is_empty xs ≡ false → 0 < length xs
some_of [] h = cc
some_of (x ∷ xs) h = omega arith

module _ (tar : Tar) (hdr : Option Header) where
  le_below :
      (k : ℕ) (s : State) (buf : List ℕ) {t : State} {n : ℕ}
      → measure s buf < k
      → take_until tar s stops buf hdr ≡ ok (t, n)
      → n ≤ length buf
  le_below zero s buf m e = absurd (omega arith)
  le_below (suc k) s buf m e = elim (take_until-cases tar hdr stops s buf e) [
    | inl (e', _) ↦ next-le-length tar hdr s buf e'
    | inr (u, a, b, moved, more, later, count) ↦
        let rest =
          le_below k u (drop a buf)
            (omega (arith, next-measure tar hdr s buf moved (pos_of_drop a buf more))) later in
        omega (arith, length-drop a buf, next-le-length tar hdr s buf moved)
  ]

  -- A run counts no more bytes than it is given.
  pub take_until-le-length :
      (s : State) (buf : List ℕ) {t : State} {n : ℕ}
      → take_until tar s stops buf hdr ≡ ok (t, n)
      → n ≤ length buf
  take_until-le-length s buf e = le_below (suc (measure s buf)) s buf (omega arith) e

  -- A run that takes all of two parts, the second one not empty, takes all of the first.
  pub take_until_front :
      (s : State) (xs ys : List ℕ) {t : State}
      → is_empty ys ≡ false
      → take_until tar s stops (xs ++ ys) hdr ≡ ok (t, length (xs ++ ys))
      → (u : State) × (take_until tar s stops xs hdr ≡ ok (u, length xs))
  take_until_front s xs ys {t} ne e =
      let joined = sym (take_until-append tar hdr s xs ys ne) ∙ e in
      elim (Result-cases (take_until tar s stops xs hdr)) [
        | inl ((u, n), e') ↦ elim (Bool-cases (contains stops u)) [
          | inl c ↦
              let ended : ok (u, n) ≡ ok (t, length (xs ++ ys)) = rw (e', c) at joined in
              let all : n ≡ length (xs ++ ys) = ground (arith, ended) in
              absurd
                (omega (arith, length-append xs ys, take_until-le-length s xs e', some_of ys ne))
          | inr c ↦
              let later : shift n (take_until tar u stops ys hdr) ≡ ok (t, length (xs ++ ys)) =
                rw (e', c) at joined in
              let (b, run, count) = shift-eq-ok tar hdr n (take_until tar u stops ys hdr) later in
              let all : n ≡ length xs = omega (
                arith,
                length-append xs ys,
                take_until-le-length s xs e',
                take_until-le-length u ys run,
              ) in
              (u, e' ∙ ap (λ (k : ℕ). ok (u, k)) all)
        ]
        | inr (inl (x, e')) ↦ absurd (ground (arith, joined))
        | inr (inr (p, e')) ↦ absurd (ground (arith, joined))
      ]
