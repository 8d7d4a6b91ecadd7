-- ===== src/Verify/Output.antt =====
-- The part of a gate's output that is kept.
use codespine.Common.{
  ℕ, zero, suc, ◌-◌, ◌<◌, ◌≡◌, refl, sym, ap, ◌∙◌, subst, true, false, List, [], ◌∷◌, Text, inl,
  inr, Bool-cases, arith, length, drop, All, All-drop, nat_beq, nat_beq_iff, leb,
}
use codespine.Common.Int.{pos}
use codespine.Common.Strings.{split, join}
use codespine.Verify.{tail}

-- A text without the separator.
abbrev IsPart : ℕ → Text → Type 0
IsPart c w = All (λ d. nat_beq d c ≡ false) w

module _ (c d : ℕ) (s : Text) where
  split_separator : nat_beq d c ≡ true → split c (d ∷ s) ≡ [] ∷ split c s
  unfolding split
  split_separator t = rw t refl

  split_other :
      (w : Text) (ws : List Text)
      → nat_beq d c ≡ false
      → split c s ≡ w ∷ ws
      → split c (d ∷ s) ≡ (d ∷ w) ∷ ws
  unfolding split
  split_other w ws f e = rw (f, e, split) refl

-- A text always has a part.
split_parts : (c : ℕ) (s : Text) → (w : Text) × (ws : List Text) × (split c s ≡ w ∷ ws)
unfolding split
split_parts c [] = ([], [], refl)
split_parts c (d ∷ s) = elim (Bool-cases (nat_beq d c)) [
  | inl t ↦ ([], split c s, split_separator c d s t)
  | inr f ↦ let (w, ws, e) = split_parts c s in (d ∷ w, ws, split_other c d s w ws f e)
]

split-All : (c : ℕ) (s : Text) → All (IsPart c) (split c s)
unfolding split
split-All c [] = (tt, tt)
split-All c (d ∷ s) = elim (Bool-cases (nat_beq d c)) [
  | inl t ↦ subst (All (IsPart c)) (sym (split_separator c d s t)) (tt, split-All c s)
  | inr f ↦
      let (w, ws, e) = split_parts c s in
      let h = subst (All (IsPart c)) e (split-All c s) in
      subst (All (IsPart c)) (sym (split_other c d s w ws f e)) ((f, h.0), h.1)
]

join_cons : (c d : ℕ) (w : Text) (ws : List Text) → join c ((d ∷ w) ∷ ws) ≡ d ∷ join c (w ∷ ws)
unfolding join
join_cons c d w [] = refl
join_cons c d w (v ∷ vs) = refl

-- Splitting parts that were joined gives them back.
split-join :
    (c : ℕ) (w : Text) (ws : List Text)
    → All (IsPart c) (w ∷ ws)
    → split c (join c (w ∷ ws)) ≡ w ∷ ws
unfolding join split
split-join c [] [] h = refl
split-join c [] (v ∷ vs) h =
    split_separator c c (join c (v ∷ vs)) ((nat_beq_iff c c).1 refl)
    ∙ ap (◌∷◌ []) (split-join c v vs h.1)
split-join c (d ∷ w) ws h =
    ap (split c) (join_cons c d w ws)
    ∙ split_other c d (join c (w ∷ ws)) w ws h.0.0 (split-join c w ws (h.0.1, h.1))

drop_parts {ℓ} :
    {A : Type ℓ} (m : ℕ) (xs : List A)
    → m < length xs
    → (y : A) × (ys : List A) × (drop m xs ≡ y ∷ ys)
drop_parts m [] h = absurd (omega (arith, h))
drop_parts zero (x ∷ xs) h = (x, xs, refl)
drop_parts (suc m) (x ∷ xs) h = drop_parts m xs (omega (arith, h))

-- Where lines are asked for, the kept output is the last of the lines of the text: as many as are
-- asked for, or all of them where there are no more.
pub split-tail :
    (text : Text) (k : ℕ)
    → split b'\n' (tail text (pos (suc k)))
      ≡ drop (length (split b'\n' text) - suc k) (split b'\n' text)
unfolding tail
split-tail text k =
    let all_lines = split b'\n' text in
    elim (Bool-cases (leb (length all_lines) (suc k))) [
      | inl t ↦ let e : length all_lines - suc k ≡ 0 = ground (arith, t) in rw (t, e) refl
      | inr f ↦
          let m = length all_lines - suc k in
          let (w, ws, e) = drop_parts m all_lines (ground (arith, f)) in
          let h =
            subst (All (IsPart b'\n')) e
              (All-drop (IsPart b'\n') m all_lines (split-All b'\n' text)) in
          rw f (ap (λ parts. split b'\n' (join b'\n' parts)) e ∙ split-join b'\n' w ws h ∙ sym e)
    ]
