-- ===== src/Server/Limiter/Recency.antt =====
-- The list of recently used elements of `ipRateLimiter`: lengths and membership.
use triagearr.Base.{
  ℕ, suc, ◌≡◌, refl, ap, ◌⊎◌, inl, inr, List, [], ◌∷◌, true, false, none, some, arith, ◌==◌,
  Bool-cases, length,
}
use triagearr.Server.Limiter.{is_in, without, move_to_front, back, front}

pub length-without : (x : ℕ) (l : List ℕ) → is_in x l ≡ true → suc (length (without x l)) ≡ length l
unfolding is_in without
length-without x [] h = absurd cc
length-without x (y ∷ ys) h = ground (arith, length-without x ys)

pub is_in-without :
    (q x : ℕ) (l : List ℕ) → (q == x) ≡ false → is_in q l ≡ true → is_in q (without x l) ≡ true
unfolding is_in without
is_in-without q x [] d h = h
is_in-without q x (y ∷ ys) d h = ground (arith, is_in-without q x ys d)

pub is_in-move_to_front :
    (q x : ℕ) (l : List ℕ) → is_in q l ≡ true → is_in q (move_to_front x l) ≡ true
unfolding move_to_front is_in
is_in-move_to_front q x l h = elim (Bool-cases (is_in x l)) [
  | inr out ↦ simp out h
  | inl at ↦ elim (Bool-cases (q == x)) [
    | inl same ↦ simp (at, same) refl
    | inr d ↦ simp (at, d) (is_in-without q x l d h)
  ]
]

pub length-move_to_front : (x : ℕ) (l : List ℕ) → length (move_to_front x l) ≡ length l
unfolding move_to_front
length-move_to_front x l = elim (Bool-cases (is_in x l)) [
  | inr out ↦ simp out refl
  | inl at ↦ simp at (length-without x l at)
]

pub length-front : (l : List ℕ) (old : ℕ) → back l ≡ some old → suc (length (front l)) ≡ length l
unfolding back front
length-front [] old e = absurd cc
length-front (x ∷ []) old e = refl
length-front (x ∷ y ∷ ys) old e = ap suc (length-front (y ∷ ys) old e)

pub is_in-front :
    (q : ℕ) (l : List ℕ) (old : ℕ)
    → back l ≡ some old
    → is_in q l ≡ true
    → (q ≡ old) ⊎ (is_in q (front l) ≡ true)
unfolding back front is_in
is_in-front q [] old e h = absurd cc
is_in-front q (x ∷ []) old e h = inl (ground arith)
is_in-front q (x ∷ y ∷ ys) old e h = elim (Bool-cases (q == x)) [
  | inl same ↦ inr (simp same refl)
  | inr d ↦
      let deeper = is_in-front q (y ∷ ys) old e (ground arith) in
      elim deeper [ inl at ↦ inl at | inr at ↦ inr (ground arith) ]
]

pub back-none : (l : List ℕ) → back l ≡ none → length l ≡ 0
unfolding back
back-none [] e = refl
back-none (x ∷ []) e = absurd cc
back-none (x ∷ y ∷ ys) e = let deeper = back-none (y ∷ ys) e in absurd (ground arith)
