-- ===== src/Notify/Format/Bytes.antt =====
-- `HumanBytes`: its loop ends, and its index stays in range.
use native.Mathlib.Nat.{div-div-eq-div-mul, pow-suc}
use triagearr.Base.{
  ℕ, zero, suc, ◌+◌, ◌*◌, ◌/◌, ◌%◌, ◌^◌, ◌≤◌, ◌<◌, ◌≡◌, ◌∙◌, refl, sym, ap, some, arith, leb,
  Bool-cases, false, inl, inr,
}
use triagearr.Base.Words.{mul64, half, modulus}
use triagearr.Notify.Format.{letter_at, scale, scaled, unit_letter}

-- A divisor and an exponent that fit the number.
abbrev pub Scales : ℕ → ℕ × ℕ → Type 0
Scales n (d, exp) =
    (d ≡ 1024 ^ suc exp)
    × (exp < 6)
    × (1 ≤ n / d)
    × (n / d < 1024)
    × ((c : ℕ) × (unit_letter exp ≡ some c))

letter_in : (exp : ℕ) → exp < 6 → (c : ℕ) × (unit_letter exp ≡ some c)
unfolding letter_at
letter_in zero h = (75, refl)
letter_in (suc zero) h = (77, refl)
letter_in (suc (suc zero)) h = (71, refl)
letter_in (suc (suc (suc zero))) h = (84, refl)
letter_in (suc (suc (suc (suc zero)))) h = (80, refl)
letter_in (suc (suc (suc (suc (suc zero))))) h = (69, refl)
letter_in (suc (suc (suc (suc (suc (suc n)))))) h = absurd (omega arith)

-- A power of 1024 that still fits an int64.
pow_fits : (exp : ℕ) → exp < 6 → 1024 ^ exp ≤ 1_125_899_906_842_624
pow_fits zero h = omega arith
pow_fits (suc zero) h = omega arith
pow_fits (suc (suc zero)) h = omega arith
pow_fits (suc (suc (suc zero))) h = omega arith
pow_fits (suc (suc (suc (suc zero)))) h = omega arith
pow_fits (suc (suc (suc (suc (suc zero))))) h = omega arith
pow_fits (suc (suc (suc (suc (suc (suc n)))))) h = absurd (omega arith)

scale-Scales :
    (fuel left n v div exp : ℕ)
    → left < fuel
    → v ≡ n / div
    → 1 ≤ v
    → v < 1024 ^ suc left
    → div ≡ 1024 ^ suc exp
    → exp + left ≡ 5
    → (out : ℕ × ℕ) × (scale fuel v div exp ≡ some out) × Scales n out
unfolding scale mul64
scale-Scales zero left n v div exp f e one lt d s = absurd (omega arith)
scale-Scales (suc fuel) zero n v div exp f e one lt d s =
    let ends : leb 1024 v ≡ false = ground arith in
    simp ends
      ((div, exp), refl, (d, omega arith, omega arith, omega arith, letter_in exp (omega arith)))
scale-Scales (suc fuel) (suc left) n v div exp f e one lt d s = elim (Bool-cases (leb 1024 v)) [
  | inr ends ↦
      let small : v < 1024 = ground arith in
      simp ends
        ((div, exp), refl, (d, omega arith, omega arith, omega arith, letter_in exp (omega arith)))
  | inl more ↦
      let big : 1024 ≤ v = ground arith in
      let fits = pow_fits (suc exp) (omega arith) in
      let next : (div * 1024) % modulus ≡ div * 1024 = omega arith in
      let deeper =
        scale-Scales fuel left n (v / 1024) (div * 1024) (suc exp) (omega arith)
          (ap (λ (x : ℕ). x / 1024) e ∙ div-div-eq-div-mul n div 1024) (omega arith)
          (omega (arith, pow-suc 1024 (suc left)))
          (ap (λ (x : ℕ). x * 1024) d ∙ sym (pow-suc 1024 (suc exp))) (omega arith) in
      simp (more, next) deeper
]

-- For a positive int64 of at least 1024, the loop of `HumanBytes` ends, with a divisor that is the
-- power of 1024 that brings the number between 1 and 1023, and an index inside `KMGTPE`.
pub scaled-Scales :
    (n : ℕ) → 1024 ≤ n → n < half → (out : ℕ × ℕ) × (scaled n ≡ some out) × Scales n out
scaled-Scales n big fits =
    scale-Scales 7 5 n (n / 1024) 1024 0 (omega arith) refl (omega arith) (omega arith) refl refl
