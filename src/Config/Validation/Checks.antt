-- ===== src/Config/Validation/Checks.antt =====
-- Checks that decide a condition, and how the first of several problems decides all of them.
use triagearr.Base.{
  ◌≡◌, ◌≢◌, refl, ◌⊎◌, inl, inr, List, [], ◌∷◌, map, Bool, true, false, not, ◌||◌, Option, none,
  some, arith, if◌then◌else◌, is_empty, all, All,
}
use triagearr.Base.Text.{Text}
use triagearr.Config.Validation.{Problem, first_problem, unless_ok}

-- A check finds a problem exactly where `P` does not hold.
abbrev pub Decides : Option Problem → Type 0 → Type 0
Decides o P = ((p : Problem) × (o ≡ some p) × ¬ P) ⊎ ((o ≡ none) × P)

pub unless_ok-Decides :
    {P : Type 0} (b : Bool) (p : Problem)
    → (b ≡ true → P)
    → (P → b ≡ true)
    → Decides (unless_ok b p) P
unless_ok-Decides true p f g = inr (refl, f refl)
unless_ok-Decides false p f g = inl (p, refl, λ h. let bad = g h in absurd cc)

pub first_problem-last :
    {P : Type 0} (o : Option Problem) → Decides o P → Decides (first_problem (o ∷ [])) P
unfolding first_problem
first_problem-last (some q) (inl (p, e, no_p)) = inl (q, refl, no_p)
first_problem-last none (inl (p, e, no_p)) = absurd cc
first_problem-last none (inr (e, h)) = inr (refl, h)
first_problem-last (some q) (inr (e, h)) = absurd cc

pub first_problem-cons :
    {P Q : Type 0} (o : Option Problem) (l : List (Option Problem))
    → Decides o P
    → Decides (first_problem l) Q
    → Decides (first_problem (o ∷ l)) (P × Q)
unfolding first_problem
first_problem-cons (some q) l (inl (p, e, no_p)) d = inl (q, refl, λ h. no_p h.0)
first_problem-cons none l (inl (p, e, no_p)) d = absurd cc
first_problem-cons (some q) l (inr (e, h)) d = absurd cc
first_problem-cons none l (inr (e, h)) (inl (p, f, no_q)) = inl (p, f, λ k. no_q k.1)
first_problem-cons none l (inr (e, h)) (inr (f, k)) = inr (f, (h, k))

pub first_problem-map :
    {A : Type 0} (P : A → Type 0) (f : A → Option Problem)
    → ((a : A) → Decides (f a) (P a))
    → (l : List A) → Decides (first_problem (map f l)) (All P l)
unfolding first_problem
first_problem-map P f d [] = inr (refl, tt)
first_problem-map P f d (a ∷ l) =
    first_problem-cons (f a) (map f l) (d a) (first_problem-map P f d l)

-- A condition in other words.
pub Decides-iff :
    {P Q : Type 0} (o : Option Problem) → (P → Q) → (Q → P) → Decides o P → Decides o Q
Decides-iff o f g (inl (p, e, no_p)) = inl (p, e, λ q. no_p (g q))
Decides-iff o f g (inr (e, h)) = inr (e, f h)

-- A check that is skipped unless `b`.
pub skipped-Decides :
    {P : Type 0} (b : Bool) (o : Option Problem)
    → Decides o P
    → Decides (if not b then none else o) (b ≡ true → P)
skipped-Decides true o (inl (p, e, no_p)) = inl (p, e, λ h. no_p (h refl))
skipped-Decides true o (inr (e, h)) = inr (e, λ k. h)
skipped-Decides false o d = inr (refl, λ k. absurd cc)

pub some-given : {A : Type 0} (l : List A) → not (is_empty l) ≡ true → l ≢ []
some-given [] h = absurd cc
some-given (a ∷ l) h = λ e. let bad = h in absurd cc

pub given-some : {A : Type 0} (l : List A) → l ≢ [] → not (is_empty l) ≡ true
given-some [] h = absurd (h refl)
given-some (a ∷ l) h = refl

pub all-given :
    (l : List (Text × Text)) → all (λ f. not (is_empty f.1)) l ≡ true → All (λ f. f.1 ≢ []) l
all-given [] h = tt
all-given (f ∷ l) h = (some-given f.1 (ground arith), all-given l (ground arith))

pub given-all :
    (l : List (Text × Text)) → All (λ f. f.1 ≢ []) l → all (λ f. not (is_empty f.1)) l ≡ true
given-all [] h = refl
given-all (f ∷ l) h =
    let one = given-some f.1 h.0 in let more = given-all l h.1 in simp (one, more) refl

-- `not b || c` is an implication.
pub implies-to : {P : Type 0} (b c : Bool) → (c ≡ true → P) → (not b || c) ≡ true → b ≡ true → P
implies-to true c f h e = f h
implies-to false c f h e = absurd cc

pub implies-from : {P : Type 0} (b c : Bool) → (P → c ≡ true) → (b ≡ true → P) → (not b || c) ≡ true
implies-from true c g h = g (h refl)
implies-from false c g h = refl

pub not-true : (b : Bool) → not b ≡ true → b ≡ false
not-true true h = absurd cc
not-true false h = refl

pub true-not : (b : Bool) → b ≡ false → not b ≡ true
true-not true h = absurd cc
true-not false h = refl
