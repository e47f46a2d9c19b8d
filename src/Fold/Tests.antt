-- ===== src/Fold/Tests.antt =====
-- The sum of two bytes over three processors.
use bsponmpi.Base.{
  ℕ, suc, ◌+◌, ◌*◌, ◌/◌, ◌%◌, ◌≡◌, refl, ap, arith, Array, slice, List, [], ◌∷◌, length,
}
use bsponmpi.Fold.{fold}
use bsponmpi.Fold.Result.{folded, fold_lem}

-- The sum by bytes.
abbrev sum : List ℕ → List ℕ → List ℕ
sum [] r = []
sum (x ∷ l) [] = x ∷ l
sum (x ∷ l) (y ∷ r) = ((x + y) % 256) ∷ sum l r

length-sum : (l r : List ℕ) → length (sum l r) ≡ length l
length-sum [] r = refl
length-sum (x ∷ l) [] = refl
length-sum (x ∷ l) (y ∷ r) = ap suc (length-sum l r)

-- Processor `p` has the bytes `p` and 100.
abbrev gathered : Array ℕ → ℕ → Array ℕ
gathered src nbytes i = i / 2 + i % 2 * 100

abbrev block : ℕ → List ℕ
block p = slice (gathered (λ _. 0) 2) (2 * p) 2

fold_lem_example : slice (fold sum gathered 3 (λ _. 0) (λ _. 7) 2) 0 2 ≡ folded sum block 2
fold_lem_example =
    fold_lem sum gathered 3 (λ _. 0) (λ _. 7) 2 block (λ l r h g. omega (arith, h, length-sum l r))
      (omega arith) (omega arith) (λ p h. refl) (λ h. absurd (omega arith))

folded_three : folded sum block 2 ≡ 3 ∷ 47 ∷ []
unfolding folded
folded_three = refl
