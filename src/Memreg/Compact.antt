-- ===== src/Memreg/Compact.antt =====
-- The inner loop of `memoryRegister_pack`.
use bsponmpi.Base.{
  ℕ, zero, suc, ◌+◌, ◌-◌, ◌≤◌, ◌<◌, ◌≡◌, ◌∙◌, refl, sym, ap, ap₂, arith, ◌⊎◌, Array, update, slice,
  slice_ext, update_self, update_ne, Bool-cases, inl, inr, ◌==◌, if◌then◌else◌, List, [], ◌∷◌,
  length,
}
use bsponmpi.Memreg.{compact}

-- The entries of a column from row `j` on whose rows are not removed.
unfoldable pub live : Array ℕ → ℕ → List ℕ → List ℕ
live removed j [] = []
live removed j (x ∷ xs) =
    let rest = live removed (j + 1) xs in if removed j == 0 then x ∷ rest else rest

-- How many of the `n` rows from row `j` on are removed.
unfoldable pub removed_in : Array ℕ → ℕ → ℕ → ℕ
removed_in removed j zero = 0
removed_in removed j (suc n) = (if removed j == 0 then 0 else 1) + removed_in removed (j + 1) n

pub removed_in-zero :
    (removed : Array ℕ) (m : ℕ)
    → ((i : ℕ) → i < m → removed i ≡ 0)
    → (n j : ℕ) → j + n ≤ m
    → removed_in removed j n ≡ 0
unfolding removed_in
removed_in-zero removed m h zero j le = refl
removed_in-zero removed m h (suc n) j le =
    ground (arith, h j, removed_in-zero removed m h n (j + 1))

pub length-live :
    (removed block : Array ℕ) (n j s : ℕ)
    → length (live removed j (slice block s n)) + removed_in removed j n ≡ n
unfolding live removed_in
length-live removed block zero j s = refl
length-live removed block (suc n) j s = ground (arith, length-live removed block n (j + 1) (suc s))

module _ (base : ℕ) (removed : Array ℕ) where
  pub compact-outside :
      (n j displ k : ℕ) (block : Array ℕ)
      → displ ≤ j
      → (k < base + (j - displ)) ⊎ (base + (j + n) ≤ k)
      → compact n j displ base removed block k ≡ block k
  unfolding compact
  compact-outside zero j displ k block h o = refl
  compact-outside (suc n) j displ k block h o = elim (Bool-cases (removed j == 0)) [
    | inl e ↦ rw e (
        compact-outside n (j + 1) displ k (update block (base + (j - displ)) (block (base + j)))
          (omega arith) (omega arith)
        ∙ update_ne block (base + (j - displ)) (block (base + j)) k (omega arith))
    | inr e ↦ rw e (compact-outside n (j + 1) (displ + 1) k block (omega arith) (omega arith))
  ]

  compact-live :
      (n j displ : ℕ) (block : Array ℕ)
      → displ ≤ j
      → slice
          (compact n j displ base removed block)
          (base + (j - displ))
          (length (live removed j (slice block (base + j) n)))
        ≡ live removed j (slice block (base + j) n)
  unfolding compact live
  compact-live zero j displ block h = refl
  compact-live (suc n) j displ block h =
      let at = base + (j - displ) in
      let moved = update block at (block (base + j)) in
      let next : suc at ≡ base + (j + 1 - displ) = omega arith in
      let stay : at ≡ base + (j + 1 - (displ + 1)) = omega arith in
      let after : suc (base + j) ≡ base + (j + 1) = omega arith in
      let rest : slice block (suc (base + j)) n ≡ slice moved (base + (j + 1)) n =
        slice_ext block moved _ _ n (λ k p.
          ap block (omega arith) ∙ sym (update_ne block at _ (base + (j + 1) + k) (omega arith))) in
      elim (Bool-cases (removed j == 0)) [
        | inl e ↦
            rw (e, next, rest)
              (ap₂ ◌∷◌
                (compact-outside n (j + 1) displ at moved (omega arith) (inl (omega arith))
                  ∙ update_self block at _)
                (compact-live n (j + 1) displ moved (omega arith)))
        | inr e ↦ rw (e, stay, after) (compact-live n (j + 1) (displ + 1) block (omega arith))
      ]

  pub compact_column :
      (n : ℕ) (block : Array ℕ)
      → let xs = live removed 0 (slice block base n) in
        slice (compact n 0 0 base removed block) base (length xs) ≡ xs
  compact_column n block =
      let start : base + 0 ≡ base = omega arith in
      rw start at (compact-live n 0 0 block (omega arith))
