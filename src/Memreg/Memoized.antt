-- ===== src/Memreg/Memoized.antt =====
-- The memoized lookup of bsp_memreg.h against the plain one.
use bsponmpi.Base.{
  inl, inr, ℕ, zero, suc, ◌+◌, ◌-◌, ◌^◌, ◌≤◌, ◌<◌, ◌≡◌, ◌≢◌, ◌∙◌, sym, ap, arith, some, ok, Array,
}
use native.Mathlib.Decide.{ℕ_discrete}
use bsponmpi.Exptable.{column, cell}
use bsponmpi.Exptable.Layout.{slots_fit, row_bound}
use bsponmpi.Memreg.{MemoryRegister, find, walk_down, walk_from, shift_column, memoized_find}
use bsponmpi.Memreg.Search.{IsLastRow, find_lem}
use bsponmpi.Memreg.Pack.{IsRegister, IsPacked}

-- The walk stops at the last slot below `k` that holds the pointer.
walk_down-last :
    (k : ℕ) (block : Array ℕ) (pointer c : ℕ)
    → c < k
    → block c ≡ pointer
    → ((j : ℕ) → c < j → j < k → block j ≢ pointer)
    → walk_down k block pointer ≡ some c
unfolding walk_down
walk_down-last zero block pointer c h e last = absurd (omega arith)
walk_down-last (suc k) block pointer c h e last = elim (ℕ_discrete c k) [
  | yes same ↦ let hit : block k ≡ pointer = ap block (sym same) ∙ e in ground arith
  | no ne ↦
      let miss = last k (omega arith) (omega arith) in
      ground
        (arith, walk_down-last k block pointer c (omega arith) e (λ j p q. last j p (omega arith)))
]

module _ (t : MemoryRegister) (r : IsRegister t) (packed : IsPacked t) (dp pointer : ℕ) where
  abbrev src : ℕ
  src = t.info.memoized_src_proc

  abbrev base : ℕ
  base = column t.rows src

  walk_down-row :
      (i : ℕ)
      → IsLastRow t src pointer (some i)
      → walk_down (base + t.used_slot_count src) t.data_block pointer ≡ some (base + i)
  walk_down-row i last =
      walk_down-last (base + t.used_slot_count src) t.data_block pointer (base + i) (omega arith)
        last.1.0
        (λ j p q e. last.2 (j - base) (omega arith) (omega arith) (
          ap t.data_block (omega arith) ∙ e,
          packed.unmarked (j - base) (omega (arith, r.valid.within src r.local)),
        ))

  memoized_find-row :
      (i : ℕ) → IsLastRow t src pointer (some i) → memoized_find t dp pointer ≡ ok (cell t dp i)
  unfolding memoized_find
  memoized_find-row i last =
      ap (walk_from t (column t.rows dp) pointer) packed.iter
      ∙ ap (shift_column t (column t.rows dp)) (walk_down-row i last)
      ∙ shifted
    where
      shifted : shift_column t (column t.rows dp) (some (base + i)) ≡ ok (cell t dp i)
      shifted = ground (arith, packed.srccol)

  few : t.used_slot_count src ≤ 2 ^ 31
  few = omega (
    arith,
    r.valid.within src r.local,
    slots_fit t r.valid,
    row_bound t.nprocs t.rows src t.rows r.local (omega arith),
  )

  -- On a packed register, wherever the plain lookup on the local processor's column returns an
  -- address, the memoized lookup returns the same one.
  pub memoized_find-eq-find :
      {a : ℕ} → find t src dp pointer ≡ ok a → memoized_find t dp pointer ≡ ok a
  memoized_find-eq-find h = elim (find_lem t src pointer dp few) [
    | inl (i, last, found) ↦ memoized_find-row i last ∙ sym found ∙ h
    | inr (missing, aborted) ↦ cc
  ]
