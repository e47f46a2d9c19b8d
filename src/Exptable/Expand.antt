-- ===== src/Exptable/Expand.antt =====
-- `expandableTable_expand` moves every column to its new place.
use bsponmpi.Base.{
  ℕ, zero, suc, ◌+◌, ◌*◌, ◌^◌, ◌≤◌, ◌<◌, ◌≡◌, ◌∙◌, refl, arith, u32, Array, slice_ext, memcpy, ap,
}
use native.Mathlib.Decide.{ℕ_discrete}
use bsponmpi.Exptable.{ExpandableTable, column, cell, copy_columns, expand, contents}
use bsponmpi.Exptable.Layout.{
  IsValid, row_bound, column_lem, slots_bound, slots_fit, by_bytes_lem, memcpy-at, memcpy-below,
}

module _ {A I : Type 0} (t : ExpandableTable A I) (v : IsValid t) (newrows : ℕ)
    (grows : t.rows ≤ newrows) (fits : t.nprocs * newrows * t.slot_size < 2 ^ 31)
    (fresh : Array A) where
  new_slots : t.nprocs * newrows < 2 ^ 31
  new_slots = slots_bound (t.nprocs * newrows) t.slot_size (2 ^ 31) v.has_size fits

  -- The numbers of bytes of the copy of a column do not wrap.
  round_lem :
      (n : ℕ)
      → n < t.nprocs
      → copy_columns (suc n) t newrows fresh
        ≡ memcpy
            (copy_columns n t newrows fresh)
            (column newrows n)
            t.data_block
            (column t.rows n)
            (t.used_slot_count n)
  unfolding copy_columns
  round_lem n hn =
      let there = by_bytes_lem (column newrows n) t.slot_size (t.nprocs * newrows) v.has_size fits (
        omega (
          arith,
          column_lem t.nprocs newrows n (omega (arith, new_slots)) hn,
          row_bound t.nprocs newrows n 0 hn (omega arith),
        )) in
      let slots = slots_fit t v in
      let here = by_bytes_lem (column t.rows n) t.slot_size (t.nprocs * t.rows) v.has_size v.fits (
        omega (
          arith,
          column_lem t.nprocs t.rows n (omega (arith, slots)) hn,
          row_bound t.nprocs t.rows n 0 hn (omega arith),
        )) in
      let size =
        by_bytes_lem (t.used_slot_count n) t.slot_size (t.nprocs * t.rows) v.has_size v.fits
          (omega (arith, row_bound t.nprocs t.rows n (t.used_slot_count n) hn (v.within n hn))) in
      rw (there, here, size) refl

  copy_columns-cell :
      (n p i : ℕ)
      → n ≤ t.nprocs
      → p < n
      → i < t.used_slot_count p
      → copy_columns n t newrows fresh (column newrows p + i) ≡ cell t p i
  copy_columns-cell zero p i hn hp hi = absurd (omega arith)
  copy_columns-cell (suc n) p i hn hp hi =
      ap (λ (b : Array A). b (column newrows p + i)) (round_lem n hn) ∙ elim (ℕ_discrete p n) [
        | yes e ↦ rw (← e) (
            memcpy-at (copy_columns p t newrows fresh) t.data_block (column newrows p)
              (column t.rows p) (t.used_slot_count p) i hi)
        | no ne ↦
            memcpy-below (copy_columns n t newrows fresh) t.data_block (column newrows n)
              (column t.rows n) (t.used_slot_count n) _
              (omega (
                arith,
                v.within p (omega arith),
                row_bound n newrows p newrows (omega arith) (omega arith),
                column_lem t.nprocs newrows p (omega (arith, new_slots)) (omega arith),
                column_lem t.nprocs newrows n (omega (arith, new_slots)) hn,
              ))
            ∙ copy_columns-cell n p i (omega arith) (omega arith) hi
      ]

module _ {A I : Type 0} (t : ExpandableTable A I) (v : IsValid t) (rows : ℕ)
    (fits : t.nprocs * (rows + t.rows) * t.slot_size < 2 ^ 31) (one : 0 < t.nprocs)
    (fresh : Array A) (newinfo : I) where
  pub newrows_lem : u32 (rows + t.rows) ≡ rows + t.rows
  newrows_lem = omega (
    arith,
    slots_bound (t.nprocs * (rows + t.rows)) t.slot_size (2 ^ 31) v.has_size fits,
    row_bound t.nprocs (rows + t.rows) 0 (rows + t.rows) one (omega arith),
  )

  -- Expanding a valid table to a size that still fits keeps every used slot of every column in its
  -- place within the column, whatever the new block held.
  pub expand-cell :
      (p i : ℕ)
      → p < t.nprocs
      → i < t.used_slot_count p
      → cell (expand fresh t rows newinfo) p i ≡ cell t p i
  unfolding expand
  expand-cell p i hp hi = rw newrows_lem (
      copy_columns-cell t v (rows + t.rows) (omega arith) fits fresh t.nprocs p i (omega arith) hp
        hi)

  pub expand-contents :
      (p : ℕ) → p < t.nprocs → contents (expand fresh t rows newinfo) p ≡ contents t p
  unfolding expand
  expand-contents p hp = slice_ext _ _ _ _ _ (λ i hi. expand-cell p i hp hi)

  pub expand-IsValid : IsValid (expand fresh t rows newinfo)
  unfolding expand
  expand-IsValid = record {
    has_rows = omega (arith, newrows_lem, v.has_rows);
    has_size = v.has_size;
    fits = rw newrows_lem fits;
    within = λ p hp. omega (arith, newrows_lem, v.within p hp);
  }

  pub expand-rows : (expand fresh t rows newinfo).rows ≡ rows + t.rows
  unfolding expand
  expand-rows = newrows_lem

module _ {A I : Type 0} (fresh : Array A) (t : ExpandableTable A I) (rows : ℕ) (info : I) where
  pub expand-nprocs : (expand fresh t rows info).nprocs ≡ t.nprocs
  unfolding expand
  expand-nprocs = refl

  pub expand-used : (expand fresh t rows info).used_slot_count ≡ t.used_slot_count
  unfolding expand
  expand-used = refl

  pub expand-size : (expand fresh t rows info).slot_size ≡ t.slot_size
  unfolding expand
  expand-size = refl

  pub expand-info : (expand fresh t rows info).info ≡ info
  unfolding expand
  expand-info = refl
