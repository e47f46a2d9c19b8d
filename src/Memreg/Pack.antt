-- ===== src/Memreg/Pack.antt =====
-- `memoryRegister_pack` drops the removed rows from every column, in place.
use bsponmpi.Base.{
  ℕ, zero, suc, ◌+◌, ◌-◌, ◌%◌, ◌^◌, ◌≤◌, ◌<◌, ◌≡◌, ◌∙◌, refl, sym, ap, ltb, arith, slice, slice_ext,
  inl, inr, if◌then◌else◌, List, length, some,
}
use native.Mathlib.Decide.{ℕ_discrete}
use bsponmpi.Exptable.{column, cell, contents}
use bsponmpi.Exptable.Layout.{columns_ordered, IsValid, row_bound, slots_fit}
use bsponmpi.Memreg.{MemoryRegister, compact, pack_columns, pack}
use bsponmpi.Memreg.Compact.{
  live, removed_in, removed_in-zero, length-live, compact-outside, compact_column,
}

module _ (t : MemoryRegister) (v : IsValid t) (count : ℕ) where
  abbrev packed : ℕ → MemoryRegister
  packed n = pack_columns n t count

  abbrev kept : ℕ → List ℕ
  kept p = live t.info.removed 0 (contents t p)

  kept-le : (p : ℕ) → p < t.nprocs → length (kept p) ≤ t.used_slot_count p
  kept-le p hp =
      omega
        (arith, length-live t.info.removed t.data_block (t.used_slot_count p) 0 (column t.rows p))

  -- Packing the columns below `n` leaves the later ones alone.
  later :
      (n q i : ℕ)
      → n ≤ q
      → q < t.nprocs
      → i < t.rows
      → (packed n).data_block (column t.rows q + i) ≡ cell t q i
  unfolding pack_columns
  later zero q i h hq hi = refl
  later (suc n) q i h hq hi =
      compact-outside (column t.rows n) t.info.removed (t.used_slot_count n) 0 0
        (column t.rows q + i) (packed n).data_block (omega arith)
        (inr (
          omega
            (arith, columns_ordered t v n q (t.used_slot_count n) h hq (v.within n (omega arith)))))
      ∙ later n q i (omega arith) hq hi

  packed-used :
      (n p : ℕ) → (packed n).used_slot_count p ≡ (if ltb p n then count else t.used_slot_count p)
  unfolding pack_columns
  packed-used zero p = ground arith
  packed-used (suc n) p = ground (arith, packed-used n p)

  packed-live :
      (n p : ℕ)
      → n ≤ t.nprocs
      → p < n
      → slice (packed n).data_block (column t.rows p) (length (kept p)) ≡ kept p
  unfolding pack_columns
  packed-live zero p hn hp = absurd (omega arith)
  packed-live (suc n) p hn hp = elim (ℕ_discrete p n) [
    | yes e ↦ rw e (here n (omega arith))
    | no ne ↦
        slice_ext _ _ _ _ _ (λ i hi.
          compact-outside (column t.rows n) t.info.removed (t.used_slot_count n) 0 0
            (column t.rows p + i) (packed n).data_block (omega arith)
            (inl (
              omega (
                arith,
                kept-le p (omega arith),
                v.within p (omega arith),
                columns_ordered t v p n t.rows (omega arith) hn (omega arith),
              ))))
        ∙ packed-live n p (omega arith) (omega arith)
  ]
    where
      here :
          (n : ℕ)
          → n < t.nprocs
          → slice
              (compact
                (t.used_slot_count n)
                0
                0
                (column t.rows n)
                t.info.removed
                (pack_columns n t count).data_block)
              (column t.rows n)
              (length (kept n))
            ≡ kept n
      here n hn =
          let same : contents t n
              ≡ slice (packed n).data_block (column t.rows n) (t.used_slot_count n) =
            slice_ext _ _ _ _ _
              (λ i hi. sym (later n n i (omega arith) hn (omega (arith, v.within n hn)))) in
          rw same (
            compact_column (column t.rows n) t.info.removed (t.used_slot_count n)
              (packed n).data_block)

  packed-shape :
      (n : ℕ)
      → ((packed n).rows ≡ t.rows)
        × ((packed n).nprocs ≡ t.nprocs)
        × ((packed n).slot_size ≡ t.slot_size)
  unfolding pack_columns
  packed-shape zero = (refl, refl, refl)
  packed-shape (suc n) = packed-shape n

-- The columns hold the rows that were registered together, and the removed rows are counted.
pub record IsRegister (t : MemoryRegister) : Type 0 where
  pub valid : IsValid t
  pub local : t.info.memoized_src_proc < t.nprocs
  pub aligned : (p : ℕ) → p < t.nprocs → t.used_slot_count p ≡ t.used_slot_count 0
  pub counted : t.info.numremov ≡ removed_in t.info.removed 0 (t.used_slot_count 0)

-- No row is marked, and the search of memoized_find starts at the end of the local column.
pub record IsPacked (t : MemoryRegister) : Type 0 where
  pub none_removed : t.info.numremov ≡ 0
  pub unmarked : (i : ℕ) → i < t.rows → t.info.removed i ≡ 0
  pub srccol : t.info.memoized_srccol ≡ column t.rows t.info.memoized_src_proc
  pub iter :
      t.info.memoized_data_iter
      ≡ some (column t.rows t.info.memoized_src_proc + t.used_slot_count t.info.memoized_src_proc)

module _ (t : MemoryRegister) (r : IsRegister t) where
  abbrev count : ℕ
  count = (t.used_slot_count 0 + 2 ^ 32 - t.info.numremov) % 2 ^ 32

  count_lem : (p : ℕ) → p < t.nprocs → count ≡ length (kept t r.valid count p)
  count_lem p hp = omega (
    arith,
    r.counted,
    r.aligned p hp,
    ap (λ n. removed_in t.info.removed 0 n) (r.aligned p hp),
    r.valid.within p hp,
    slots_fit t r.valid,
    row_bound t.nprocs t.rows p t.rows hp (omega arith),
    length-live t.info.removed t.data_block (t.used_slot_count p) 0 (column t.rows p),
  )

  abbrev all_packed : MemoryRegister
  all_packed = packed t r.valid count t.nprocs

  used_after : (p : ℕ) → p < t.nprocs → all_packed.used_slot_count p ≡ count
  used_after p hp = ground (arith, packed-used t r.valid count t.nprocs p)

  -- Packing a register in order leaves in every column exactly the entries of the rows that were
  -- not removed, in their order.
  pub contents-pack :
      (p : ℕ) → p < t.nprocs → contents (pack t) p ≡ live t.info.removed 0 (contents t p)
  unfolding pack
  contents-pack p hp =
      let shape = packed-shape t r.valid count t.nprocs in
      let size = used_after p hp ∙ count_lem p hp in
      rw (shape.0, size) (packed-live t r.valid count t.nprocs p (omega arith) hp)

  pub pack-shape : ((pack t).rows ≡ t.rows) × ((pack t).nprocs ≡ t.nprocs)
  unfolding pack
  pack-shape = ground (arith, packed-shape t r.valid count t.nprocs)

  used-pack :
      (p : ℕ)
      → p < t.nprocs
      → ((pack t).used_slot_count p ≡ count) × ((pack t).used_slot_count p ≤ t.rows)
  unfolding pack
  used-pack p hp =
      omega
        (arith, used_after p hp, count_lem p hp, kept-le t r.valid count p hp, r.valid.within p hp)

  unmarked_after : (i : ℕ) → i < t.rows → (pack t).info.removed i ≡ 0
  unfolding pack
  unmarked_after i hi = ground arith

  pack-IsValid : IsValid (pack t)
  unfolding pack
  pack-IsValid =
      let (same_rows, same_nprocs, same_size) = packed-shape t r.valid count t.nprocs in
      record {
        has_rows = rw same_rows r.valid.has_rows;
        has_size = rw same_size r.valid.has_size;
        fits = rw (same_rows, same_nprocs, same_size) r.valid.fits;
        within = λ p hp. omega (arith, same_rows, used-pack p (rw same_nprocs at hp));
      }

  -- Packing a register in order keeps it in order, leaves no row marked, and sets the memoized
  -- search to the end of the local column.
  pub pack-IsRegister : IsRegister (pack t) × IsPacked (pack t)
  unfolding pack
  pack-IsRegister =
      let (same_rows, same_nprocs) = pack-shape in
      let some_proc : 0 < t.nprocs = omega (arith, r.local) in
      (
        record {
          valid = pack-IsValid;
          local = rw same_nprocs r.local;
          aligned =
              λ p hp. omega (arith, used-pack p (rw same_nprocs at hp), used-pack 0 some_proc);
          counted =
              sym (
                removed_in-zero _ t.rows unmarked_after _ 0 (omega (arith, used-pack 0 some_proc)));
        },
        record {
          none_removed = refl;
          unmarked = λ i hi. unmarked_after i (rw same_rows at hi);
          srccol = ap (λ n. column n t.info.memoized_src_proc) (sym same_rows);
          iter =
              ap
                (λ n. some (
                  column n t.info.memoized_src_proc
                  + (pack t).used_slot_count t.info.memoized_src_proc))
                (sym same_rows);
        },
      )
