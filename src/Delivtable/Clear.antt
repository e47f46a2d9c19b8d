-- ===== src/Delivtable/Clear.antt =====
-- A DeliveryTable that was just made or emptied: every queue is empty.
use bsponmpi.Base.{
  ℕ, zero, suc, ◌+◌, ◌*◌, ◌/◌, ◌%◌, ◌^◌, ◌≤◌, ◌<◌, ◌≡◌, ◌∙◌, refl, sym, ap, arith, Array, [],
}
use native.Mathlib.Decide.{ℕ_discrete}
use bsponmpi.Exptable
use bsponmpi.Exptable.{ExpandableTable, column, cell}
use bsponmpi.Exptable.Layout.{IsValid}
use bsponmpi.Delivtable.{
  Slot, DelivInfo, column_words, DeliveryTable, ItemType, code, index_size, zero_slot, start_of,
  count_of, end_of, aligned_size, clear_columns, index_columns, initialize, reset, resetrowcount,
}
use bsponmpi.Delivtable.Chain.{positions, IsChain-empty}
use bsponmpi.Delivtable.Index.{code-lt, PointsTo}
use bsponmpi.Delivtable.Column.{
  next_in, extent_in, actions_at, queue, read_word-at, IsColumn, IsDelivery,
}

-- The index of column `p` is zero, and the fill mark stands behind it.
pub record IsCleared (t : DeliveryTable) (p : ℕ) : Type 0 where
  pub points : PointsTo t p
  pub mark : t.used_slot_count p ≡ index_size
  pub zeros : (i : ℕ) → i < index_size → cell t p i ≡ zero_slot

module _ (t : DeliveryTable) (p : ℕ) (c : IsCleared t p) where
  cleared-count : (type : ItemType) → count_of t p type ≡ 0
  cleared-count type =
      read_word-at t.data_block (column t.rows p) _ (6 + code type) (omega (arith, c.points.count))
      ∙ ap (λ (x : Slot). x.words ((6 + code type) % 2))
          (c.zeros ((6 + code type) / 2) (omega (arith, code-lt type)))

  cleared-queue : (type : ItemType) → queue t p type ≡ []
  unfolding positions
  cleared-queue type =
      ap (λ n. actions_at t p (positions (next_in t p) (start_of t p type) n)) (cleared-count type)

  cleared-IsColumn : IsColumn t p
  cleared-IsColumn = record {
    points = c.points;
    low = omega (arith, c.mark);
    chain = λ type. rw (cleared-count type) (
        IsChain-empty (next_in t p) (extent_in t p) index_size (t.used_slot_count p)
          (start_of t p type) (end_of t p type));
    apart = λ a b i j ne hi hj. absurd (omega (arith, cleared-count a));
  }

module _ (t : DeliveryTable) where
  clear-shape :
      (n : ℕ)
      → let t' = clear_columns n t in
        (t'.rows ≡ t.rows)
        × (t'.nprocs ≡ t.nprocs)
        × (t'.slot_size ≡ t.slot_size)
        × (t'.info ≡ t.info)
  unfolding clear_columns
  clear-shape zero = (refl, refl, refl, refl)
  clear-shape (suc n) = clear-shape n

  clear-used : (n p : ℕ) → p < n → (clear_columns n t).used_slot_count p ≡ index_size
  unfolding clear_columns
  clear-used zero p h = absurd (omega arith)
  clear-used (suc n) p h = ground (arith, clear-used n p)

  clear-zeros :
      (n p i : ℕ)
      → p < n
      → i < index_size
      → (clear_columns n t).data_block (column (clear_columns n t).rows p + i) ≡ zero_slot
  unfolding clear_columns
  clear-zeros zero p i h hi = absurd (omega arith)
  clear-zeros (suc n) p i h hi = elim (ℕ_discrete p n) [
    | yes e ↦ rw e (ground arith)
    | no ne ↦ ground (arith, clear-zeros n p i)
  ]

  index-shape :
      (n : ℕ)
      → let t' = index_columns n t in
        (t'.rows ≡ t.rows) × (t'.nprocs ≡ t.nprocs) × (t'.slot_size ≡ t.slot_size)
  unfolding index_columns
  index-shape zero = (refl, refl, refl)
  index-shape (suc n) = index-shape n

  index-IsCleared : (n p : ℕ) → p < n → IsCleared (index_columns n t) p
  unfolding index_columns
  index-IsCleared zero p h = absurd (omega arith)
  index-IsCleared (suc n) p h = elim (ℕ_discrete p n) [
    | yes e ↦ record {
      points = ground arith;
      mark = ground arith;
      zeros = λ i hi. rw e (ground arith);
    }
    | no ne ↦
        let before = index-IsCleared n p (omega arith) in
        record {
          points = let b = before.points in ground arith;
          mark = let b = before.mark in ground arith;
          zeros = λ i hi. let b = before.zeros i hi in ground arith;
        }
  ]

-- A table all of whose columns are cleared is in order, and no queue has an action.
cleared-IsDelivery :
    (t : DeliveryTable)
    → IsValid t
    → t.slot_size ≡ aligned_size
    → ((p : ℕ) → p < t.nprocs → IsCleared t p)
    → IsDelivery t × ((p : ℕ) (type : ItemType) → p < t.nprocs → queue t p type ≡ [])
cleared-IsDelivery t v a c = (
  record { valid = v; aligned = a; columns = λ p h. cleared-IsColumn t p (c p h) },
  λ p type h. cleared-queue t p (c p h) type,
)

indexed-IsDelivery :
    (t : DeliveryTable)
    → index_size ≤ t.rows
    → t.slot_size ≡ aligned_size
    → t.nprocs * t.rows * aligned_size < 2 ^ 31
    → let t' = index_columns t.nprocs t in
      IsDelivery t' × ((p : ℕ) (type : ItemType) → p < t'.nprocs → queue t' p type ≡ [])
indexed-IsDelivery t r z f =
    let (same_rows, same_nprocs, same_size) = index-shape t t.nprocs in
    let t' = index_columns t.nprocs t in
    let c : (p : ℕ) → p < t'.nprocs → IsCleared t' p =
      λ p h. index-IsCleared t t.nprocs p (rw same_nprocs at h) in
    cleared-IsDelivery t'
      (record {
        has_rows = rw same_rows (omega arith);
        has_size = rw (same_size, z) (omega arith);
        fits = rw (same_rows, same_nprocs, same_size, z) f;
        within = λ p h. omega (arith, (c p h).mark, same_rows);
      })
      (same_size ∙ z) c

-- A new delivery table whose size in bytes fits `int` is in order and every queue of it is empty,
-- whatever the memory held before.
pub initialize-IsDelivery :
    (fresh : Array Slot) (pointers : DelivInfo) (nprocs rows : ℕ)
    → nprocs * (rows + index_size) * aligned_size < 2 ^ 31
    → let t = initialize fresh pointers nprocs rows in
      IsDelivery t × ((p : ℕ) (type : ItemType) → p < t.nprocs → queue t p type ≡ [])
unfolding initialize Exptable.initialize
initialize-IsDelivery fresh pointers nprocs rows fits = indexed-IsDelivery _ (omega arith) refl fits

-- A table in order that is given a new row count that covers the index is in order again and every
-- queue of it is empty.
pub resetrowcount-IsDelivery :
    (fresh : Array Slot) (t : DeliveryTable) (rows : ℕ)
    → IsDelivery t
    → index_size ≤ rows
    → t.nprocs * rows * aligned_size < 2 ^ 31
    → let t' = resetrowcount fresh t rows in
      IsDelivery t' × ((p : ℕ) (type : ItemType) → p < t'.nprocs → queue t' p type ≡ [])
unfolding resetrowcount Exptable.resetrowcount
resetrowcount-IsDelivery fresh t rows d low fits = indexed-IsDelivery _ low d.aligned fits

module _ (t : DeliveryTable) (d : IsDelivery t) (one : 0 < t.nprocs) where
  abbrev zeroed : DeliveryTable
  zeroed = Exptable.reset t

  -- Clearing moves no column.
  same_points :
      (t' : DeliveryTable) (p : ℕ)
      → t'.rows ≡ t.rows
      → t'.info ≡ t.info
      → PointsTo t p
      → PointsTo t' p
  same_points t' p r i b =
      let words = ap (λ n. column_words n p) (sym r) in
      record {
        start = ap (λ (x : DelivInfo). x.start p) i ∙ b.start ∙ words;
        count = ap (λ (x : DelivInfo). x.count p) i ∙ b.count ∙ ap (λ n. n + 6) words;
        end_ = ap (λ (x : DelivInfo). x.end_ p) i ∙ b.end_ ∙ ap (λ n. n + 12) words;
      }

  reset-IsCleared : (p : ℕ) → p < t.nprocs → IsCleared (reset t) p
  unfolding reset Exptable.reset
  reset-IsCleared p h =
      let (same_rows, same_nprocs, same_size, same_info) = clear-shape zeroed t.nprocs in
      record {
        points =
            same_points (clear_columns t.nprocs zeroed) p same_rows same_info
              (d.columns p h).points;
        mark = clear-used zeroed t.nprocs p h;
        zeros = λ i hi. clear-zeros zeroed t.nprocs p i h hi;
      }

  -- Resetting a delivery table in order with at least one column keeps it in order, keeps its
  -- number of columns and rows, and empties every queue.
  pub reset-IsDelivery :
      IsDelivery (reset t)
      × ((p : ℕ) (type : ItemType) → p < (reset t).nprocs → queue (reset t) p type ≡ [])
      × ((reset t).nprocs ≡ t.nprocs)
      × ((reset t).rows ≡ t.rows)
  unfolding reset Exptable.reset
  reset-IsDelivery =
      let (same_rows, same_nprocs, same_size, same_info) = clear-shape zeroed t.nprocs in
      let t' = clear_columns t.nprocs zeroed in
      let low : index_size ≤ t.rows = omega (arith, (d.columns 0 one).low, d.valid.within 0 one) in
      let done =
        cleared-IsDelivery t'
          (record {
            has_rows = rw same_rows (omega arith);
            has_size = rw same_size d.valid.has_size;
            fits = rw (same_rows, same_nprocs, same_size) d.valid.fits;
            within =
                λ p h. omega (arith, clear-used zeroed t.nprocs p (rw same_nprocs at h), same_rows);
          })
          (same_size ∙ d.aligned) (λ p h. reset-IsCleared p (rw same_nprocs at h)) in
      (done.0, done.1, same_nprocs, same_rows)

-- Resetting keeps the size of a slot.
pub reset-size : (t : DeliveryTable) → (reset t).slot_size ≡ t.slot_size
unfolding reset Exptable.reset
reset-size t = (clear-shape (Exptable.reset t) t.nprocs).2
