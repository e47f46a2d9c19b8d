-- ===== src/Delivtable/Room.antt =====
-- Making room in a DeliveryTable, and clearing it.
use bsponmpi.Base.{
  ℕ, zero, suc, ◌+◌, ◌-◌, ◌*◌, ◌^◌, ◌≤◌, ◌<◌, ◌≡◌, ◌∙◌, refl, ap, arith, max_of, Array, ltb, u32,
  int_lt, int_lt_lem, if◌then◌else◌, Bool-cases, inl, inr,
}
use native.Mathlib.Decide.{ℕ_discrete}
use bsponmpi.Exptable
use bsponmpi.Exptable.{ExpandableTable, column, cell}
use bsponmpi.Exptable.Layout.{mul_mono, row_bound}
use bsponmpi.Exptable.Expand.{expand-cell, expand-rows, expand-nprocs, expand-used}
use bsponmpi.Delivtable.Extent.{object_slots, object_size_lem}
use bsponmpi.Delivtable.{
  Slot, DeliveryTable, ItemType, point_columns, expand, make_room, aligned_size, object_size,
}
use bsponmpi.Delivtable.Index.{PointsTo}
use bsponmpi.Delivtable.Column.{queue, IsDelivery, SameColumn, same-IsColumn, same_queue}

-- Repointing the index changes the pointers only.
module _ (t : DeliveryTable) where
  point_columns-shape :
      (n : ℕ)
      → let t' = point_columns n t in
        (t'.data_block ≡ t.data_block)
        × (t'.rows ≡ t.rows)
        × (t'.nprocs ≡ t.nprocs)
        × (t'.used_slot_count ≡ t.used_slot_count)
        × (t'.slot_size ≡ t.slot_size)
  unfolding point_columns
  point_columns-shape zero = (refl, refl, refl, refl, refl)
  point_columns-shape (suc n) = point_columns-shape n

  point_columns-PointsTo : (n p : ℕ) → p < n → PointsTo (point_columns n t) p
  unfolding point_columns
  point_columns-PointsTo zero p h = absurd (omega arith)
  point_columns-PointsTo (suc n) p h = elim (ℕ_discrete p n) [
    | yes e ↦ ground arith
    | no ne ↦ let before = point_columns-PointsTo n p (omega arith) in ground arith
  ]

-- The table could grow by its own size and by an object of `size` bytes, and its size in bytes
-- would still fit `int`.
abbrev pub CanGrow : DeliveryTable → ℕ → Type 0
CanGrow t size = t.nprocs * (t.rows + (t.rows + object_slots size)) * aligned_size < 2 ^ 31

pub grow_small :
    (t : DeliveryTable) (proc size : ℕ)
    → proc < t.nprocs
    → CanGrow t size
    → (t.rows + (t.rows + object_slots size)) * aligned_size < 2 ^ 31
grow_small t proc size h grow =
    let most = t.rows + (t.rows + object_slots size) in
    omega (arith, grow, row_bound t.nprocs most proc most h (omega arith))

-- `t'` has room for `size` bytes in column `proc`, and its columns are those of `t`.
pub record HasRoom (t t' : DeliveryTable) (proc size : ℕ) : Type 0 where
  pub delivery : IsDelivery t'
  pub nprocs : t'.nprocs ≡ t.nprocs
  pub used : t'.used_slot_count ≡ t.used_slot_count
  pub free : t.used_slot_count proc + object_slots size ≤ t'.rows
  pub same : (p : ℕ) (type : ItemType) → p < t.nprocs → queue t' p type ≡ queue t p type

module _ (fresh : Array Slot) (t : DeliveryTable) (d : IsDelivery t) (rows : ℕ)
    (fits : t.nprocs * (rows + t.rows) * aligned_size < 2 ^ 31) (one : 0 < t.nprocs) where
  bytes_fit : t.nprocs * (rows + t.rows) * t.slot_size < 2 ^ 31
  bytes_fit = rw d.aligned fits

  abbrev moved : DeliveryTable
  moved = Exptable.expand fresh t rows t.info

  moved-nprocs : moved.nprocs ≡ t.nprocs
  moved-nprocs = expand-nprocs fresh t rows t.info

  expand-SameColumn : (p : ℕ) → p < t.nprocs → SameColumn t (expand fresh t rows) p
  unfolding expand
  expand-SameColumn p hp =
      let shape = point_columns-shape moved t.nprocs in
      record {
        used = ap (λ (u : Array ℕ). u p) (shape.3 ∙ expand-used fresh t rows t.info);
        cells = λ i hi.
            ap (λ (b : Array Slot). b (column (point_columns t.nprocs moved).rows p + i)) shape.0
            ∙ ap (λ r. moved.data_block (column r p + i)) shape.1
            ∙ expand-cell t d.valid rows bytes_fit one fresh t.info p i hp hi;
        points = point_columns-PointsTo moved t.nprocs p hp;
      }

  pub expand-shape :
      ((expand fresh t rows).rows ≡ rows + t.rows)
      × ((expand fresh t rows).nprocs ≡ t.nprocs)
      × ((expand fresh t rows).used_slot_count ≡ t.used_slot_count)
      × ((expand fresh t rows).slot_size ≡ t.slot_size)
  unfolding expand Exptable.expand
  expand-shape =
      let shape = point_columns-shape moved t.nprocs in
      (shape.1 ∙ expand-rows t d.valid rows bytes_fit one fresh t.info, shape.2, shape.3, shape.4)

  pub expand-IsDelivery : IsDelivery (expand fresh t rows)
  expand-IsDelivery =
      let (same_rows, same_nprocs, same_used, same_size) = expand-shape in
      record {
        valid = record {
          has_rows = rw same_rows (omega (arith, d.valid.has_rows));
          has_size = rw same_size d.valid.has_size;
          fits = rw (same_rows, same_nprocs, same_size) bytes_fit;
          within = λ p hp. omega (
            arith,
            same_rows,
            ap (λ (u : Array ℕ). u p) same_used,
            d.valid.within p (rw same_nprocs at hp),
          );
        };
        aligned = same_size ∙ d.aligned;
        columns = λ p hp.
            let q = rw same_nprocs at hp in
            same-IsColumn t (expand fresh t rows) p (d.columns p q) (expand-SameColumn p q);
      }

module _ (fresh : Array Slot) (t : DeliveryTable) (d : IsDelivery t) (proc size : ℕ)
    (hp : proc < t.nprocs) (grow : CanGrow t size) where
  abbrev more : ℕ
  more = max_of t.rows (object_slots size - (t.rows - t.used_slot_count proc))

  -- Without wrap-around, the table grows if the object does not fit.
  pub make_room_lem : make_room fresh t proc size ≡ (
      if ltb (t.rows - t.used_slot_count proc) (object_slots size) then expand fresh t more else t)
  unfolding make_room
  make_room_lem =
      let free = t.rows - t.used_slot_count proc in
      let small = grow_small t proc size hp grow in
      let used = d.valid.within proc hp in
      let exact : object_size size ≡ object_slots size =
        object_size_lem size (omega (arith, small)) in
      let free_lem : u32 (t.rows + 2 ^ 32 - t.used_slot_count proc) ≡ free =
        omega (arith, used, small) in
      let signed : int_lt free (object_slots size) ≡ ltb free (object_slots size) =
        int_lt_lem free (object_slots size) (omega (arith, small)) (omega (arith, small)) in
      rw (exact, free_lem, signed)
        (elim (Bool-cases (ltb free (object_slots size))) [
          | inl e ↦
              let needed : u32 (object_slots size + 2 ^ 32 - free) ≡ object_slots size - free =
                ground (arith, small) in
              rw (e, needed) refl
          | inr e ↦ rw e refl
        ])

  more-le : more + t.rows ≤ t.rows + (t.rows + object_slots size)
  more-le = ground arith

  expand-HasRoom : HasRoom t (expand fresh t more) proc size
  expand-HasRoom =
      let one : 0 < t.nprocs = omega arith in
      let fits : t.nprocs * (more + t.rows) * aligned_size < 2 ^ 31 = omega (
        arith,
        grow,
        mul_mono t.nprocs (more + t.rows) (t.rows + (t.rows + object_slots size)) more-le,
      ) in
      let (same_rows, same_nprocs, same_used, _) = expand-shape fresh t d more fits one in
      record {
        delivery = expand-IsDelivery fresh t d more fits one;
        nprocs = same_nprocs;
        used = same_used;
        free = ground (arith, same_rows, d.valid.within proc hp);
        same = λ p type h.
            same_queue t (expand fresh t more) p (d.columns p h)
              (expand-SameColumn fresh t d more fits one p h) type;
      }

  -- Making room for an object in a delivery table in order, which can grow below 2^31 bytes, keeps
  -- it in order, keeps every queue and every fill mark, and leaves enough free slots in the column
  -- for the object.
  pub make_room-HasRoom : HasRoom t (make_room fresh t proc size) proc size
  make_room-HasRoom =
      elim (Bool-cases (ltb (t.rows - t.used_slot_count proc) (object_slots size))) [
        | inl e ↦ rw (make_room_lem, e) expand-HasRoom
        | inr e ↦
            rw (make_room_lem, e)
              (record {
                delivery = d;
                nprocs = refl;
                used = refl;
                free = ground (arith, d.valid.within proc hp);
                same = λ p type h. refl;
              })
      ]
