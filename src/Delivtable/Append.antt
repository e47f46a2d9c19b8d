-- ===== src/Delivtable/Append.antt =====
-- Adding an object to a column that has room for it.
use bsponmpi.Base.{
  ℕ, suc, ◌+◌, ◌-◌, ◌*◌, ◌^◌, ◌≤◌, ◌<◌, ◌≡◌, ◌≢◌, ◌⊎◌, inl, inr, ◌∙◌, refl, ap, arith, u32, Bool,
  ◌==◌, ◌&&◌, not, if◌then◌else◌,
}
use native.Mathlib.Decide.{ℕ_discrete, dec_lt}
use bsponmpi.Exptable.{column, cell}
use bsponmpi.Exptable.Layout.{columns_ordered}
use bsponmpi.Delivtable.Extent.{object_slots, object_size_lem}
use bsponmpi.Delivtable.{
  DelivInfo, DelivElement, DeliveryTable, ItemType, code, read_word, start_of, count_of, end_of,
  tag_size, aligned_size, append,
}
use bsponmpi.Delivtable.Chain.{count-le}
use bsponmpi.Delivtable.Index.{
  code-lt, code-injective, PointsTo, append-word, append-next, append-size, append-info, append-new,
  append-bytes, append-slot,
}
use bsponmpi.Delivtable.Column.{next_in, IsColumn, IsDelivery, SameColumn, rows_small}
use bsponmpi.Delivtable.Extends.{Appended, Extends}

module _ (t : DeliveryTable) (d : IsDelivery t) (proc : ℕ) (hp : proc < t.nprocs)
    (element : DelivElement) (type : ItemType)
    (free : t.used_slot_count proc + object_slots element.size ≤ t.rows) where
  abbrev t' : DeliveryTable
  t' = append t proc element type

  abbrev own : IsColumn t proc
  own = d.columns proc hp

  abbrev used : ℕ
  used = t.used_slot_count proc

  abbrev base : ℕ
  base = column t.rows proc

  rows-small : t.rows * aligned_size < 2 ^ 31
  rows-small = rows_small t d proc hp

  object_small : element.size + aligned_size ≤ 2 ^ 31
  object_small = omega (arith, rows-small)

  end_in : count_of t proc type ≢ 0 → end_of t proc type + tag_size ≤ used
  end_in h =
      let k = count_of t proc type - 1 in
      omega (arith, (own.chain type).inside k (omega arith), (own.chain type).last k (omega arith))

  append-used :
      (q : ℕ)
      → t'.used_slot_count q
        ≡ (if q == proc then used + object_slots element.size else t.used_slot_count q)
  unfolding append
  append-used q =
      let exact = object_size_lem element.size object_small in ground (arith, exact, rows-small)

  append-points : (q : ℕ) → PointsTo t q → PointsTo t' q
  unfolding append
  append-points q h = record { start = h.start; count = h.count; end_ = h.end_ }

  pub append-shape : (t'.rows ≡ t.rows) × (t'.nprocs ≡ t.nprocs)
  unfolding append
  append-shape = (refl, refl)

  outside :
      (q i : ℕ)
      → q < t.nprocs
      → q ≢ proc
      → i < t.rows
      → (column t.rows q + i < base) ⊎ (base + t.rows ≤ column t.rows q + i)
  outside q i hq ne hi = elim (dec_lt q proc) [
    | yes l ↦ inl (omega (arith, columns_ordered t d.valid q proc (suc i) l hp hi))
    | no g ↦
        inr (omega (arith, columns_ordered t d.valid proc q t.rows (omega arith) hq (omega arith)))
  ]

  -- The other columns stay as they are.
  other_column : (q : ℕ) → q < t.nprocs → q ≢ proc → SameColumn t t' q
  unfolding append
  other_column q hq ne = record {
    used = append-used q ∙ ground arith;
    cells = λ i hi.
        append-slot t proc element type own.points (column t.rows q + i)
          (outside q i hq ne (omega (arith, d.valid.within q hq))) (omega (arith, own.low))
          (λ h. omega (arith, end_in h)) (omega arith);
    points = append-points q (d.columns q hq).points;
  }

  points_own : PointsTo t proc
  points_own = own.points

  abbrev was_empty : Bool
  was_empty = count_of t proc type == 0

  -- The index words of the column after the object was added.
  word_lem :
      (w : ℕ)
      → read_word t'.data_block w ≡ (
          if w == t.info.count proc + code type
          then u32 (count_of t proc type + 1)
          else if w == t.info.end_ proc + code type
          then used
          else if was_empty && (w == t.info.start proc + code type)
          then used
          else read_word t.data_block w)
  word_lem w = append-word t proc element type own.points w

  info_lem : t'.info ≡ t.info
  unfolding append
  info_lem = refl

  module _ (other : ItemType) (ne : other ≢ type) where
    codes_ne : code other ≢ code type
    codes_ne h = ne (code-injective other type h)

    start_other : start_of t' proc other ≡ start_of t proc other
    start_other =
        ap (λ (x : DelivInfo). read_word t'.data_block (x.start proc + code other)) info_lem
        ∙ word_lem (t.info.start proc + code other)
        ∙ ground (
          arith,
          own.points.start,
          own.points.count,
          own.points.end_,
          code-lt other,
          code-lt type,
          codes_ne,
        )

    count_other : count_of t' proc other ≡ count_of t proc other
    count_other =
        ap (λ (x : DelivInfo). read_word t'.data_block (x.count proc + code other)) info_lem
        ∙ word_lem (t.info.count proc + code other)
        ∙ ground (
          arith,
          own.points.start,
          own.points.count,
          own.points.end_,
          code-lt other,
          code-lt type,
          codes_ne,
        )

    end_other : end_of t' proc other ≡ end_of t proc other
    end_other =
        ap (λ (x : DelivInfo). read_word t'.data_block (x.end_ proc + code other)) info_lem
        ∙ word_lem (t.info.end_ proc + code other)
        ∙ ground (
          arith,
          own.points.start,
          own.points.count,
          own.points.end_,
          code-lt other,
          code-lt type,
          codes_ne,
        )

  count-le-used : count_of t proc type ≤ used
  count-le-used = elim (ℕ_discrete (count_of t proc type) 0) [
    | yes e ↦ omega arith
    | no ne ↦
        let k = count_of t proc type - 1 in
        omega (
          arith,
          count-le (own.chain type) k (omega arith),
          (own.chain type).inside k (omega arith),
        )
  ]

  start_self :
      start_of t' proc type ≡ (if count_of t proc type == 0 then used else start_of t proc type)
  start_self =
      ap (λ (x : DelivInfo). read_word t'.data_block (x.start proc + code type)) info_lem
      ∙ word_lem (t.info.start proc + code type)
      ∙ ground (arith, own.points.start, own.points.count, own.points.end_, code-lt type)

  count_self : count_of t' proc type ≡ suc (count_of t proc type)
  count_self =
      ap (λ (x : DelivInfo). read_word t'.data_block (x.count proc + code type)) info_lem
      ∙ word_lem (t.info.count proc + code type)
      ∙ ground (arith, count-le-used, rows-small)

  end_self : end_of t' proc type ≡ used
  end_self =
      ap (λ (x : DelivInfo). read_word t'.data_block (x.end_ proc + code type)) info_lem
      ∙ word_lem (t.info.end_ proc + code type)
      ∙ ground (arith, own.points.start, own.points.count, own.points.end_, code-lt type)

  next_lem :
      (pos : ℕ)
      → pos < used
      → next_in t' proc pos ≡ (
          if not was_empty && (base + pos == base + end_of t proc type)
          then u32 (used + 2 ^ 32 - end_of t proc type)
          else next_in t proc pos)
  unfolding append
  next_lem pos h = append-next t proc element type own.points (base + pos) (omega arith)

  next_other :
      (pos : ℕ) → pos < used → pos ≢ end_of t proc type → next_in t' proc pos ≡ next_in t proc pos
  next_other pos h ne = next_lem pos h ∙ ground arith

  next_empty :
      (pos : ℕ) → pos < used → count_of t proc type ≡ 0 → next_in t' proc pos ≡ next_in t proc pos
  next_empty pos h e = next_lem pos h ∙ ground arith

  next_end :
      0 < count_of t proc type → next_in t' proc (end_of t proc type) ≡ used - end_of t proc type
  next_end h =
      next_lem (end_of t proc type) (omega (arith, end_in (omega arith)))
      ∙ ground (arith, end_in (omega arith), rows-small)

  size_old : (pos : ℕ) → pos < used → (cell t' proc pos).tag.size ≡ (cell t proc pos).tag.size
  unfolding append
  size_old pos h = append-size t proc element type own.points (base + pos) (omega arith)

  info_old : (pos : ℕ) → pos < used → (cell t' proc pos).tag.info ≡ (cell t proc pos).tag.info
  unfolding append
  info_old pos h = append-info t proc element type own.points (base + pos) (omega arith)

  bytes_same : (pos : ℕ) → (cell t' proc pos).bytes ≡ (cell t proc pos).bytes
  unfolding append
  bytes_same pos = append-bytes t proc element type own.points (base + pos)

  tag_new : (cell t' proc used).tag ≡ element
  unfolding append
  tag_new = append-new t proc element type own.points

  -- What adding the object does to its own column.
  pub append-Appended : Appended t t' proc element type
  append-Appended = record {
    points = append-points proc own.points;
    used_now = append-used proc ∙ ground arith;
    start_self = start_self;
    count_self = count_self;
    end_self = end_self;
    start_other = start_other;
    count_other = count_other;
    end_other = end_other;
    next_other = next_other;
    next_empty = next_empty;
    next_end = next_end;
    size_old = size_old;
    info_old = info_old;
    bytes_old = λ pos h. bytes_same pos;
    tag_new = tag_new;
  }

  pub append-Extends : Extends t t' proc element type
  unfolding append
  append-Extends = record {
    own = append-Appended;
    others = other_column;
    valid = record {
      has_rows = d.valid.has_rows;
      has_size = d.valid.has_size;
      fits = d.valid.fits;
      within = λ p h. ground (arith, append-used p, d.valid.within p h);
    };
    nprocs = refl;
    same_size = refl;
  }
