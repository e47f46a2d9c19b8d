-- ===== src/Delivtable/Fill.antt =====
-- Copying a payload into the object that was just added.
use bsponmpi.Base.{
  ℕ, ◌+◌, ◌-◌, ◌*◌, ◌≤◌, ◌<◌, ◌≡◌, ◌≢◌, ◌⊎◌, inl, inr, ◌∙◌, ap, fun_ext, arith, Array, ltb, leb,
  ◌&&◌, if◌then◌else◌,
}
use native.Mathlib.Decide.{dec_lt}
use bsponmpi.Exptable.{column}
use bsponmpi.Exptable.Layout.{columns_ordered}
use bsponmpi.Delivtable.{byte, Slot, DelivElement, DeliveryTable, ItemType, tag_size, fill}
use bsponmpi.Delivtable.Column.{IsDelivery}
use bsponmpi.Delivtable.Extends.{Appended, Extends}

module _ (t : DeliveryTable) (pointer : ℕ) (memory : Array ℕ) (src nbytes : ℕ) where
  abbrev filled : DeliveryTable
  filled = fill t pointer memory src nbytes

  pub byte-fill :
      (a : ℕ)
      → byte filled.data_block a ≡ (
          if leb pointer a && ltb a (pointer + nbytes)
          then memory (src + (a - pointer))
          else byte t.data_block a)
  unfolding fill
  byte-fill a = ground arith

  -- A slot that the copy does not reach stays whole.
  pub slot-fill :
      (i : ℕ)
      → (8 * i + 8 ≤ pointer) ⊎ (pointer + nbytes ≤ 8 * i)
      → filled.data_block i ≡ t.data_block i
  unfolding fill
  slot-fill i o = λ d. record (t.data_block i) { bytes = same d }
    where
      same : (filled.data_block i).bytes ≡ (t.data_block i).bytes
      same = fun_ext (λ k. ground arith)

-- A copy into the payload of the new object leaves the table an extension of the old one.
module _ (t t' : DeliveryTable) (d : IsDelivery t) (proc : ℕ) (hp : proc < t.nprocs)
    (element : DelivElement) (type : ItemType) (e : Extends t t' proc element type)
    (memory : Array ℕ) (src : ℕ) (low nbytes : ℕ) (inside : low + nbytes ≤ element.size) where
  abbrev object : ℕ
  object = column t'.rows proc + t.used_slot_count proc

  abbrev copied : DeliveryTable
  copied = fill t' (8 * (object + tag_size) + low) memory src nbytes

  old_slot : (i : ℕ) → i < object → copied.data_block i ≡ t'.data_block i
  old_slot i h =
      slot-fill t' (8 * (object + tag_size) + low) memory src nbytes i (inl (omega arith))

  copied-own : Appended t copied proc element type
  unfolding fill
  copied-own =
      let a = e.own in
      record {
        points = record { start = a.points.start; count = a.points.count; end_ = a.points.end_ };
        used_now = a.used_now;
        start_self = a.start_self;
        count_self = a.count_self;
        end_self = a.end_self;
        start_other = a.start_other;
        count_other = a.count_other;
        end_other = a.end_other;
        next_other = a.next_other;
        next_empty = a.next_empty;
        next_end = a.next_end;
        size_old = a.size_old;
        info_old = a.info_old;
        bytes_old = λ pos h.
            ap (λ (x : Slot). x.bytes) (old_slot (column t'.rows proc + pos) (omega arith))
            ∙ a.bytes_old pos h;
        tag_new = a.tag_new;
      }

  other_slot :
      (q i : ℕ)
      → q < t.nprocs
      → q ≢ proc
      → i < t'.rows
      → copied.data_block (column t'.rows q + i) ≡ t'.data_block (column t'.rows q + i)
  other_slot q i hq ne hi =
      slot-fill t' (8 * (object + tag_size) + low) memory src nbytes (column t'.rows q + i)
        (elim (dec_lt q proc) [
          | yes l ↦ inl (
              omega
                (arith, columns_ordered t' e.valid q proc (i + 1) l (rw e.nprocs hp) (omega arith)))
          | no g ↦ inr (
              omega (
                arith,
                columns_ordered t' e.valid proc q t'.rows (omega arith) (rw e.nprocs hq)
                    (omega arith),
                e.own.used_now,
                e.valid.within proc (rw e.nprocs hp),
              ))
        ])

  pub copied-Extends : Extends t copied proc element type
  unfolding fill
  copied-Extends = record {
    own = copied-own;
    others = λ q hq ne.
        let s = e.others q hq ne in
        record {
          used = s.used;
          cells = λ i hi.
              other_slot q i hq ne (omega (arith, s.used, e.valid.within q (rw e.nprocs hq)))
              ∙ s.cells i hi;
          points = record { start = s.points.start; count = s.points.count; end_ = s.points.end_ };
        };
    valid = record {
      has_rows = e.valid.has_rows;
      has_size = e.valid.has_size;
      fits = e.valid.fits;
      within = e.valid.within;
    };
    nprocs = e.nprocs;
    same_size = e.same_size;
  }
