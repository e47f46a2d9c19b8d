-- ===== src/Delivtable/Extends.antt =====
-- What adding an object does to a table.
use bsponmpi.Base.{ℕ, suc, ◌+◌, ◌-◌, ◌<◌, ◌≡◌, ◌≢◌, ◌==◌, if◌then◌else◌}
use bsponmpi.Exptable.{cell}
use bsponmpi.Exptable.Layout.{IsValid}
use bsponmpi.Delivtable.Extent.{object_slots}
use bsponmpi.Delivtable.{DelivElement, DeliveryTable, ItemType, start_of, count_of, end_of}
use bsponmpi.Delivtable.Index.{PointsTo}
use bsponmpi.Delivtable.Column.{next_in, SameColumn}

-- What adding an object at the fill mark of a column does to that column.
pub record Appended (t t' : DeliveryTable) (proc : ℕ) (element : DelivElement) (type : ItemType)
    : Type 0 where
  pub points : PointsTo t' proc
  pub used_now : t'.used_slot_count proc ≡ t.used_slot_count proc + object_slots element.size
  pub start_self :
      start_of t' proc type
      ≡ (if count_of t proc type == 0 then t.used_slot_count proc else start_of t proc type)
  pub count_self : count_of t' proc type ≡ suc (count_of t proc type)
  pub end_self : end_of t' proc type ≡ t.used_slot_count proc
  pub start_other :
      (other : ItemType) → other ≢ type → start_of t' proc other ≡ start_of t proc other
  pub count_other :
      (other : ItemType) → other ≢ type → count_of t' proc other ≡ count_of t proc other
  pub end_other : (other : ItemType) → other ≢ type → end_of t' proc other ≡ end_of t proc other
  pub next_other :
      (pos : ℕ)
      → pos < t.used_slot_count proc
      → pos ≢ end_of t proc type
      → next_in t' proc pos ≡ next_in t proc pos
  pub next_empty :
      (pos : ℕ)
      → pos < t.used_slot_count proc
      → count_of t proc type ≡ 0
      → next_in t' proc pos ≡ next_in t proc pos
  pub next_end :
      0 < count_of t proc type
      → next_in t' proc (end_of t proc type) ≡ t.used_slot_count proc - end_of t proc type
  pub size_old :
      (pos : ℕ)
      → pos < t.used_slot_count proc
      → (cell t' proc pos).tag.size ≡ (cell t proc pos).tag.size
  pub info_old :
      (pos : ℕ)
      → pos < t.used_slot_count proc
      → (cell t' proc pos).tag.info ≡ (cell t proc pos).tag.info
  pub bytes_old :
      (pos : ℕ) → pos < t.used_slot_count proc → (cell t' proc pos).bytes ≡ (cell t proc pos).bytes
  pub tag_new : (cell t' proc (t.used_slot_count proc)).tag ≡ element

-- `t'` is `t` with the object added to column `proc`, as an object of the type.
pub record Extends (t t' : DeliveryTable) (proc : ℕ) (element : DelivElement) (type : ItemType)
    : Type 0 where
  pub own : Appended t t' proc element type
  pub others : (q : ℕ) → q < t.nprocs → q ≢ proc → SameColumn t t' q
  pub valid : IsValid t'
  pub nprocs : t'.nprocs ≡ t.nprocs
  pub same_size : t'.slot_size ≡ t.slot_size
