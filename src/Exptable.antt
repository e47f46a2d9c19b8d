-- ===== src/Exptable.antt =====
-- src/bsp_exptable.h and src/bsp_exptable.c: the table of `nprocs` columns by `rows` slots that is
-- kept in one block, column after column, and the fixed element size table on top of it.
-- A slot is one element of the block. Row and slot counts are `unsigned int` and wrap, and so do the
-- numbers of bytes that the source computes from them: `data + j * slot_size` is the element that
-- byte `j * slot_size` modulo 2^32 falls into (a number of bytes that wraps into the middle of a
-- slot is taken down to its start). An `int` is kept as its pattern of 32 bits.
-- `bsp_malloc` hands out a block whose content is an argument (`fresh`), and never fails here (it
-- aborts in the source).
pub mod Layout
pub mod Expand
pub mod Push
pub mod Comm
mod Tests
use bsponmpi.Base.{
  ℕ, zero, suc, ◌+◌, ◌-◌, ◌*◌, ◌/◌, ◌^◌, List, u32, max_of, Array, update, memcpy, memset, slice,
  ltb, ◌==◌, if◌then◌else◌,
}

-- How many slots hold a number of bytes, in `int` arithmetic that wraps: both arguments are `int`,
-- as is the result, and a division of a negative number rounds towards 0.
abbrev pub no_slots : ℕ → ℕ → ℕ
no_slots bytes slot_size =
    let sum = u32 (bytes + slot_size - 1) in
    if ltb sum (2 ^ 31) then sum / slot_size else u32 (2 ^ 32 - (2 ^ 32 - sum) / slot_size)

-- The loop of `array_max`: `fuel` bounds its rounds, and `i < n` ends it.
unfoldable pub array_max_loop : ℕ → Array ℕ → ℕ → ℕ → ℕ → ℕ → ℕ
array_max_loop zero array n stride i result = result
array_max_loop (suc fuel) array n stride i result =
    let rest = array_max_loop fuel array n stride (i + stride) (max_of (array i) result) in
    if ltb i n then rest else result

unfoldable pub array_max : Array ℕ → ℕ → ℕ → ℕ
unfolding array_max_loop
array_max array n stride = array_max_loop n array n stride 0 0

-- `info` is the part of `union SpecInfo` that the derived table uses.
pub record ExpandableTable (A I : Type 0) : Type 0 where
  pub nprocs : ℕ
  pub rows : ℕ
  pub used_slot_count : Array ℕ
  pub slot_size : ℕ
  pub info : I
  pub data_block : Array A
  pub offset : Array ℕ
  pub bytes : Array ℕ

-- Where column `p` starts: `p * rows`, an `unsigned int`.
abbrev pub column : ℕ → ℕ → ℕ
column rows p = u32 (p * rows)

-- The slot at `n * slot_size` bytes, and the slots in so many bytes: an `unsigned int`.
abbrev pub by_bytes : ℕ → ℕ → ℕ
by_bytes n slot_size = u32 (n * slot_size) / slot_size

-- Slot `i` of column `p`, read through `(T *) data + p * rows + i`.
abbrev pub cell : {A I : Type 0} → ExpandableTable A I → ℕ → ℕ → A
cell t p i = t.data_block (column t.rows p + i)

module _ {A I : Type 0} where
  unfoldable pub initialize : Array A → ℕ → ℕ → ℕ → I → ExpandableTable A I
  initialize fresh nprocs rows elsize info = record {
    nprocs = nprocs;
    rows = rows;
    used_slot_count = λ _. 0;
    slot_size = elsize;
    info = info;
    data_block = fresh;
    offset = λ _. 0;
    bytes = λ _. 0;
  }

  unfoldable pub reset : ExpandableTable A I → ExpandableTable A I
  reset t = record t { used_slot_count = memset t.used_slot_count 0 0 t.nprocs }

  -- The `for` loop of `expandableTable_expand`, for the columns below `n`.
  unfoldable pub copy_columns : ℕ → ExpandableTable A I → ℕ → Array A → Array A
  copy_columns zero t newrows newdata = newdata
  copy_columns (suc i) t newrows newdata =
      memcpy (copy_columns i t newrows newdata) (by_bytes (column newrows i) t.slot_size)
        t.data_block (by_bytes (column t.rows i) t.slot_size)
        (by_bytes (t.used_slot_count i) t.slot_size)

  unfoldable pub expand : Array A → ExpandableTable A I → ℕ → I → ExpandableTable A I
  unfolding copy_columns
  expand fresh t rows newinfo =
      let newrows = u32 (rows + t.rows) in
      record t {
        data_block = copy_columns t.nprocs t newrows fresh;
        rows = newrows;
        info = newinfo;
      }

  unfoldable pub resetrowcount : Array A → ExpandableTable A I → ℕ → ExpandableTable A I
  resetrowcount fresh t rows = record t { data_block = fresh; rows = rows }

  -- `changeinfo` is the callback, which gets the old and the new number of rows.
  unfoldable pub make_room :
      Array A → ExpandableTable A I → ℕ → (I → ℕ → ℕ → I) → ExpandableTable A I
  unfolding expand
  make_room fresh t proc changeinfo =
      if t.used_slot_count proc == t.rows
      then expand fresh t t.rows (changeinfo t.info t.rows (u32 (2 * t.rows)))
      else t

  -- The slot that a push writes, `data + j * slot_size` for the `int` index `j`.
  abbrev pub push_index : ExpandableTable A I → ℕ → ℕ
  push_index t proc = by_bytes (u32 (t.used_slot_count proc + column t.rows proc)) t.slot_size

  -- The end of `fixedElSizeTable_push`, once there is room.
  unfoldable pub store : ExpandableTable A I → ℕ → A → ExpandableTable A I
  store t proc element = record t {
    data_block = update t.data_block (push_index t proc) element;
    used_slot_count = update t.used_slot_count proc (u32 (t.used_slot_count proc + 1));
  }

  -- `fixedElSizeTable_push`
  unfoldable pub push :
      Array A → ExpandableTable A I → ℕ → (I → ℕ → ℕ → I) → A → ExpandableTable A I
  unfolding make_room store
  push fresh t proc changeinfo element = store (make_room fresh t proc changeinfo) proc element

  -- `fixedElSizeTable_push2`, which returns the slot to be filled by the caller.
  unfoldable pub push2 : Array A → ExpandableTable A I → ℕ → ℕ × ExpandableTable A I
  unfolding make_room
  push2 fresh t proc =
      let t' = make_room fresh t proc (λ info _ _. info) in
      (
        push_index t' proc,
        record t' {
          used_slot_count = update t'.used_slot_count proc (u32 (t'.used_slot_count proc + 1));
        },
      )

  -- The elements of column `p`, oldest first.
  abbrev pub contents : ExpandableTable A I → ℕ → List A
  contents t p = slice t.data_block (column t.rows p) (t.used_slot_count p)

  -- The loop of `expandableTable_comm` that sets the byte counts and offsets of a table. (The
  -- source writes both tables' in one loop, over the `nprocs` columns of the receiving one.) The
  -- `unsigned int` products are stored as `int`.
  unfoldable pub set_offsets : ℕ → ExpandableTable A I → ExpandableTable A I
  set_offsets zero t = t
  set_offsets (suc i) t =
      let t' = set_offsets i t in
      record t' {
        offset = update t'.offset i (u32 (u32 (i * t.rows) * t.slot_size));
        bytes = update t'.bytes i (u32 (t.used_slot_count i * t.slot_size));
      }

  -- `communicator` stands for the BSPX_CommFn: from the data, counts and offsets of both tables it
  -- makes the data that is received. Counts and offsets are `int`.
  unfoldable pub comm :
      ExpandableTable A I
      → ExpandableTable A I
      → (Array A → Array ℕ → Array ℕ → Array A → Array ℕ → Array ℕ → Array A)
      → ExpandableTable A I × ExpandableTable A I
  unfolding set_offsets
  comm send recv communicator =
      let s = set_offsets recv.nprocs send in
      let r = set_offsets recv.nprocs recv in
      (
        s,
        record r {
          data_block = communicator s.data_block s.bytes s.offset r.data_block r.bytes r.offset;
        },
      )
