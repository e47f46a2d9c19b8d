-- ===== src/Memreg.antt =====
-- src/bsp_memreg.h and src/bsp_memreg.c: the MemoryRegister, a table whose rows hold the addresses
-- that were registered together on all processors.
-- An address is a number, 0 for NULL. A pointer into the block is the number of its slot;
-- `memoized_data_iter` may stand one slot before a column, so it is kept as the slot after it.
pub mod Search
pub mod Compact
pub mod Pack
pub mod Memoized
mod Tests
use bsponmpi.Base.{
  ℕ, zero, suc, ◌+◌, ◌-◌, ◌*◌, ◌%◌, ◌^◌, Option, none, some, Run, ok, abort, fault, u32, widen,
  Array, update, memcpy, memset, ltb, ◌==◌, ◌&&◌, if◌then◌else◌,
}
use bsponmpi.Exptable
use bsponmpi.Exptable.{ExpandableTable, column}

pub record MemRegInfo : Type 0 where
  pub numremov : ℕ
  pub removed : Array ℕ
  pub memoized_src_proc : ℕ
  pub memoized_data_iter : Option ℕ
  pub memoized_end : Option ℕ
  pub memoized_srccol : ℕ

abbrev pub MemoryRegister : Type 0
MemoryRegister = ExpandableTable ℕ MemRegInfo

-- sizeof (MemRegElement)
abbrev pub element_size : ℕ
element_size = 8

-- ERR_POP_REG_WITHOUT_PUSH
abbrev pub pop_reg_without_push : ℕ
pop_reg_without_push = 3

unfoldable pub initialize : Array ℕ → ℕ → ℕ → ℕ → MemoryRegister
unfolding Exptable.initialize
initialize fresh nprocs rows src_proc = Exptable.initialize fresh nprocs rows element_size (record {
  numremov = 0;
  removed = λ _. 0;
  memoized_src_proc = src_proc;
  memoized_data_iter = none;
  memoized_end = none;
  memoized_srccol = 0;
})

-- The source frees `newremoved` and then keeps the pointer to it: `freed` is what that memory
-- holds from then on, which need not be what was copied there.
unfoldable pub expand : Array ℕ → Array ℕ → MemoryRegister → ℕ → MemoryRegister
unfolding Exptable.expand
expand fresh freed t rows = Exptable.expand fresh t rows (record {
  numremov = t.info.numremov;
  removed = freed;
  memoized_src_proc = t.info.memoized_src_proc;
  memoized_data_iter = none;
  memoized_end = none;
  memoized_srccol = u32 (t.info.memoized_src_proc * u32 (rows + t.rows));
})

unfoldable pub new_info_at_push : MemRegInfo → ℕ → ℕ → MemRegInfo
new_info_at_push info rows newrows = record info {
  removed = memcpy (λ _. 0) 0 info.removed 0 rows;
  memoized_data_iter = none;
  memoized_end = none;
  memoized_srccol = 0;
}

abbrev pub forget_iter : MemoryRegister → MemoryRegister
forget_iter t = record t { info = record t.info { memoized_data_iter = none } }

unfoldable pub push : Array ℕ → MemoryRegister → ℕ → ℕ → MemoryRegister
unfolding Exptable.push new_info_at_push
push fresh t proc pointer = Exptable.push fresh (forget_iter t) proc new_info_at_push pointer

-- The loop `for (count = used - 1; count >= 0; count--)` of find and pop: the last row that holds
-- `pointer` in the column at `base` and is not removed.
unfoldable pub search_down : ℕ → Array ℕ → ℕ → Array ℕ → ℕ → Option ℕ
search_down zero block base removed pointer = none
search_down (suc count) block base removed pointer =
    let rest = search_down count block base removed pointer in
    if (block (base + count) == pointer) && (removed count == 0) then some count else rest

-- The rounds of that loop: its `int` counter starts below 0 if there are more than 2^31 rows.
abbrev pub rounds : ℕ → ℕ
rounds used = if ltb (2 ^ 31) used then 0 else used

-- What find does with the row: `*(array + count - srccol + dstcol)`, or the abort after the loop.
abbrev pub answer : MemoryRegister → ℕ → Option ℕ → Run ℕ
answer t dp none = abort pop_reg_without_push
answer t dp (some count) = ok (t.data_block (column t.rows dp + count))

unfoldable pub find : MemoryRegister → ℕ → ℕ → ℕ → Run ℕ
find t sp dp pointer = answer t dp (
    search_down (rounds (t.used_slot_count sp)) t.data_block (column t.rows sp) t.info.removed
      pointer)

-- What pop does with the row.
abbrev pub mark_removed : MemoryRegister → Option ℕ → Run MemoryRegister
mark_removed t none = abort pop_reg_without_push
mark_removed t (some count) = ok (record t {
  info = record t.info {
    memoized_data_iter = none;
    removed = update t.info.removed count 1;
    numremov = t.info.numremov + 1;
  };
})

-- Here the start of the column is kept as an `int`.
unfoldable pub pop : MemoryRegister → ℕ → ℕ → Run MemoryRegister
pop t proc pointer = mark_removed t (
    search_down (rounds (t.used_slot_count proc)) t.data_block (widen (column t.rows proc))
      t.info.removed pointer)

-- `while (*data_iter != pointer) data_iter--;` from the slot before `k`. Past the start of the block
-- the loop reads memory that is not the table's.
unfoldable pub walk_down : ℕ → Array ℕ → ℕ → Option ℕ
walk_down zero block pointer = none
walk_down (suc k) block pointer =
    let rest = walk_down k block pointer in if block k == pointer then some k else rest

-- `*(data_iter - memoized_srccol + dstcol)`, for the slot where the loop stopped.
abbrev pub shift_column : MemoryRegister → ℕ → Option ℕ → Run ℕ
shift_column t dstcol none = fault
shift_column t dstcol (some slot) =
    let srccol = t.info.memoized_srccol in
    if ltb (slot + dstcol) srccol then fault else ok (t.data_block (slot + dstcol - srccol))

-- The source dereferences `data_iter` without a test; NULL faults.
abbrev pub walk_from : MemoryRegister → ℕ → ℕ → Option ℕ → Run ℕ
walk_from t dstcol pointer none = fault
walk_from t dstcol pointer (some k) = shift_column t dstcol (walk_down k t.data_block pointer)

unfoldable pub memoized_find : MemoryRegister → ℕ → ℕ → Run ℕ
unfolding walk_down
memoized_find t dp pointer = walk_from t (column t.rows dp) pointer t.info.memoized_data_iter

-- The inner loop of pack over `rounds` rows from row `j` on, in the column at `base`.
unfoldable pub compact : ℕ → ℕ → ℕ → ℕ → Array ℕ → Array ℕ → Array ℕ
compact zero j displ base removed block = block
compact (suc rounds) j displ base removed block =
    let live = removed j == 0 in
    compact rounds (j + 1) (if live then displ else displ + 1) base removed
      (if live then update block (base + (j - displ)) (block (base + j)) else block)

-- The outer loop of pack, for the columns below `n`.
unfoldable pub pack_columns : ℕ → MemoryRegister → ℕ → MemoryRegister
unfolding compact
pack_columns zero t count = t
pack_columns (suc i) t count =
    let t' = pack_columns i t count in
    record t' {
      data_block = compact (t.used_slot_count i) 0 0 (column t.rows i) t.info.removed t'.data_block;
      used_slot_count = update t'.used_slot_count i count;
    }

unfoldable pub pack : MemoryRegister → MemoryRegister
unfolding pack_columns
pack t =
    let count = (t.used_slot_count 0 + 2 ^ 32 - t.info.numremov) % 2 ^ 32 in
    let t' = pack_columns t.nprocs t count in
    let srccol = column t.rows t.info.memoized_src_proc in
    record t' {
      info = record t.info {
        removed = memset t.info.removed 0 0 t.rows;
        numremov = 0;
        memoized_srccol = srccol;
        memoized_end = some srccol;
        memoized_data_iter = some (srccol + t'.used_slot_count t.info.memoized_src_proc);
      };
    }
