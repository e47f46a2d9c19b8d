-- ===== src/Reqtable.antt =====
-- src/bsp_reqtable.h and src/bsp_reqtable.c: the RequestTable, which holds the requests of
-- bsp_get until they are answered by puts.
pub mod Sizes
pub mod Replies
mod Tests
use bsponmpi.Base.{ℕ, zero, suc, ◌+◌, ◌*◌, ◌%◌, ◌^◌, Array, update, memset, u32, widen}
use bsponmpi.Exptable
use bsponmpi.Exptable.{ExpandableTable, column}
use bsponmpi.Delivtable
use bsponmpi.Delivtable.{Slot, DelivElement, DeliveryTable, it_put}

-- `size` and `offset` are `int`, kept as patterns of 32 bits.
pub record ReqElement : Type 0 where
  pub size : ℕ
  pub offset : ℕ
  pub src : ℕ
  pub dst : ℕ

pub record ReqInfo : Type 0 where
  pub data_sizes : Array ℕ

abbrev pub RequestTable : Type 0
RequestTable = ExpandableTable ReqElement ReqInfo

-- sizeof (ReqElement)
abbrev pub element_size : ℕ
element_size = 24

unfoldable pub initialize : Array ReqElement → ℕ → ℕ → RequestTable
unfolding Exptable.initialize
initialize fresh nprocs rows =
    Exptable.initialize fresh nprocs rows element_size (record { data_sizes = λ _. 0 })

abbrev pub clear_sizes : RequestTable → RequestTable
clear_sizes t = record t { info = record { data_sizes = memset t.info.data_sizes 0 0 t.nprocs } }

unfoldable pub reset : RequestTable → RequestTable
unfolding Exptable.reset
reset t = Exptable.reset (clear_sizes t)

unfoldable pub resetrowcount : Array ReqElement → RequestTable → ℕ → RequestTable
unfolding Exptable.resetrowcount
resetrowcount fresh t rows = Exptable.resetrowcount fresh (clear_sizes t) rows

unfoldable pub expand : Array ReqElement → RequestTable → ℕ → RequestTable
unfolding Exptable.expand
expand fresh t rows = Exptable.expand fresh t rows t.info

unfoldable pub new_info_at_push : ReqInfo → ℕ → ℕ → ReqInfo
new_info_at_push info rows newrows = info

unfoldable pub push : Array ReqElement → RequestTable → ℕ → ReqElement → RequestTable
unfolding Exptable.push new_info_at_push
push fresh t proc element =
    let sizes = t.info.data_sizes in
    let counted = record t {
      info = record {
        data_sizes =
            update sizes proc (u32 (sizes proc + (element.size + Delivtable.element_size)));
      };
    } in
    Exptable.push fresh counted proc new_info_at_push element

-- The tag of the put that answers a request; what the source leaves unset is that of `stale`.
abbrev pub reply : DelivElement → ReqElement → DelivElement
reply stale r = record stale { size = r.size; info = record stale.info { put_dst = r.dst } }

-- One round of the inner loop: push the put, and copy the requested data behind its tag. The
-- offset is added to the pointer as a signed number.
unfoldable pub answer :
    Array Slot → DelivElement → Array ℕ → ℕ → ReqElement → DeliveryTable → DeliveryTable
unfolding Delivtable.push Delivtable.fill
answer fresh stale memory i r deliv =
    let (pointer, deliv') = Delivtable.push fresh deliv i (reply stale r) it_put in
    Delivtable.fill deliv' (8 * pointer) memory ((r.src + widen r.offset) % 2 ^ 64) r.size

-- The inner loop over the first `n` requests of column `i`.
unfoldable pub answer_column :
    ℕ → Array Slot → DelivElement → Array ℕ → RequestTable → ℕ → DeliveryTable → DeliveryTable
unfolding answer
answer_column zero fresh stale memory t i deliv = deliv
answer_column (suc j) fresh stale memory t i deliv =
    answer fresh stale memory i (t.data_block (column t.rows i + j))
      (answer_column j fresh stale memory t i deliv)

-- The outer loop over the columns below `n`.
unfoldable pub answer_columns :
    ℕ → Array Slot → DelivElement → Array ℕ → RequestTable → DeliveryTable → DeliveryTable
unfolding answer_column
answer_columns zero fresh stale memory t deliv = deliv
answer_columns (suc i) fresh stale memory t deliv =
    answer_column (t.used_slot_count i) fresh stale memory t i
      (answer_columns i fresh stale memory t deliv)

-- `requestTable_execute`
unfoldable pub execute :
    Array Slot → DelivElement → Array ℕ → RequestTable → DeliveryTable → DeliveryTable
unfolding answer_columns
execute fresh stale memory t deliv = answer_columns t.nprocs fresh stale memory t deliv
