-- ===== src/HeaderQueue.antt =====
-- src/bsp_cpp/HeaderQueue.h: a first in, first out queue of headers of a fixed size, on an
-- ExpandableTable of one column. `start` counts the headers that were taken off.
pub mod Fifo
use bsponmpi.Base.{ℕ, ◌+◌, ◌-◌, ◌%◌, ◌^◌, Bool, Array, update, u32, leb}
use bsponmpi.Exptable
use bsponmpi.Exptable.{ExpandableTable}
use bsponmpi.Reqtable.{ReqInfo}
use bsponmpi.Bspx.{reqtab_min_size}

pub record HeaderQueue (A : Type 0) : Type 0 where
  pub tbl : ExpandableTable A ReqInfo
  pub start : ℕ

module _ {A : Type 0} where
  -- The constructor. `info` is not assigned.
  unfoldable pub make : Array A → ℕ → ReqInfo → HeaderQueue A
  unfolding Exptable.initialize
  make fresh header_size info = record {
    tbl = Exptable.initialize fresh 1 reqtab_min_size header_size info;
    start = 0;
  }

  unfoldable pub clear : HeaderQueue A → HeaderQueue A
  clear q = record {
    tbl = record q.tbl { used_slot_count = update q.tbl.used_slot_count 0 0 };
    start = 0;
  }

  unfoldable pub reset : Array A → HeaderQueue A → HeaderQueue A
  unfolding clear Exptable.resetrowcount
  reset fresh q =
      let c = clear q in record c { tbl = Exptable.resetrowcount fresh c.tbl reqtab_min_size }

  -- The slot that the returned reference is to.
  unfoldable pub enqueue : Array A → HeaderQueue A → ℕ × HeaderQueue A
  unfolding Exptable.push2
  enqueue fresh q = let (slot, t) = Exptable.push2 fresh q.tbl 0 in (slot, record q { tbl = t })

  -- The assignments of a caller through that reference.
  abbrev pub assign : HeaderQueue A → ℕ → A → HeaderQueue A
  assign q slot header = record q {
    tbl = record q.tbl { data_block = update q.tbl.data_block slot header };
  }

  -- The `int` result, as an `unsigned int`.
  unfoldable pub qsize : HeaderQueue A → ℕ
  qsize q = u32 (q.tbl.used_slot_count 0 + 2 ^ 32 - u32 q.start)

  unfoldable pub head : HeaderQueue A → A
  head q = q.tbl.data_block q.start

  unfoldable pub is_empty : HeaderQueue A → Bool
  is_empty q = leb (q.tbl.used_slot_count 0) q.start

  unfoldable pub next : HeaderQueue A → HeaderQueue A
  next q = record q { start = (q.start + 1) % 2 ^ 64 }
