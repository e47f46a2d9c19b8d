-- ===== src/Private.antt =====
-- src/bsp_private.h: the state of one processor.
-- The starting time, which only bsp_time reads, is left out, and so are the two index arrays, which
-- hold nothing from one superstep to the next.
use bsponmpi.Base.{ℕ, Array}
use bsponmpi.Memreg.{MemoryRegister}
use bsponmpi.Delivtable.{DeliveryTable}
use bsponmpi.Reqtable.{RequestTable}
use bsponmpi.Mesgqueue.{MessageQueue}

-- `bsp_global_array_t`; `local_slice` is 0 for NULL.
pub record GlobalArray : Type 0 where
  pub array_size : ℕ
  pub local_slice : ℕ
  pub local_size : ℕ

pub record BspObject : Type 0 where
  pub nprocs : ℕ
  pub rank : ℕ
  pub delivery_table : DeliveryTable
  pub delivery_received_table : DeliveryTable
  pub request_table : RequestTable
  pub request_received_table : RequestTable
  pub memory_register : MemoryRegister
  pub message_queue : MessageQueue
  pub global_array_last : ℕ
  pub global_overflow : ℕ
  pub global_arrays : Array GlobalArray

-- Replacing the delivery table.
abbrev pub with_delivery : BspObject → DeliveryTable → BspObject
with_delivery bsp t = record bsp { delivery_table = t }
