-- ===== src/GlobalDrma/Tests.antt =====
-- The theorems on src/bsp_global_drma.c at arrays over four processors.
use bsponmpi.Base.{ℕ, ◌-◌, ◌^◌, ◌≡◌, ◌≢◌, ◌⊎◌, ◌<◌, ◌≤◌, refl, arith, Array, List, true, ok, fault}
use bsponmpi.Delivtable
use bsponmpi.Delivtable.{Slot, DelivElement, zero_slot}
use bsponmpi.Reqtable
use bsponmpi.Reqtable.{ReqElement}
use bsponmpi.Memreg
use bsponmpi.Mesgqueue
use bsponmpi.Private.{BspObject}
use bsponmpi.Bspx.{get, put, hpget, hpput}
use bsponmpi.GlobalDrma.{
  Piece, max_global_arrays, global_alloc, global_free, global_get, global_put, global_hpget,
  global_hpput, first_proc, first_idx,
}
use bsponmpi.GlobalDrma.Transfer.{Covers, in_order, transfers_lem}
use bsponmpi.GlobalDrma.Handles.{is_live, IsAllocated, alloc_lem}

abbrev fresh : Array Slot
fresh _ = zero_slot

abbrev unset : DelivElement
unset = zero_slot.tag

abbrev requests : Array ReqElement
requests _ = record { size = 0; src = 0; dst = 0; offset = 0 }

-- A processor that holds a part of an array of `n` bytes under every handle.
abbrev spread : ℕ → ℕ → BspObject
spread n local = record {
  nprocs = 4;
  rank = 1;
  delivery_table =
      Delivtable.initialize fresh (record { start = λ _. 0; count = λ _. 0; end_ = λ _. 0 }) 4 16;
  delivery_received_table =
      Delivtable.initialize fresh (record { start = λ _. 0; count = λ _. 0; end_ = λ _. 0 }) 4 16;
  request_table = Reqtable.initialize requests 4 16;
  request_received_table = Reqtable.initialize requests 4 16;
  memory_register = Memreg.initialize (λ _. 0) 4 1 1;
  message_queue = Mesgqueue.initialize;
  global_array_last = 126;
  global_overflow = 1;
  global_arrays = λ _. record { array_size = n; local_slice = 4096; local_size = local };
}

abbrev even : BspObject
even = spread 12 3

transfers_lem_example :
    (l : List Piece) × Covers 3 2 1000 5 l
    × ((fresh : Array ReqElement)
        → global_get fresh even 7 2 1000 5
          ≡ in_order (λ p b. get fresh b p.proc 4096 p.idx p.address p.nbytes) l even)
    × ((fresh : Array Slot) (stale : DelivElement) (memory : Array ℕ)
        → global_put fresh stale memory even 1000 7 2 5
          ≡ in_order (λ p b. put fresh stale memory b p.proc p.address 4096 p.idx p.nbytes) l even)
    × ((fresh : Array ReqElement)
        → global_hpget fresh even 7 2 1000 5
          ≡ in_order (λ p b. hpget fresh b p.proc 4096 p.idx p.address p.nbytes) l even)
    × ((fresh : Array Slot) (stale : DelivElement) (memory : Array ℕ)
        → global_hpput fresh stale memory even 1000 7 2 5
          ≡ in_order
              (λ p b. hpput fresh stale memory b p.proc p.address 4096 p.idx p.nbytes)
              l
              even)
transfers_lem_example =
    transfers_lem even 7 2 1000 5 (omega arith) (omega arith) (omega arith) (omega arith)
      (omega arith)

-- Ten bytes over four processors: the part of the last but one starts at 6, but 5 is looked for there.
uneven_proc : first_proc (spread 10 3) 7 5 ≡ 2
uneven_proc = refl

uneven_idx : first_idx (spread 10 3) 7 5 ≡ 2 ^ 64 - 1
uneven_idx = refl

alloc_lem_example :
    ((h : ℕ) × (bsp' : BspObject) × (global_alloc fresh unset even 12 8192 ≡ ok (h, bsp'))
      × IsAllocated fresh unset even 12 8192 h bsp')
    ⊎ ((global_alloc fresh unset even 12 8192 ≡ fault)
        × (even.global_overflow ≢ 0)
        × ((k : ℕ) → 126 ≤ k → k < max_global_arrays → is_live even k ≡ true))
alloc_lem_example = alloc_lem fresh unset even 12 8192 (omega arith) (omega arith)

-- Once 3 is freed, alloc does not find the handle 3.
freed_not_found : global_alloc fresh unset (global_free fresh unset even 3) 12 8192 ≡ fault
unfolding global_alloc global_free
freed_not_found = refl
