-- ===== src/GlobalDrma.antt =====
-- src/bsp_global_drma.c: arrays that are spread over the processors, and their transfers.
-- `memory`, `stale` and `fresh` are as in Bspx; `slice` is the address that the allocator returns,
-- which is not NULL. A `size_t` is reduced modulo 2 ^ 64. Access past the end of `global_arrays`
-- and division by zero fault. The size of an array is not changed by a transfer.
pub mod Transfer
pub mod Handles
mod Tests
use bsponmpi.Base.{
  ℕ, zero, suc, ◌+◌, ◌-◌, ◌*◌, ◌/◌, ◌%◌, ◌^◌, Run, ok, abort, fault, ◌>>=◌, Array, update, ltb,
  ◌==◌, if◌then◌else◌,
}
use bsponmpi.Delivtable.{Slot, DelivElement}
use bsponmpi.Reqtable.{ReqElement}
use bsponmpi.Private.{GlobalArray, BspObject}
use bsponmpi.Bspx.{push_reg, pop_reg, put, get, hpput, hpget}

abbrev pub max_global_arrays : ℕ
max_global_arrays = 128

-- ERR_BSP_ABORT
abbrev pub bsp_abort : ℕ
bsp_abort = 1

-- The search for a free handle, which calls bsp_abort when `count` exceeds the number of handles.
unfoldable pub find_handle : ℕ → ℕ → ℕ → Array GlobalArray → Run ℕ
find_handle zero count last arrays = fault
find_handle (suc fuel) count last arrays =
    let rest = find_handle fuel (count + 1) (last + 1) arrays in
    if ltb last max_global_arrays
    then if (arrays last).local_slice == 0
      then ok last
      else if ltb max_global_arrays count
      then abort bsp_abort
      else rest
    else fault

-- The handle of the next array; the fuel is more than the rounds that the search can make.
unfoldable pub next_handle : BspObject → Run ℕ
unfolding find_handle
next_handle bsp =
    if bsp.global_overflow == 0
    then ok bsp.global_array_last
    else find_handle (max_global_arrays + 2) 0 bsp.global_array_last bsp.global_arrays

abbrev pub alloc_size : BspObject → ℕ → ℕ
alloc_size bsp array_size = (array_size + bsp.nprocs + (2 ^ 64 - 1)) % 2 ^ 64 / bsp.nprocs

-- The rest of alloc, once the handle is known.
unfoldable pub alloc_at : Array Slot → DelivElement → BspObject → ℕ → ℕ → ℕ → ℕ × BspObject
unfolding push_reg
alloc_at fresh stale bsp array_size slice handle =
    let entry : GlobalArray = record {
      array_size = array_size;
      local_slice = slice;
      local_size = alloc_size bsp array_size;
    } in
    let registered =
      push_reg fresh stale (record bsp { global_arrays = update bsp.global_arrays handle entry })
        slice in
    let last = (handle + 1) % max_global_arrays in
    (
      handle,
      record registered {
        global_array_last = last;
        global_overflow = if last == 0 then 1 else bsp.global_overflow;
      },
    )

unfoldable pub global_alloc : Array Slot → DelivElement → BspObject → ℕ → ℕ → Run (ℕ × BspObject)
unfolding next_handle alloc_at
global_alloc fresh stale bsp array_size slice =
    next_handle bsp >>= λ handle. ok (alloc_at fresh stale bsp array_size slice handle)

unfoldable pub global_free : Array Slot → DelivElement → BspObject → ℕ → BspObject
unfolding pop_reg
global_free fresh stale bsp handle =
    let popped = pop_reg fresh stale bsp (bsp.global_arrays handle).local_slice in
    record popped {
      global_arrays =
          update popped.global_arrays handle
            (record (popped.global_arrays handle) { local_slice = 0 });
    }

-- A transfer of `nbytes` bytes between offset `idx` of processor `proc` and the local address.
pub record Piece : Type 0 where
  pub proc : ℕ
  pub idx : ℕ
  pub address : ℕ
  pub nbytes : ℕ

-- The loop of the four transfers, which calls `op` for each piece. Every round but one that moves
-- nothing, which the source repeats for ever, reduces `size`, so `size` is enough fuel.
unfoldable pub transfer_loop :
    ℕ → (Piece → BspObject → Run BspObject) → ℕ → ℕ → ℕ → ℕ → ℕ → BspObject → Run BspObject
transfer_loop zero op local proc idx address size bsp = if size == 0 then ok bsp else fault
transfer_loop (suc fuel) op local proc idx address size bsp =
    let room = (local + 2 ^ 64 - idx) % 2 ^ 64 in
    let todo = if ltb room size then room else size in
    let rest =
      op (record { proc = proc; idx = idx; address = address; nbytes = todo }) bsp
      >>= transfer_loop fuel op local (proc + 1) 0 (address + todo) (size - todo) in
    if size == 0 then ok bsp else rest

-- The processor and the index of the first byte.
abbrev pub first_proc : BspObject → ℕ → ℕ → ℕ
first_proc bsp handle offset =
    (offset * bsp.nprocs) % 2 ^ 64 / (bsp.global_arrays handle).array_size

abbrev pub first_idx : BspObject → ℕ → ℕ → ℕ
first_idx bsp handle offset =
    (offset
      + 2 ^ 64
      - (first_proc bsp handle offset * (bsp.global_arrays handle).local_size) % 2 ^ 64)
    % 2 ^ 64

unfoldable pub transfer :
    (Piece → BspObject → Run BspObject) → BspObject → ℕ → ℕ → ℕ → ℕ → Run BspObject
unfolding transfer_loop
transfer op bsp handle offset address size =
    let local = (bsp.global_arrays handle).local_size in
    let moved =
      transfer_loop size op local (first_proc bsp handle offset) (first_idx bsp handle offset)
        address size bsp in
    if (bsp.global_arrays handle).array_size == 0 then fault else moved

unfoldable pub global_get : Array ReqElement → BspObject → ℕ → ℕ → ℕ → ℕ → Run BspObject
unfolding transfer get
global_get fresh bsp src offset dest size =
    transfer
      (λ p b. get fresh b p.proc (bsp.global_arrays src).local_slice p.idx p.address p.nbytes) bsp
      src offset dest size

unfoldable pub global_put :
    Array Slot → DelivElement → Array ℕ → BspObject → ℕ → ℕ → ℕ → ℕ → Run BspObject
unfolding transfer put
global_put fresh stale memory bsp src dest offset size =
    transfer
      (λ p b.
        put fresh stale memory b p.proc p.address (bsp.global_arrays dest).local_slice p.idx
          p.nbytes)
      bsp dest offset src size

unfoldable pub global_hpget : Array ReqElement → BspObject → ℕ → ℕ → ℕ → ℕ → Run BspObject
unfolding transfer hpget
global_hpget fresh bsp src offset dest size =
    transfer
      (λ p b. hpget fresh b p.proc (bsp.global_arrays src).local_slice p.idx p.address p.nbytes) bsp
      src offset dest size

unfoldable pub global_hpput :
    Array Slot → DelivElement → Array ℕ → BspObject → ℕ → ℕ → ℕ → ℕ → Run BspObject
unfolding transfer hpput
global_hpput fresh stale memory bsp src dest offset size =
    transfer
      (λ p b.
        hpput fresh stale memory b p.proc p.address (bsp.global_arrays dest).local_slice p.idx
          p.nbytes)
      bsp dest offset src size
