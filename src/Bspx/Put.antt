-- ===== src/Bspx/Put.antt =====
-- A put is buffered: the queue of the destination gets the data as it is at the call.
use bsponmpi.Base.{ℕ, ◌+◌, ◌<◌, ◌≡◌, refl, arith, ok, Array, slice, u32}
use bsponmpi.Memreg
use bsponmpi.Memreg.Pack.{IsRegister, IsPacked}
use bsponmpi.Memreg.Memoized.{memoized_find-eq-find}
use bsponmpi.Delivtable.{Slot, DelivElement, DeliveryTable, it_put}
use bsponmpi.Delivtable.Column.{IsDelivery}
use bsponmpi.Delivtable.Room.{CanGrow, grow_small}
use bsponmpi.Delivtable.Deliver.{Delivered, fill-Delivered}
use bsponmpi.Private.{BspObject, with_delivery}
use bsponmpi.Bspx.{put_element, buffer_put, put}

module _ (fresh : Array Slot) (stale : DelivElement) (memory : Array ℕ) (bsp : BspObject)
    (pid src dst offset nbytes : ℕ) (d : IsDelivery bsp.delivery_table)
    (hp : pid < bsp.delivery_table.nprocs) (grow : CanGrow bsp.delivery_table nbytes) where
  exact : u32 nbytes ≡ nbytes
  exact = omega (arith, grow_small bsp.delivery_table pid nbytes hp grow)

  pub buffer_put-Delivered :
      (remote : ℕ)
      → Delivered bsp.delivery_table pid
          (put_element stale remote nbytes)
          it_put
          (slice memory src nbytes)
          (buffer_put fresh stale memory bsp.delivery_table pid src remote nbytes)
  unfolding buffer_put
  buffer_put-Delivered remote =
      fill-Delivered fresh bsp.delivery_table d pid hp (put_element stale remote nbytes) it_put
        (rw exact grow) memory src nbytes exact

  -- On a packed memory register and a delivery table in order with room to grow below 2^31 bytes, a
  -- put to an address that the local processor has registered returns; it leaves the delivery table
  -- in order and queues for the destination, behind the earlier puts, the bytes that stand at the
  -- source at the call, for the address the destination registered in that row plus the offset;
  -- every other queue stays as it is.
  pub put-Delivered :
      {a : ℕ}
      → IsRegister bsp.memory_register
      → IsPacked bsp.memory_register
      → Memreg.find bsp.memory_register bsp.memory_register.info.memoized_src_proc pid dst ≡ ok a
      → (t' : DeliveryTable) × (put fresh stale memory bsp pid src dst offset nbytes
          ≡ ok (with_delivery bsp t'))
        × Delivered bsp.delivery_table pid
            (put_element stale (a + offset) nbytes)
            it_put
            (slice memory src nbytes)
            t'
  unfolding put
  put-Delivered {a} r p found =
      let memo = memoized_find-eq-find bsp.memory_register r p pid dst found in
      (
        buffer_put fresh stale memory bsp.delivery_table pid src (a + offset) nbytes,
        rw memo refl,
        buffer_put-Delivered (a + offset),
      )
