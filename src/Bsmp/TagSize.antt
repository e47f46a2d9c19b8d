-- ===== src/Bsmp/TagSize.antt =====
-- A new tag size is queued for the processor itself.
use bsponmpi.Base.{ℕ, ◌^◌, ◌<◌, ◌≡◌, refl, arith, Array, [], u32}
use bsponmpi.Delivtable.{Slot, DelivElement, DeliveryTable, it_settag, push}
use bsponmpi.Delivtable.Column.{IsDelivery}
use bsponmpi.Delivtable.Room.{CanGrow}
use bsponmpi.Delivtable.Deliver.{Delivered, push-Delivered}
use bsponmpi.Private.{BspObject, with_delivery}
use bsponmpi.Bsmp.{set_tagsize}

-- On a delivery table in order with room to grow below 2^31 bytes, setting the tag size returns
-- the current one, which stays in force, and queues the new one, which fits `unsigned int`, for
-- the processor itself; every other queue stays as it is.
pub set_tagsize-Delivered :
    (fresh : Array Slot) (stale : DelivElement) (bsp : BspObject) (tag_nbytes : ℕ)
    → IsDelivery bsp.delivery_table
    → bsp.rank < bsp.delivery_table.nprocs
    → CanGrow bsp.delivery_table 0
    → tag_nbytes < 2 ^ 32
    → (t' : DeliveryTable) × (set_tagsize fresh stale bsp tag_nbytes
        ≡ (bsp.message_queue.send_tag_size, with_delivery bsp t'))
      × Delivered bsp.delivery_table bsp.rank
          (record stale { size = 0; info = record stale.info { tag_size = tag_nbytes } })
          it_settag
          []
          t'
unfolding set_tagsize
set_tagsize-Delivered fresh stale bsp tag_nbytes d hp grow small =
    let exact : u32 tag_nbytes ≡ tag_nbytes = omega arith in
    let element : DelivElement = record stale {
      size = 0;
      info = record stale.info { tag_size = tag_nbytes };
    } in
    (
      (push fresh bsp.delivery_table bsp.rank element it_settag).1,
      rw exact refl,
      push-Delivered fresh bsp.delivery_table d bsp.rank hp element it_settag grow refl,
    )
