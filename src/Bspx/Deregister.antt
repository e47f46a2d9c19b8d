-- ===== src/Bspx/Deregister.antt =====
-- A deregistration is queued for the processor itself.
use bsponmpi.Base.{ℕ, ◌<◌, ◌≡◌, refl, Array, []}
use bsponmpi.Delivtable.{Slot, DelivElement, DeliveryTable, it_popreg}
use bsponmpi.Delivtable.Column.{IsDelivery}
use bsponmpi.Delivtable.Room.{CanGrow}
use bsponmpi.Delivtable.Deliver.{Delivered, push-Delivered}
use bsponmpi.Private.{BspObject, with_delivery}
use bsponmpi.Bspx.{pop_reg}

-- On a delivery table in order with room to grow below 2^31 bytes, a deregistration queues the
-- address for the processor itself and leaves every other queue as it is.
pub pop_reg-Delivered :
    (fresh : Array Slot) (stale : DelivElement) (bsp : BspObject) (ident : ℕ)
    → IsDelivery bsp.delivery_table
    → bsp.rank < bsp.delivery_table.nprocs
    → CanGrow bsp.delivery_table 0
    → (t' : DeliveryTable) × (pop_reg fresh stale bsp ident ≡ with_delivery bsp t')
      × Delivered bsp.delivery_table bsp.rank
          (record stale { size = 0; info = record stale.info { pop_address = ident } })
          it_popreg
          []
          t'
unfolding pop_reg
pop_reg-Delivered fresh stale bsp ident d hp grow =
    (_, refl, push-Delivered fresh bsp.delivery_table d bsp.rank hp _ it_popreg grow refl)
