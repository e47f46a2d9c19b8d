-- ===== src/Bsmp/Send.antt =====
-- A send queues the tag and the payload, one behind the other.
use bsponmpi.Base.{ℕ, ◌+◌, ◌<◌, ◌≡◌, refl, arith, Array, slice, u32, ◌++◌}
use bsponmpi.Delivtable.{Slot, DelivElement, DeliveryTable, it_send}
use bsponmpi.Delivtable.Column.{IsDelivery}
use bsponmpi.Delivtable.Room.{CanGrow, grow_small}
use bsponmpi.Delivtable.Deliver.{Delivered, fill_twice-Delivered}
use bsponmpi.Private.{BspObject, with_delivery}
use bsponmpi.Bsmp.{send_element, send}

module _ (fresh : Array Slot) (stale : DelivElement) (memory : Array ℕ) (bsp : BspObject)
    (pid tag payload nbytes : ℕ) (d : IsDelivery bsp.delivery_table)
    (hp : pid < bsp.delivery_table.nprocs)
    (grow : CanGrow bsp.delivery_table (bsp.message_queue.send_tag_size + nbytes)) where
  abbrev tag_nbytes : ℕ
  tag_nbytes = bsp.message_queue.send_tag_size

  exact : u32 (u32 nbytes + tag_nbytes) ≡ tag_nbytes + nbytes
  exact =
      omega (
        arith,
        grow_small bsp.delivery_table pid (bsp.message_queue.send_tag_size + nbytes) hp grow,
      )

  -- On a delivery table in order with room to grow below 2^31 bytes, a send queues for the
  -- destination, behind the earlier messages, one message whose content is the tag of the current
  -- tag size and then the payload as they stand in the memory at the call, and whose element holds
  -- the payload size; every other queue stays as it is.
  pub send-Delivered :
      (t' : DeliveryTable) × (send fresh stale memory bsp pid tag payload nbytes
        ≡ with_delivery bsp t')
      × Delivered bsp.delivery_table pid
          (send_element stale tag_nbytes nbytes)
          it_send
          (slice memory tag tag_nbytes ++ slice memory payload nbytes)
          t'
      × ((send_element stale tag_nbytes nbytes).info.payload_size ≡ nbytes)
  unfolding send
  send-Delivered = (
    _,
    refl,
    fill_twice-Delivered fresh bsp.delivery_table d pid hp (send_element stale tag_nbytes nbytes)
        it_send (rw exact grow) memory tag tag_nbytes payload nbytes exact,
    omega (
      arith,
      grow_small bsp.delivery_table pid (bsp.message_queue.send_tag_size + nbytes) hp grow,
    ),
  )
