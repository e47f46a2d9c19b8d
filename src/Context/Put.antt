-- ===== src/Context/Put.antt =====
-- A put of a process: to its node through the local deliveries, to another through the table.
use native.Mathlib.Decide.{ℕ_discrete}
use bsponmpi.Base.{
  ℕ, ◌+◌, ◌^◌, ◌<◌, ◌≡◌, ◌≢◌, ◌⊎◌, inl, inr, refl, arith, ok, slice, [], ◌∷◌, ◌++◌, true, false,
  ◌==◌,
}
use bsponmpi.Memreg
use bsponmpi.Delivtable.{DeliveryTable, it_put}
use bsponmpi.Delivtable.Column.{IsDelivery}
use bsponmpi.Delivtable.Room.{CanGrow}
use bsponmpi.Delivtable.Deliver.{Delivered}
use bsponmpi.HeaderQueue.Fifo.{Grows, items}
use bsponmpi.LocalDelivery.{LocalDeliveryQueue}
use bsponmpi.LocalDelivery.Puts.{IsPending, writes, put_local_lem}
use bsponmpi.Private.{with_delivery}
use bsponmpi.Bspx.{put_element}
use bsponmpi.Bspx.Put.{buffer_put-Delivered}
use bsponmpi.TaskMapper.{global_to_node}
use bsponmpi.Context.{Supply, Node, with_local, bsp_put}

module _ (f : Supply) (node : Node) (i pid src dst offset nbytes : ℕ) where
  abbrev pub local : LocalDeliveryQueue
  local = (node.contexts i).local_deliveries

  abbrev pub target : ℕ
  target = global_to_node node.mapper pid

  -- For an address that the process has registered, with its local deliveries and the delivery
  -- table of the node in order and room in both, a put either goes to a process of the same node,
  -- and is added to the pending local writes; or it queues for the node of the other process one
  -- put of the bytes that memory holds now to the remote address, and leaves every other queue of
  -- the table as it is.
  pub put_lem :
      (a : ℕ)
      → Memreg.find (node.contexts i).memory_register (node.contexts i).global_pid pid dst ≡ ok a
      → IsPending local
      → Grows local.puts
      → local.put_buffer.storage_end + nbytes < 2 ^ 62
      → IsDelivery node.bsp.delivery_table
      → target < node.bsp.delivery_table.nprocs
      → CanGrow node.bsp.delivery_table nbytes
      → ((node.bsp.rank ≡ target)
          × (q : LocalDeliveryQueue) × (bsp_put f node i pid src dst offset nbytes
              ≡ ok (with_local node i q))
          × IsPending q
          × (writes q.put_buffer (items q.puts)
              ≡ writes local.put_buffer (items local.puts)
                ++ record { dst = a + offset; content = slice node.memory src nbytes } ∷ []))
        ⊎ ((node.bsp.rank ≢ target)
            × (t : DeliveryTable) × (bsp_put f node i pid src dst offset nbytes
                ≡ ok (record node { bsp = with_delivery node.bsp t }))
            × Delivered node.bsp.delivery_table target
                (put_element f.stale (a + offset) nbytes)
                it_put
                (slice node.memory src nbytes)
                t)
  unfolding bsp_put
  put_lem a found pending grows room d hp grow = elim (ℕ_discrete node.bsp.rank target) [
    | yes e ↦
        let here : (node.bsp.rank == target) ≡ true = ground arith in
        let (q, run, pending', more, _) =
          put_local_lem f.local local pending node.memory src (a + offset) nbytes grows room in
        inl (e, q, rw (found, here, run) refl, pending', more)
    | no ne ↦
        let there : (node.bsp.rank == target) ≡ false = ground arith in
        inr (
          ne,
          _,
          rw (found, there) refl,
          buffer_put-Delivered f.blocks.slots f.stale node.memory node.bsp target src dst offset
              nbytes d hp grow (a + offset),
        )
  ]
