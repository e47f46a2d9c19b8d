-- ===== src/Context/Send.antt =====
-- A message of a process: to its node through the local deliveries, to another through the table.
use native.Mathlib.Decide.{ℕ_discrete}
use bsponmpi.Base.{
  ℕ, ◌+◌, ◌^◌, ◌<◌, ◌≡◌, ◌≢◌, ◌⊎◌, inl, inr, refl, arith, Array, slice, List, [], ◌∷◌, ◌++◌, true,
  false, ◌==◌,
}
use bsponmpi.Delivtable.{DeliveryTable, it_send}
use bsponmpi.Delivtable.Column.{IsDelivery}
use bsponmpi.Delivtable.Room.{CanGrow, grow_small}
use bsponmpi.Delivtable.Deliver.{Delivered}
use bsponmpi.Delivtable.Parts.{fill_three-Delivered}
use bsponmpi.HeaderQueue.Fifo.{Grows}
use bsponmpi.LocalDelivery.{LocalDeliveryQueue}
use bsponmpi.LocalDelivery.Messages.{IsMail, sent, send_local_lem}
use bsponmpi.Private.{with_delivery}
use bsponmpi.TaskMapper.{global_to_node, global_to_local}
use bsponmpi.Context.{
  Supply, Node, with_local, send_element, remote_send, int_bytes, int_size, bsp_send, bsp_hpsend,
}

-- What the receiving node finds in a message to its process `lp`.
abbrev pub addressed : Array ℕ → ℕ → ℕ → ℕ → ℕ → ℕ → List ℕ
addressed memory lp tag tag_nbytes payload nbytes =
    slice memory tag tag_nbytes ++ (slice (int_bytes lp) 0 int_size ++ slice memory payload nbytes)

module _ (f : Supply) (memory : Array ℕ) (t : DeliveryTable) (d : IsDelivery t)
    (column lp tag tag_nbytes payload nbytes : ℕ) (hp : column < t.nprocs)
    (grow : CanGrow t (tag_nbytes + (int_size + nbytes))) where
  size_lem : (send_element f.stale tag_nbytes nbytes).size ≡ tag_nbytes + (int_size + nbytes)
  size_lem = omega (arith, grow_small t column (tag_nbytes + (int_size + nbytes)) hp grow)

  pub remote_send-Delivered :
      Delivered t column
        (send_element f.stale tag_nbytes nbytes)
        it_send
        (addressed memory lp tag tag_nbytes payload nbytes)
        (remote_send f memory t column lp tag tag_nbytes payload nbytes)
  unfolding remote_send
  remote_send-Delivered =
      fill_three-Delivered f.blocks.slots t d column hp (send_element f.stale tag_nbytes nbytes)
        it_send (rw size_lem grow) memory (int_bytes lp) memory tag payload tag_nbytes int_size
        nbytes size_lem

module _ (f : Supply) (node : Node) (pid tag payload nbytes : ℕ) where
  abbrev pub target : ℕ
  target = global_to_node node.mapper pid

  abbrev pub receiver : ℕ
  receiver = global_to_local node.mapper pid

  abbrev pub tag_nbytes : ℕ
  tag_nbytes = node.bsp.message_queue.send_tag_size

  abbrev pub local : LocalDeliveryQueue
  local = (node.contexts receiver).local_deliveries

  -- With the receiver's mail and the delivery table of the node in order and room in both, a send
  -- of a process either goes to a process of the same node, to whose mail it adds the tag and the
  -- payload that memory holds now, behind the earlier messages; or it queues for the node of the
  -- receiver one message with the tag, the local number of the receiver and the payload, and leaves
  -- every other queue of the table as it is.
  pub send_lem :
      IsMail tag_nbytes local
      → Grows local.message_send_queue
      → local.bytes_sent + nbytes < 2 ^ 64
      → local.message_send_buffer.storage_end + (nbytes + tag_nbytes + 8) < 2 ^ 61
      → IsDelivery node.bsp.delivery_table
      → target < node.bsp.delivery_table.nprocs
      → CanGrow node.bsp.delivery_table (tag_nbytes + (int_size + nbytes))
      → ((node.bsp.rank ≡ target)
          × (q : LocalDeliveryQueue) × (bsp_send f node pid tag payload nbytes
              ≡ with_local node receiver q)
          × IsMail tag_nbytes q
          × ((later : Array ℕ)
              → sent tag_nbytes later q
                ≡ sent tag_nbytes later local
                  ++ record {
                    tag = slice node.memory tag tag_nbytes;
                    payload = slice node.memory payload nbytes;
                  }
                    ∷ []))
        ⊎ ((node.bsp.rank ≢ target)
            × (t : DeliveryTable) × (bsp_send f node pid tag payload nbytes
                ≡ record node { bsp = with_delivery node.bsp t })
            × Delivered node.bsp.delivery_table target
                (send_element f.stale tag_nbytes nbytes)
                it_send
                (addressed node.memory receiver tag tag_nbytes payload nbytes)
                t)
  unfolding bsp_send
  send_lem mail grows few room d hp grow = elim (ℕ_discrete node.bsp.rank target) [
    | yes e ↦
        let here : (node.bsp.rank == target) ≡ true = ground arith in
        let (q, run, mail', more, _) =
          send_local_lem f.local local tag_nbytes mail tag payload nbytes grows few node.memory
            room in
        inl (e, q, rw (here, run) refl, mail', more)
    | no ne ↦
        let there : (node.bsp.rank == target) ≡ false = ground arith in
        inr (
          ne,
          _,
          rw there refl,
          remote_send-Delivered f node.memory node.bsp.delivery_table d target receiver tag
              tag_nbytes payload nbytes hp grow,
        )
  ]

  -- With the delivery table of the node in order and room in it, an unbuffered send of a process to
  -- a process of another node queues one message with the tag, the local number of the receiver and
  -- the payload for the node whose number is the number of the receiving process, if there is such
  -- a node, and leaves every other queue of the table as it is.
  pub hpsend_lem :
      node.bsp.rank ≢ target
      → IsDelivery node.bsp.delivery_table
      → pid < node.bsp.delivery_table.nprocs
      → CanGrow node.bsp.delivery_table (tag_nbytes + (int_size + nbytes))
      → (t : DeliveryTable) × (bsp_hpsend f node pid tag payload nbytes
          ≡ record node { bsp = with_delivery node.bsp t })
        × Delivered node.bsp.delivery_table pid
            (send_element f.stale tag_nbytes nbytes)
            it_send
            (addressed node.memory receiver tag tag_nbytes payload nbytes)
            t
  unfolding bsp_hpsend
  hpsend_lem ne d hp grow =
      let there : (node.bsp.rank == target) ≡ false = ground arith in
      (
        _,
        rw there refl,
        remote_send-Delivered f node.memory node.bsp.delivery_table d pid receiver tag tag_nbytes
            payload nbytes hp grow,
      )
