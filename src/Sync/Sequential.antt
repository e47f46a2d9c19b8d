-- ===== src/Sync/Sequential.antt =====
-- bspx_sync with the communicator of one processor, in a superstep without gets.
use bsponmpi.Base.{
  ℕ, ◌+◌, ◌*◌, ◌^◌, ◌<◌, ◌≡◌, ◌∙◌, refl, sym, ap, arith, Option, none, ok, ◌>>=◌, Array, length,
  u32,
}
use Prim.Native.Nat.{bit_or}
use mathlib.Core.Path.{subst}
use bsponmpi.CommSeq.Delivers.{alltoallv-Delivers}
use bsponmpi.CommSeq.{alltoall, alltoallv}
use bsponmpi.Exptable.{cell}
use bsponmpi.Exptable.Comm.{Delivers, sends}
use bsponmpi.Delivtable.{DelivElement, DeliveryTable, ItemType, it_popreg, it_settag, aligned_size}
use bsponmpi.Delivtable.Column.{queue, IsDelivery}
use bsponmpi.Reqtable
use bsponmpi.Reqtable.{RequestTable}
use bsponmpi.Private.{BspObject}
use bsponmpi.Bspx.{Blocks}
use bsponmpi.Memreg
use bsponmpi.Delivtable
use bsponmpi.Execute.Actions.{pop_all, last_tag_size, sizes}
use bsponmpi.Execute.Columns.{puts, registrations, messages}
use bsponmpi.Execute.Whole.{IsFirst}
use bsponmpi.Sync.Received.{table_nprocs}
use bsponmpi.Sync.Whole.{requests, deliveries, sync_lem}
use bsponmpi.Sync.{
  Network, any_of, fill_index, expected, exchange_index, exchange_requests, room_for_deliveries,
  sync,
}

-- The network of one processor; `index` is what the index arrays hold.
abbrev pub alone : Array ℕ → Network
alone index = record {
  infocomm = alltoall;
  requests = alltoallv Reqtable.element_size;
  deliveries = alltoallv aligned_size;
  index = index;
}

module _ (b : Blocks) (stale : DelivElement) (index : Array ℕ) (bsp : BspObject) (memory : Array ℕ)
    (one : bsp.nprocs ≡ 1) (no_gets : bsp.request_table.used_slot_count 0 ≡ 0) where
  exchanged :
      (exchange_index (alone index) bsp 1 ≡ bsp.delivery_table.used_slot_count 0)
      × (exchange_index (alone index) bsp 2 ≡ 0)
  unfolding exchange_index any_of fill_index alltoall
  exchanged = rw one (refl, ap (bit_or 0) no_gets)

  no_requests : any_of bsp.nprocs (exchange_index (alone index) bsp) 3 2 ≡ 0
  unfolding any_of
  no_requests =
      ap (λ n. any_of n (exchange_index (alone index) bsp) 3 2) one ∙ ap (bit_or 0) exchanged.1

  unanswered :
      (exchange_requests b stale (alone index) (exchange_index (alone index) bsp) bsp memory).2
      ≡ bsp.delivery_table
  unfolding exchange_requests
  unanswered = rw no_requests refl

  module _ (sending : IsDelivery bsp.delivery_table)
      (receiving : IsDelivery bsp.delivery_received_table)
      (no_replies : bsp.request_table.info.data_sizes 0 ≡ 0) (first : bsp.rank ≡ 0)
      (one_sending : bsp.delivery_table.nprocs ≡ 1)
      (one_receiving : bsp.delivery_received_table.nprocs ≡ 1)
      (room : (bsp.delivery_received_table.rows + bsp.delivery_table.rows) * aligned_size
        < 2 ^ 31) where
    abbrev own : DeliveryTable
    own = bsp.delivery_table

    used_small : own.used_slot_count 0 * aligned_size < 2 ^ 31
    used_small = omega (arith, room, sending.valid.within 0 (omega (arith, one_sending)))

    pub announced :
        (p : ℕ)
        → p < bsp.nprocs
        → expected bsp.request_table (exchange_index (alone index) bsp) p ≡ own.used_slot_count p
    announced p h =
        let at : p ≡ 0 = omega (arith, h, one) in
        let sum : exchange_index (alone index) bsp 1 + bsp.request_table.info.data_sizes 0
            ≡ own.used_slot_count 0 =
          omega (arith, exchanged.0, no_replies) in
        rw at (ap u32 sum ∙ omega (arith, used_small))

    abbrev waiting : DeliveryTable
    waiting =
        room_for_deliveries b.slots bsp.request_table (exchange_index (alone index) bsp) bsp.nprocs
          bsp.delivery_received_table

    pub enough : bsp.nprocs * (bsp.delivery_received_table.rows + own.rows) * aligned_size < 2 ^ 31
    enough = rw one (omega (arith, room))

    waiting_nprocs : waiting.nprocs ≡ bsp.nprocs
    waiting_nprocs =
        table_nprocs bsp.request_table (exchange_index (alone index) bsp) b.slots bsp.nprocs
          bsp.delivery_received_table own (one_receiving ∙ sym one) receiving sending
          (omega (arith, one)) (one_sending ∙ sym one) announced enough

    pub delivers :
        Delivers bsp.nprocs aligned_size
          (sends (requests b stale (alone index) bsp memory).2 waiting (alltoallv aligned_size))
          own.used_slot_count
          (cell own)
    delivers =
        subst
          (λ n.
            Delivers n aligned_size
              (sends (requests b stale (alone index) bsp memory).2 waiting (alltoallv aligned_size))
              own.used_slot_count (cell own))
          (sym one)
          (subst
            (λ (t : DeliveryTable).
              Delivers 1 aligned_size (sends t waiting (alltoallv aligned_size)) own.used_slot_count
                (cell own))
            (sym unanswered)
            (alltoallv-Delivers aligned_size own waiting (waiting_nprocs ∙ one) (omega arith)
              sending.aligned used_small))

    -- With the communicator of one processor, at a processor that is alone, has rank 0 and has not
    -- requested anything, whose delivery tables are in order with one column and together have less
    -- than 2^31 bytes, the end of the superstep does what the queues of its own delivery table say,
    -- as in the theorem on any communicator, and leaves those queues in the received table.
    pub sequential_lem :
        (t' : DeliveryTable) × (head : Option ℕ) × (sync b stale (alone index) bsp memory ≡ (
          pop_all bsp.rank
            (queue own bsp.rank it_popreg)
            (registrations bsp.nprocs b.addresses own bsp.memory_register)
          >>= λ r. ok (
            record bsp {
              request_received_table = (requests b stale (alone index) bsp memory).0;
              request_table = Reqtable.reset (requests b stale (alone index) bsp memory).1;
              delivery_received_table = t';
              delivery_table = Delivtable.reset (deliveries b stale (alone index) bsp memory).0;
              message_queue = record {
                recv_tag_size = bsp.message_queue.send_tag_size;
                send_tag_size =
                    last_tag_size (queue own bsp.rank it_settag) bsp.message_queue.send_tag_size;
                n_mesg = u32 (length (messages bsp.nprocs own));
                accum_size = u32 (sizes (messages bsp.nprocs own));
                head = head;
              };
              memory_register = Memreg.pack r;
            },
            puts bsp.nprocs own memory,
          )))
        × IsFirst (deliveries b stale (alone index) bsp memory).1 0 bsp.nprocs none head
        × ((p : ℕ) (type : ItemType) → p < bsp.nprocs → queue t' p type ≡ queue own p type)
    sequential_lem =
        sync_lem b stale (alone index) bsp memory own receiving sending (omega (arith, one, first))
          (one_receiving ∙ sym one) (one_sending ∙ sym one) announced enough delivers
