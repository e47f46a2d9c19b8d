-- ===== src/Sync/Whole.antt =====
-- bspx_sync as a whole, at a processor to which the tables of a superstep arrive.
use mathlib.Core.Path.{subst}
use bsponmpi.Base.{
  ℕ, zero, suc, ◌+◌, ◌*◌, ◌^◌, ◌<◌, ◌≡◌, ◌∙◌, refl, ap, ap₂, arith, Option, none, Run, ok, abort,
  fault, List, ◌>>=◌, Array, length, ◌++◌, u32,
}
use bsponmpi.Exptable.{cell}
use bsponmpi.Exptable.Comm.{Delivers, sends}
use bsponmpi.Memreg
use bsponmpi.Memreg.{MemoryRegister}
use bsponmpi.Delivtable
use bsponmpi.Delivtable.{
  Slot, DelivElement, DeliveryTable, ItemType, it_put, it_pushreg, it_send, it_popreg, it_settag,
  aligned_size,
}
use bsponmpi.Delivtable.Column.{Action, queue, IsDelivery}
use bsponmpi.Reqtable
use bsponmpi.Reqtable.{RequestTable}
use bsponmpi.Mesgqueue
use bsponmpi.Mesgqueue.{MessageQueue}
use bsponmpi.Execute.{Executed}
use bsponmpi.Execute.Actions.{pop_all, last_tag_size, sizes, put_all, push_all}
use bsponmpi.Execute.Columns.{puts, registrations, messages}
use bsponmpi.Execute.Whole.{IsFirst, execute_lem}
use bsponmpi.Private.{BspObject}
use bsponmpi.Bspx.{Blocks}
use bsponmpi.Sync.{
  Network, expected, exchange_index, exchange_requests, exchange_deliveries, room_for_deliveries,
  sync,
}
use bsponmpi.Sync.Received.{received_lem}

-- Equal queues have equal effects.
module _ (t t' : DeliveryTable) where
  abbrev Alike : ℕ → Type 0
  Alike n = (p : ℕ) (type : ItemType) → p < n → queue t p type ≡ queue t' p type

  below : (n : ℕ) → Alike (suc n) → Alike n
  below n h p type hp = h p type (omega arith)

  same_puts : (n : ℕ) (memory : Array ℕ) → Alike n → puts n t memory ≡ puts n t' memory
  unfolding puts
  same_puts zero memory h = refl
  same_puts (suc n) memory h =
      ap₂ put_all (h n it_put (omega arith)) (same_puts n memory (below n h))

  same_registrations :
      (n : ℕ) (fresh : Array ℕ) (r : MemoryRegister)
      → Alike n
      → registrations n fresh t r ≡ registrations n fresh t' r
  unfolding registrations
  same_registrations zero fresh r h = refl
  same_registrations (suc n) fresh r h =
      ap₂ (push_all fresh n) (h n it_pushreg (omega arith))
        (same_registrations n fresh r (below n h))

  same_messages : (n : ℕ) → Alike n → messages n t ≡ messages n t'
  unfolding messages
  same_messages zero h = refl
  same_messages (suc n) h = ap₂ ◌++◌ (same_messages n (below n h)) (h n it_send (omega arith))

-- A result that is always returned is handed on.
bind_ok :
    {A B C : Type 0} (m : Run A) (f : A → B) (g : B → Run C)
    → ((m >>= λ a. ok (f a)) >>= g) ≡ (m >>= λ a. g (f a))
bind_ok (ok a) f g = refl
bind_ok (abort e) f g = refl
bind_ok fault f g = refl

module _ (b : Blocks) (stale : DelivElement) (net : Network) (bsp : BspObject)
    (memory : Array ℕ) where
  abbrev pub recv_index : Array ℕ
  recv_index = exchange_index net bsp

  -- The requests that were received and sent, and the deliveries that are sent.
  abbrev pub requests : RequestTable × RequestTable × DeliveryTable
  requests = exchange_requests b stale net recv_index bsp memory

  -- The delivery tables after their exchange.
  abbrev pub deliveries : DeliveryTable × DeliveryTable
  deliveries = exchange_deliveries b net recv_index bsp requests.2

  module _ (incoming : DeliveryTable) (received-IsDelivery : IsDelivery bsp.delivery_received_table)
      (incoming-IsDelivery : IsDelivery incoming) (here : bsp.rank < bsp.nprocs)
      (same_received : bsp.delivery_received_table.nprocs ≡ bsp.nprocs)
      (same_incoming : incoming.nprocs ≡ bsp.nprocs)
      (announced : (p : ℕ)
        → p < bsp.nprocs
        → expected bsp.request_table recv_index p ≡ incoming.used_slot_count p)
      (room : bsp.nprocs * (bsp.delivery_received_table.rows + incoming.rows) * aligned_size
        < 2 ^ 31)
      (delivers : Delivers bsp.nprocs aligned_size
        (sends requests.2
          (room_for_deliveries b.slots bsp.request_table recv_index bsp.nprocs
            bsp.delivery_received_table)
          net.deliveries)
        incoming.used_slot_count
        (cell incoming)) where
    abbrev n : ℕ
    n = bsp.nprocs

    got :
        IsDelivery deliveries.1
        × (deliveries.1.nprocs ≡ n)
        × ((p : ℕ) (type : ItemType) → p < n → queue deliveries.1 p type ≡ queue incoming p type)
    unfolding exchange_deliveries
    got =
        received_lem bsp.request_table recv_index b.slots n bsp.delivery_received_table incoming
          same_received received-IsDelivery incoming-IsDelivery (omega (arith, here)) same_incoming
          announced room requests.2 net.deliveries delivers

    same_register :
        registrations deliveries.1.nprocs b.addresses deliveries.1 bsp.memory_register
        ≡ registrations n b.addresses incoming bsp.memory_register
    same_register =
        ap (λ k. registrations k b.addresses deliveries.1 bsp.memory_register) got.1
        ∙ same_registrations deliveries.1 incoming n b.addresses bsp.memory_register got.2

    same_sent : messages deliveries.1.nprocs deliveries.1 ≡ messages n incoming
    same_sent =
        ap (λ k. messages k deliveries.1) got.1 ∙ same_messages deliveries.1 incoming n got.2

    same_number :
        u32 (0 + length (messages deliveries.1.nprocs deliveries.1))
        ≡ u32 (length (messages n incoming))
    same_number = omega (arith, ap length same_sent)

    same_bytes :
        u32 (0 + sizes (messages deliveries.1.nprocs deliveries.1))
        ≡ u32 (sizes (messages n incoming))
    same_bytes = omega (arith, ap sizes same_sent)

    same_memory : puts deliveries.1.nprocs deliveries.1 memory ≡ puts n incoming memory
    same_memory =
        ap (λ k. puts k deliveries.1 memory) got.1 ∙ same_puts deliveries.1 incoming n memory got.2

    -- The end of the superstep, with what the queues say.
    abbrev result :
        DeliveryTable
        → Option ℕ
        → List Action
        → MemoryRegister
        → List Action
        → ℕ
        → ℕ
        → Array ℕ
        → Run (BspObject × Array ℕ)
    result t' head pops register tags number bytes after = pop_all bsp.rank pops register >>= λ r.
        ok (
          record bsp {
            request_received_table = requests.0;
            request_table = Reqtable.reset requests.1;
            delivery_received_table = t';
            delivery_table = Delivtable.reset deliveries.0;
            message_queue = record {
              recv_tag_size = bsp.message_queue.send_tag_size;
              send_tag_size = last_tag_size tags bsp.message_queue.send_tag_size;
              n_mesg = number;
              accum_size = bytes;
              head = head;
            };
            memory_register = Memreg.pack r;
          },
          after,
        )

    abbrev finish : Executed → Run (BspObject × Array ℕ)
    finish done = ok (
      record bsp {
        request_received_table = requests.0;
        request_table = Reqtable.reset requests.1;
        delivery_received_table = done.table;
        delivery_table = Delivtable.reset deliveries.0;
        message_queue = done.mesgq;
        memory_register = Memreg.pack done.memreg;
      },
      done.memory,
    )

    -- What is executed, before it is known which queues these are.
    abbrev done : DeliveryTable → Option ℕ → MemoryRegister → Executed
    done t' head r = record {
      table = t';
      memreg = r;
      mesgq = record {
        recv_tag_size = bsp.message_queue.send_tag_size;
        send_tag_size =
            last_tag_size (queue deliveries.1 bsp.rank it_settag) bsp.message_queue.send_tag_size;
        n_mesg = u32 (0 + length (messages deliveries.1.nprocs deliveries.1));
        accum_size = u32 (0 + sizes (messages deliveries.1.nprocs deliveries.1));
        head = head;
      };
      memory = puts deliveries.1.nprocs deliveries.1 memory;
    }

    abbrev popped : Run MemoryRegister
    popped =
        pop_all bsp.rank (queue deliveries.1 bsp.rank it_popreg)
          (registrations deliveries.1.nprocs b.addresses deliveries.1 bsp.memory_register)

    finished :
        (t' : DeliveryTable) (head : Option ℕ)
        → (popped >>= λ r. ok (done t' head r)) >>= finish
          ≡ result t' head
              (queue incoming bsp.rank it_popreg)
              (registrations n b.addresses incoming bsp.memory_register)
              (queue incoming bsp.rank it_settag)
              (u32 (length (messages n incoming)))
              (u32 (sizes (messages n incoming)))
              (puts n incoming memory)
    finished t' head = bind_ok popped (done t' head) finish ∙ (λ i.
        result t' head (got.2 bsp.rank it_popreg here i) (same_register i)
          (got.2 bsp.rank it_settag here i) (same_number i) (same_bytes i) (same_memory i))

    -- At a processor whose rank is below the number of processors and whose received delivery table
    -- is in order, if a table in order `incoming` has in each column as many slots as are announced
    -- by that processor and by the requests to it, if the received table grown by the rows of
    -- `incoming` has less than 2^31 bytes, and if the communicator delivers the cells of `incoming`
    -- at the offsets that it is given, then the end of the superstep does what the queues of
    -- `incoming` say: puts and registrations of each column in turn, then the deregistrations of
    -- the own column, an abort of which is the outcome; and otherwise it returns with the memory
    -- after the puts, the packed register, the tag size that was set last for sending and the
    -- former one for receiving, the number and the bytes of the messages modulo 2^32, and the head
    -- at the first message of the first column that has one. The received table has the queues of
    -- `incoming`.
    pub sync_lem :
        (t' : DeliveryTable) × (head : Option ℕ) × (sync b stale net bsp memory ≡ (
          pop_all bsp.rank
            (queue incoming bsp.rank it_popreg)
            (registrations bsp.nprocs b.addresses incoming bsp.memory_register)
          >>= λ r. ok (
            record bsp {
              request_received_table = requests.0;
              request_table = Reqtable.reset requests.1;
              delivery_received_table = t';
              delivery_table = Delivtable.reset deliveries.0;
              message_queue = record {
                recv_tag_size = bsp.message_queue.send_tag_size;
                send_tag_size =
                    last_tag_size
                      (queue incoming bsp.rank it_settag)
                      bsp.message_queue.send_tag_size;
                n_mesg = u32 (length (messages bsp.nprocs incoming));
                accum_size = u32 (sizes (messages bsp.nprocs incoming));
                head = head;
              };
              memory_register = Memreg.pack r;
            },
            puts bsp.nprocs incoming memory,
          )))
        × IsFirst deliveries.1 0 bsp.nprocs none head
        × ((p : ℕ) (type : ItemType) → p < bsp.nprocs → queue t' p type ≡ queue incoming p type)
    unfolding sync Mesgqueue.sync
    sync_lem =
        let (t', head, run, first, kept) =
          execute_lem b.addresses deliveries.1 got.0 bsp.memory_register
            (Mesgqueue.sync bsp.message_queue) bsp.rank memory (omega (arith, here, got.1))
            (omega arith) (omega arith) in
        (
          t',
          head,
          ap (λ m. m >>= finish) run ∙ finished t' head,
          subst (λ k. IsFirst deliveries.1 0 k none head) got.1 first,
          λ p type hp. kept p type (omega (arith, hp, got.1)) ∙ got.2 p type hp,
        )
