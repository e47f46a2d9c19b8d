-- ===== src/Execute/Tests.antt =====
-- The theorem on deliveryTable_execute at a table of two columns with one put and one message.
use bsponmpi.Base.{ℕ, ◌<◌, ◌≡◌, refl, arith, Array, length, Option, none, ok, ◌>>=◌}
use bsponmpi.Exptable
use bsponmpi.Memreg
use bsponmpi.Memreg.{MemoryRegister}
use bsponmpi.Mesgqueue.{MessageQueue}
use bsponmpi.Delivtable.{
  Slot, DelivInfo, DelivElement, DeliveryTable, ItemType, it_put, it_send, it_popreg, it_settag,
  zero_slot, initialize, index_columns, push, make_room, append,
}
use bsponmpi.Delivtable.Column.{queue, IsDelivery}
use bsponmpi.Delivtable.Clear.{initialize-IsDelivery}
use bsponmpi.Delivtable.Push.{push-IsDelivery}
use bsponmpi.Execute.{execute}
use bsponmpi.Execute.Actions.{pop_all, last_tag_size, sizes}
use bsponmpi.Execute.Columns.{puts, registrations, messages, counted}
use bsponmpi.Execute.Whole.{IsFirst, execute_lem}

abbrev fresh : Array Slot
fresh _ = zero_slot

abbrev pointers : DelivInfo
pointers = record { start = λ _. 0; count = λ _. 0; end_ = λ _. 0 }

abbrev new_table : DeliveryTable
new_table = initialize fresh pointers 2 20

new_table-IsDelivery : IsDelivery new_table
new_table-IsDelivery = (initialize-IsDelivery fresh pointers 2 20 (omega arith)).0

new_table-nprocs : new_table.nprocs ≡ 2
unfolding initialize index_columns Exptable.initialize
new_table-nprocs = refl

new_table-rows : new_table.rows ≡ 29
unfolding initialize index_columns Exptable.initialize
new_table-rows = refl

-- A put of 3 bytes to address 500.
abbrev element : DelivElement
element = record zero_slot.tag { size = 3; info = record zero_slot.tag.info { put_dst = 500 } }

abbrev one_put : DeliveryTable
one_put = (push fresh new_table 0 element it_put).1

one_put-IsDelivery : IsDelivery one_put
one_put-IsDelivery =
    push-IsDelivery fresh new_table new_table-IsDelivery 0 (omega (arith, new_table-nprocs)) element
      it_put (rw (new_table-nprocs, new_table-rows) (omega arith))

one_put-nprocs : one_put.nprocs ≡ 2
unfolding initialize index_columns Exptable.initialize push make_room append
one_put-nprocs = refl

one_put-rows : one_put.rows ≡ 29
unfolding initialize index_columns Exptable.initialize push make_room append
one_put-rows = refl

-- A message of 4 bytes from processor 1 as well.
abbrev received : DeliveryTable
received = (push fresh one_put 1 (record zero_slot.tag { size = 4 }) it_send).1

received-IsDelivery : IsDelivery received
received-IsDelivery =
    push-IsDelivery fresh one_put one_put-IsDelivery 1 (omega (arith, one_put-nprocs))
      (record zero_slot.tag { size = 4 }) it_send (rw (one_put-nprocs, one_put-rows) (omega arith))

received-nprocs : received.nprocs ≡ 2
unfolding initialize index_columns Exptable.initialize push make_room append
received-nprocs = refl

abbrev register : MemoryRegister
register = Memreg.initialize (λ _. 0) 2 1 0

abbrev no_messages : MessageQueue
no_messages = record {
  recv_tag_size = 0;
  send_tag_size = 2;
  n_mesg = 0;
  accum_size = 0;
  head = none;
}

abbrev memory : Array ℕ
memory a = a

execute_lem_example :
    (t' : DeliveryTable) × (head : Option ℕ) × (execute
        (λ _. 0)
        received
        register
        no_messages
        0
        memory
      ≡ (pop_all 0
            (queue received 0 it_popreg)
            (registrations received.nprocs (λ _. 0) received register)
          >>= λ r. ok (record {
            table = t';
            memreg = r;
            mesgq =
                record (counted no_messages
                  (length (messages received.nprocs received))
                  (sizes (messages received.nprocs received))) {
                    send_tag_size = last_tag_size (queue received 0 it_settag) 2;
                    head = head;
                  };
            memory = puts received.nprocs received memory;
          })))
    × IsFirst received 0 received.nprocs none head
    × ((p : ℕ) (type : ItemType) → p < received.nprocs → queue t' p type ≡ queue received p type)
execute_lem_example =
    execute_lem (λ _. 0) received received-IsDelivery register no_messages 0 memory
      (omega (arith, received-nprocs)) (omega arith) (omega arith)
