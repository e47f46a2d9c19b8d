-- ===== src/Sync/Tests.antt =====
-- bspx_sync at a processor that is alone and has put three bytes.
use bsponmpi.Base.{
  ℕ, ◌+◌, ◌*◌, ◌^◌, ◌≡◌, ◌<◌, refl, arith, Array, length, Option, none, ok, ◌>>=◌, u32,
}
use bsponmpi.Exptable
use bsponmpi.Memreg
use bsponmpi.Mesgqueue
use bsponmpi.Delivtable
use bsponmpi.Delivtable.{
  Slot, DelivInfo, DelivElement, DeliveryTable, ItemType, it_put, it_popreg, it_settag, zero_slot,
  aligned_size, initialize, index_columns, push, make_room, append,
}
use bsponmpi.Delivtable.Column.{queue, IsDelivery}
use bsponmpi.Delivtable.Clear.{initialize-IsDelivery}
use bsponmpi.Delivtable.Push.{push-IsDelivery}
use bsponmpi.Reqtable
use bsponmpi.Reqtable.{ReqElement}
use bsponmpi.Execute.Actions.{pop_all, last_tag_size, sizes}
use bsponmpi.Execute.Columns.{puts, registrations, messages}
use bsponmpi.Execute.Whole.{IsFirst}
use bsponmpi.Private.{BspObject}
use bsponmpi.Bspx.{Blocks}
use bsponmpi.Sync.{sync}
use bsponmpi.Sync.Whole.{requests, deliveries, sync_lem}
use bsponmpi.Sync.Sequential.{alone, announced, enough, delivers, sequential_lem}

abbrev fresh : Array Slot
fresh _ = zero_slot

abbrev pointers : DelivInfo
pointers = record { start = λ _. 0; count = λ _. 0; end_ = λ _. 0 }

abbrev request : ReqElement
request = record { size = 0; offset = 0; src = 0; dst = 0 }

abbrev blocks : Blocks
blocks = record { slots = fresh; pointers = pointers; requests = λ _. request; addresses = λ _. 0 }

abbrev new_table : DeliveryTable
new_table = initialize fresh pointers 1 20

new_table-IsDelivery : IsDelivery new_table
new_table-IsDelivery = (initialize-IsDelivery fresh pointers 1 20 (omega arith)).0

new_table-nprocs : new_table.nprocs ≡ 1
unfolding initialize index_columns Exptable.initialize
new_table-nprocs = refl

new_table-rows : new_table.rows ≡ 29
unfolding initialize index_columns Exptable.initialize
new_table-rows = refl

-- A put of 3 bytes to address 500.
abbrev element : DelivElement
element = record zero_slot.tag { size = 3; info = record zero_slot.tag.info { put_dst = 500 } }

abbrev one_put : DeliveryTable
one_put = (push fresh new_table 0 element it_put).1

one_put-IsDelivery : IsDelivery one_put
one_put-IsDelivery =
    push-IsDelivery fresh new_table new_table-IsDelivery 0 (omega (arith, new_table-nprocs)) element
      it_put (rw (new_table-nprocs, new_table-rows) (omega arith))

one_put-nprocs : one_put.nprocs ≡ 1
unfolding initialize index_columns Exptable.initialize push make_room append
one_put-nprocs = refl

one_put-rows : one_put.rows ≡ 29
unfolding initialize index_columns Exptable.initialize push make_room append
one_put-rows = refl

abbrev bsp : BspObject
bsp = record {
  nprocs = 1;
  rank = 0;
  delivery_table = one_put;
  delivery_received_table = new_table;
  request_table = Reqtable.initialize (λ _. request) 1 4;
  request_received_table = Reqtable.initialize (λ _. request) 1 4;
  memory_register = Memreg.initialize (λ _. 0) 1 1 0;
  message_queue = Mesgqueue.initialize;
  global_array_last = 0;
  global_overflow = 0;
  global_arrays = λ _. record { array_size = 0; local_slice = 0; local_size = 0 };
}

no_gets : bsp.request_table.used_slot_count 0 ≡ 0
unfolding Reqtable.initialize Exptable.initialize
no_gets = refl

no_replies : bsp.request_table.info.data_sizes 0 ≡ 0
unfolding Reqtable.initialize Exptable.initialize
no_replies = refl

index : Array ℕ
index _ = 0

memory : Array ℕ
memory a = a

room : (new_table.rows + one_put.rows) * aligned_size < 2 ^ 31
room = rw (new_table-rows, one_put-rows) (omega arith)

sequential_lem_example :
    (t' : DeliveryTable) × (head : Option ℕ) × (sync blocks zero_slot.tag (alone index) bsp memory
      ≡ (pop_all 0
            (queue one_put 0 it_popreg)
            (registrations 1 blocks.addresses one_put bsp.memory_register)
          >>= λ r. ok (
            record bsp {
              request_received_table = (requests blocks zero_slot.tag (alone index) bsp memory).0;
              request_table =
                  Reqtable.reset (requests blocks zero_slot.tag (alone index) bsp memory).1;
              delivery_received_table = t';
              delivery_table =
                  Delivtable.reset (deliveries blocks zero_slot.tag (alone index) bsp memory).0;
              message_queue = record {
                recv_tag_size = bsp.message_queue.send_tag_size;
                send_tag_size =
                    last_tag_size (queue one_put 0 it_settag) bsp.message_queue.send_tag_size;
                n_mesg = u32 (length (messages 1 one_put));
                accum_size = u32 (sizes (messages 1 one_put));
                head = head;
              };
              memory_register = Memreg.pack r;
            },
            puts 1 one_put memory,
          )))
    × IsFirst (deliveries blocks zero_slot.tag (alone index) bsp memory).1 0 1 none head
    × ((p : ℕ) (type : ItemType) → p < 1 → queue t' p type ≡ queue one_put p type)
sequential_lem_example =
    sequential_lem blocks zero_slot.tag index bsp memory refl no_gets one_put-IsDelivery
      new_table-IsDelivery no_replies refl one_put-nprocs new_table-nprocs room

sync_lem_example :
    (t' : DeliveryTable) × (head : Option ℕ) × (sync blocks zero_slot.tag (alone index) bsp memory
      ≡ (pop_all 0
            (queue one_put 0 it_popreg)
            (registrations 1 blocks.addresses one_put bsp.memory_register)
          >>= λ r. ok (
            record bsp {
              request_received_table = (requests blocks zero_slot.tag (alone index) bsp memory).0;
              request_table =
                  Reqtable.reset (requests blocks zero_slot.tag (alone index) bsp memory).1;
              delivery_received_table = t';
              delivery_table =
                  Delivtable.reset (deliveries blocks zero_slot.tag (alone index) bsp memory).0;
              message_queue = record {
                recv_tag_size = bsp.message_queue.send_tag_size;
                send_tag_size =
                    last_tag_size (queue one_put 0 it_settag) bsp.message_queue.send_tag_size;
                n_mesg = u32 (length (messages 1 one_put));
                accum_size = u32 (sizes (messages 1 one_put));
                head = head;
              };
              memory_register = Memreg.pack r;
            },
            puts 1 one_put memory,
          )))
    × IsFirst (deliveries blocks zero_slot.tag (alone index) bsp memory).1 0 1 none head
    × ((p : ℕ) (type : ItemType) → p < 1 → queue t' p type ≡ queue one_put p type)
sync_lem_example =
    sync_lem blocks zero_slot.tag (alone index) bsp memory one_put new_table-IsDelivery
      one_put-IsDelivery (omega arith) new_table-nprocs one_put-nprocs
      (announced blocks zero_slot.tag index bsp memory refl no_gets one_put-IsDelivery
        new_table-IsDelivery no_replies refl one_put-nprocs new_table-nprocs room)
      (enough blocks zero_slot.tag index bsp memory refl no_gets one_put-IsDelivery
        new_table-IsDelivery no_replies refl one_put-nprocs new_table-nprocs room)
      (delivers blocks zero_slot.tag index bsp memory refl no_gets one_put-IsDelivery
        new_table-IsDelivery no_replies refl one_put-nprocs new_table-nprocs room)
