-- ===== src/Bsmp/Tests.antt =====
-- The theorems on the messages of src/bspx.c at a processor of two with one message received.
use bsponmpi.Base.{
  ℕ, ◌+◌, ◌*◌, ◌≡◌, refl, arith, Array, [], ◌∷◌, ◌==◌, if◌then◌else◌, some, ok, memcpy,
}
use bsponmpi.Exptable
use bsponmpi.Memreg
use bsponmpi.Mesgqueue.{MessageQueue}
use bsponmpi.Delivtable
use bsponmpi.Delivtable.{
  Slot, DelivElement, DeliveryTable, it_send, it_settag, zero_slot, byte, tag_size,
}
use bsponmpi.Delivtable.Chain.{positions}
use bsponmpi.Delivtable.Column.{IsDelivery}
use bsponmpi.Delivtable.Clear.{initialize-IsDelivery}
use bsponmpi.Delivtable.Deliver.{Delivered}
use bsponmpi.Reqtable
use bsponmpi.Reqtable.{ReqElement}
use bsponmpi.Private.{BspObject, with_delivery}
use bsponmpi.Bsmp.{send, send_element, move, hpmove, get_tag}
use bsponmpi.Bsmp.Send.{send-Delivered}
use bsponmpi.Bsmp.Dequeue.{IsQueued, total_size, pending, move_lem, hpmove_lem, get_tag_lem}

abbrev fresh : Array Slot
fresh _ = zero_slot

abbrev unset : DelivElement
unset = zero_slot.tag

abbrev memory : Array ℕ
memory a = a + 1

abbrev no_actions : DeliveryTable
no_actions =
    Delivtable.initialize fresh (record { start = λ _. 0; count = λ _. 0; end_ = λ _. 0 }) 2 20

no_actions-IsDelivery : IsDelivery no_actions
no_actions-IsDelivery = (initialize-IsDelivery fresh _ 2 20 (omega arith)).0

no_actions-nprocs : no_actions.nprocs ≡ 2
unfolding Delivtable.initialize Delivtable.index_columns Exptable.initialize
no_actions-nprocs = refl

no_actions-rows : no_actions.rows ≡ 29
unfolding Delivtable.initialize Delivtable.index_columns Exptable.initialize
no_actions-rows = refl

abbrev request : ReqElement
request = record { size = 0; offset = 0; src = 0; dst = 0 }

-- A message of a tag of 2 bytes and a payload of 3 in slot 9.
abbrev message : DelivElement
message = record unset { size = 5; info = record unset.info { payload_size = 3 } }

abbrev received : DeliveryTable
received = record {
  nprocs = 2;
  rows = 29;
  used_slot_count = λ _. 12;
  slot_size = 8;
  info = record { start = λ _. 0; count = λ _. 0; end_ = λ _. 0 };
  data_block =
      λ i. record zero_slot { tag = if i == 9 then message else unset; bytes = λ k. 10 * i + k };
  offset = λ _. 0;
  bytes = λ _. 0;
}

abbrev queue_of_one : MessageQueue
queue_of_one = record {
  recv_tag_size = 2;
  send_tag_size = 2;
  n_mesg = 1;
  accum_size = 5;
  head = some 9;
}

abbrev bsp : BspObject
bsp = record {
  nprocs = 2;
  rank = 0;
  delivery_table = no_actions;
  delivery_received_table = received;
  request_table = Reqtable.initialize (λ _. request) 2 4;
  request_received_table = Reqtable.initialize (λ _. request) 2 4;
  memory_register = Memreg.initialize (λ _. 0) 2 1 0;
  message_queue = queue_of_one;
  global_array_last = 0;
  global_overflow = 0;
  global_arrays = λ _. record { array_size = 0; local_slice = 0; local_size = 0 };
}

bsp-IsQueued : IsQueued bsp
unfolding positions total_size
bsp-IsQueued = record {
  number = refl;
  bytes = refl;
  small = omega arith;
  small_bytes = omega arith;
}

nothing_left : total_size received.data_block [] ≡ 0
unfolding total_size
nothing_left = refl

send-Delivered_example :
    (t' : DeliveryTable) × (send fresh unset memory bsp 1 40 60 3 ≡ with_delivery bsp t')
    × Delivered no_actions 1 (send_element unset 2 3) it_send (41 ∷ 42 ∷ 61 ∷ 62 ∷ 63 ∷ []) t'
    × ((send_element unset 2 3).info.payload_size ≡ 3)
send-Delivered_example =
    send-Delivered fresh unset memory bsp 1 40 60 3 no_actions-IsDelivery
      (omega (arith, no_actions-nprocs)) (rw (no_actions-nprocs, no_actions-rows) (omega arith))

move_lem_example :
    (bsp' : BspObject) × (move memory bsp 500 8
      ≡ ok (memcpy memory 500 (byte received.data_block) 90 5, bsp'))
    × (pending bsp' ≡ [])
    × IsQueued bsp'
unfolding positions
move_lem_example = move_lem bsp bsp-IsQueued 9 0 refl refl memory 500 8 (omega arith) (omega arith)

hpmove_lem_example :
    (bsp' : BspObject) × (hpmove bsp ≡ ok (some (3, 88, 90), bsp'))
    × (pending bsp' ≡ [])
    × (bsp'.message_queue.accum_size ≡ 2)
unfolding positions total_size
hpmove_lem_example = hpmove_lem bsp bsp-IsQueued 9 0 refl refl 2 refl

get_tag_lem_example :
    get_tag memory bsp 500 ≡ ok (some 5, memcpy memory 500 (byte received.data_block) 88 2)
get_tag_lem_example = get_tag_lem bsp bsp-IsQueued 9 0 refl refl memory 500 2 refl
