-- ===== src/Bsmp.antt =====
-- src/bspx.c: the operations on messages.
-- `memory`, `stale` and `fresh` are as in Bspx. The payload of a received message is read from the
-- block of `delivery_received_table`, into which `message_queue.head` points.
pub mod Send
pub mod TagSize
pub mod Dequeue
mod Tests
use bsponmpi.Base.{
  ℕ, zero, suc, ◌+◌, ◌-◌, ◌*◌, ◌%◌, ◌^◌, Option, none, some, Run, ok, abort, fault, ◌>>=◌, Array,
  memcpy, u32, widen, min_of, ltb, ◌==◌, if◌then◌else◌,
}
use bsponmpi.Exptable.{column}
use bsponmpi.Memreg
use bsponmpi.Memreg.{MemoryRegister}
use bsponmpi.Delivtable
use bsponmpi.Delivtable.{
  Slot, DInfo, DelivInfo, DelivElement, DeliveryTable, ItemType, it_popreg, it_pushreg, it_put,
  it_send, it_settag, tag_size, byte,
}
use bsponmpi.Reqtable
use bsponmpi.Reqtable.{ReqElement, RequestTable}
use bsponmpi.Mesgqueue
use bsponmpi.Mesgqueue.{MessageQueue}
use bsponmpi.Private.{GlobalArray, BspObject, with_delivery}

-- The tag element of a message.
abbrev pub send_element : DelivElement → ℕ → ℕ → DelivElement
send_element stale tag_nbytes payload_nbytes = record stale {
  size = u32 (u32 payload_nbytes + tag_nbytes);
  info = record stale.info { payload_size = u32 payload_nbytes };
}

unfoldable pub send : Array Slot → DelivElement → Array ℕ → BspObject → ℕ → ℕ → ℕ → ℕ → BspObject
unfolding Delivtable.push Delivtable.fill
send fresh stale memory bsp pid tag payload payload_nbytes =
    let tag_nbytes = bsp.message_queue.send_tag_size in
    let element = send_element stale tag_nbytes payload_nbytes in
    let (pointer, t) = Delivtable.push fresh bsp.delivery_table pid element it_send in
    let tagged = Delivtable.fill t (8 * pointer) memory tag tag_nbytes in
    with_delivery bsp
      (Delivtable.fill tagged (8 * pointer + tag_nbytes) memory payload payload_nbytes)

unfoldable pub qsize : BspObject → ℕ × ℕ
qsize bsp = (bsp.message_queue.n_mesg, bsp.message_queue.accum_size)

-- The status (an `int`, kept as its pattern of 32 bits), with none for -1, and the memory with the
-- tag; NULL faults.
abbrev pub tag_at : Array ℕ → BspObject → ℕ → Option ℕ → Run (Option ℕ × Array ℕ)
tag_at memory bsp tag none = fault
tag_at memory bsp tag (some head) =
    let block = bsp.delivery_received_table.data_block in
    ok (
      some (block head).tag.size,
      memcpy memory tag (byte block) (8 * (head + tag_size)) bsp.message_queue.recv_tag_size,
    )

unfoldable pub get_tag : Array ℕ → BspObject → ℕ → Run (Option ℕ × Array ℕ)
get_tag memory bsp tag =
    if bsp.message_queue.n_mesg == 0
    then ok (none, memory)
    else tag_at memory bsp tag bsp.message_queue.head

-- `n_mesg--`, `head += next` and `accum_size -= size` of the two dequeueing operations.
abbrev pub dequeue : BspObject → ℕ → ℕ → BspObject
dequeue bsp head size =
    let q = bsp.message_queue in
    record bsp {
      message_queue = record q {
        head = some (head + (bsp.delivery_received_table.data_block head).tag.next);
        n_mesg = u32 (q.n_mesg + (2 ^ 32 - 1));
        accum_size = u32 (q.accum_size + 2 ^ 32 - size);
      };
    }

-- `copy_bytes` is an `int`, which is widened again by the call of memcpy.
abbrev pub move_at : Array ℕ → BspObject → ℕ → ℕ → Option ℕ → Run (Array ℕ × BspObject)
move_at memory bsp payload reception_nbytes none = fault
move_at memory bsp payload reception_nbytes (some head) =
    let block = bsp.delivery_received_table.data_block in
    let size = (block head).tag.size in
    let current_payload = 8 * (head + tag_size) + bsp.message_queue.recv_tag_size in
    ok (
      memcpy memory payload (byte block) current_payload
          (widen (min_of (u32 reception_nbytes) size)),
      dequeue bsp head size,
    )

-- The source does not test that there is a message.
unfoldable pub move : Array ℕ → BspObject → ℕ → ℕ → Run (Array ℕ × BspObject)
move memory bsp payload reception_nbytes =
    move_at memory bsp payload reception_nbytes bsp.message_queue.head

-- The size (an `int`, kept as its pattern of 32 bits), the two pointers (byte addresses in the
-- received table) and the object.
abbrev pub hpmove_at : BspObject → Option ℕ → Run (Option (ℕ × ℕ × ℕ) × BspObject)
hpmove_at bsp none = fault
hpmove_at bsp (some head) =
    let size = (bsp.delivery_received_table.data_block head).tag.info.payload_size in
    let current_tag = 8 * (head + tag_size) in
    ok (
      some (size, current_tag, current_tag + bsp.message_queue.recv_tag_size),
      dequeue bsp head size,
    )

-- None stands for the return value -1.
unfoldable pub hpmove : BspObject → Run (Option (ℕ × ℕ × ℕ) × BspObject)
hpmove bsp =
    if bsp.message_queue.n_mesg == 0 then ok (none, bsp) else hpmove_at bsp bsp.message_queue.head

unfoldable pub set_tagsize : Array Slot → DelivElement → BspObject → ℕ → ℕ × BspObject
unfolding Delivtable.push
set_tagsize fresh stale bsp tag_nbytes =
    let element : DelivElement = record stale {
      size = 0;
      info = record stale.info { tag_size = u32 tag_nbytes };
    } in
    (
      bsp.message_queue.send_tag_size,
      with_delivery bsp (Delivtable.push fresh bsp.delivery_table bsp.rank element it_settag).1,
    )
