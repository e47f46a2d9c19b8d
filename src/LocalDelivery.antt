-- ===== src/LocalDelivery.antt =====
-- src/bsp_cpp/bsp_localdelivery.h: the deliveries between the processes of one node.
-- `memory` is the node's memory by byte address. The two message queues and their buffers, between
-- which four pointers switch, are the four fields that the pointers point to, so that switching
-- exchanges them. A header in a new slot is assigned whole. `Fresh` is what allocated blocks hold.
pub mod Puts
pub mod Messages
pub mod Fixture
mod Tests
use bsponmpi.Base.{
  ℕ, zero, suc, ◌+◌, ◌-◌, ◌*◌, ◌%◌, ◌^◌, Bool, true, false, Array, memcpy, if◌then◌else◌,
}
use bsponmpi.HeaderQueue
use bsponmpi.HeaderQueue.{HeaderQueue, enqueue, assign, is_empty}
use bsponmpi.MessageBuffer
use bsponmpi.MessageBuffer.{MessageBuffer, buffer, stored}
use bsponmpi.Reqtable.{ReqInfo}

pub record LocalMemoryDelivery : Type 0 where
  pub src : ℕ
  pub dst : ℕ
  pub nbytes : ℕ

pub record BufferedLocalMemoryDelivery : Type 0 where
  pub offset : ℕ
  pub dst : ℕ
  pub nbytes : ℕ

-- `tag` and `src` are an offset into the message buffer if the message is buffered, and an address
-- of the memory otherwise.
pub record BsMessage : Type 0 where
  pub buffered : Bool
  pub tag : ℕ
  pub src : ℕ
  pub nbytes : ℕ

pub record LocalDeliveryQueue : Type 0 where
  pub puts : HeaderQueue BufferedLocalMemoryDelivery
  pub put_buffer : MessageBuffer
  pub hpputs : HeaderQueue LocalMemoryDelivery
  pub message_send_buffer : MessageBuffer
  pub message_send_queue : HeaderQueue BsMessage
  pub message_move_buffer : MessageBuffer
  pub message_move_queue : HeaderQueue BsMessage
  pub bytes_sent : ℕ
  pub bytes_to_move : ℕ

pub record Fresh : Type 0 where
  pub deliveries : Array LocalMemoryDelivery
  pub buffered_deliveries : Array BufferedLocalMemoryDelivery
  pub messages : Array BsMessage
  pub words : Array (Array ℕ)
  pub info : ReqInfo

-- The constructor; the headers take 24 and 32 bytes.
unfoldable pub make : Fresh → LocalDeliveryQueue
unfolding HeaderQueue.make
make f = record {
  puts = HeaderQueue.make f.buffered_deliveries 24 f.info;
  put_buffer = MessageBuffer.make f.words;
  hpputs = HeaderQueue.make f.deliveries 24 f.info;
  message_send_buffer = MessageBuffer.make f.words;
  message_send_queue = HeaderQueue.make f.messages 32 f.info;
  message_move_buffer = MessageBuffer.make f.words;
  message_move_queue = HeaderQueue.make f.messages 32 f.info;
  bytes_sent = 0;
  bytes_to_move = 0;
}

-- `while (!hpputs.empty())`, for at most `fuel` rounds.
unfoldable pub do_hpputs :
    ℕ → HeaderQueue LocalMemoryDelivery → Array ℕ → HeaderQueue LocalMemoryDelivery × Array ℕ
unfolding HeaderQueue.is_empty HeaderQueue.head HeaderQueue.next
do_hpputs zero q memory = (q, memory)
do_hpputs (suc fuel) q memory =
    let d = HeaderQueue.head q in
    let rest = do_hpputs fuel (HeaderQueue.next q) (memcpy memory d.dst memory d.src d.nbytes) in
    if is_empty q then (q, memory) else rest

-- `while (!puts.empty())`, for at most `fuel` rounds.
unfoldable pub do_puts :
    ℕ
    → MessageBuffer
    → HeaderQueue BufferedLocalMemoryDelivery
    → Array ℕ
    → HeaderQueue BufferedLocalMemoryDelivery × Array ℕ
unfolding HeaderQueue.is_empty HeaderQueue.head HeaderQueue.next
do_puts zero b q memory = (q, memory)
do_puts (suc fuel) b q memory =
    let d = HeaderQueue.head q in
    let rest =
      do_puts fuel b (HeaderQueue.next q)
        (memcpy memory d.dst (stored b) (8 * d.offset) d.nbytes) in
    if is_empty q then (q, memory) else rest

-- The number of headers is enough fuel.
unfoldable pub execute : Fresh → LocalDeliveryQueue → Array ℕ → LocalDeliveryQueue × Array ℕ
unfolding do_hpputs do_puts MessageBuffer.clear
execute f q memory =
    let (hpputs, memory') = do_hpputs (q.hpputs.tbl.used_slot_count 0) q.hpputs memory in
    let (puts, memory'') = do_puts (q.puts.tbl.used_slot_count 0) q.put_buffer q.puts memory' in
    (
      record q {
        hpputs = hpputs;
        puts = puts;
        put_buffer = MessageBuffer.clear f.words q.put_buffer;
      },
      memory'',
    )

unfoldable pub put : Fresh → LocalDeliveryQueue → Array ℕ → ℕ → ℕ → ℕ → LocalDeliveryQueue
unfolding enqueue buffer
put f q memory src dst nbytes =
    let (slot, puts) = enqueue f.buffered_deliveries q.puts in
    let (offset, put_buffer) = buffer f.words q.put_buffer memory src nbytes in
    record q {
      puts = assign puts slot (record { offset = offset; dst = dst; nbytes = nbytes });
      put_buffer = put_buffer;
    }

unfoldable pub hpput : Fresh → LocalDeliveryQueue → ℕ → ℕ → ℕ → LocalDeliveryQueue
unfolding enqueue
hpput f q src dst nbytes =
    let (slot, hpputs) = enqueue f.deliveries q.hpputs in
    record q { hpputs = assign hpputs slot (record { src = src; dst = dst; nbytes = nbytes }) }

unfoldable pub send : Fresh → LocalDeliveryQueue → Array ℕ → ℕ → ℕ → ℕ → ℕ → LocalDeliveryQueue
unfolding enqueue buffer
send f q memory tag tagsize payload nbytes =
    let (slot, queue) = enqueue f.messages q.message_send_queue in
    let (src_offset, b) = buffer f.words q.message_send_buffer memory payload nbytes in
    let (tag_offset, b') = buffer f.words b memory tag tagsize in
    record q {
      message_send_queue =
          assign queue slot
            (record { buffered = true; tag = tag_offset; src = src_offset; nbytes = nbytes });
      message_send_buffer = b';
      bytes_sent = (q.bytes_sent + nbytes) % 2 ^ 64;
    }

unfoldable pub hpsend : Fresh → LocalDeliveryQueue → ℕ → ℕ → ℕ → LocalDeliveryQueue
unfolding enqueue
hpsend f q tag payload nbytes =
    let (slot, queue) = enqueue f.messages q.message_send_queue in
    record q {
      message_send_queue =
          assign queue slot
            (record { buffered = false; tag = tag; src = payload; nbytes = nbytes });
      bytes_sent = (q.bytes_sent + nbytes) % 2 ^ 64;
    }

unfoldable pub bsmp_qsize : LocalDeliveryQueue → ℕ
unfolding HeaderQueue.qsize
bsmp_qsize q = HeaderQueue.qsize q.message_move_queue

unfoldable pub bsmp_move_bytes : LocalDeliveryQueue → ℕ
bsmp_move_bytes q = q.bytes_to_move

-- A pointer into the move buffer, as the number of a word, or into the memory.
pub data Pointer : Type 0 where
  in_buffer : ℕ → Pointer
  in_memory : ℕ → Pointer

unfoldable pub bsmp_top_message : LocalDeliveryQueue → Pointer
unfolding HeaderQueue.head
bsmp_top_message q =
    let m = HeaderQueue.head q.message_move_queue in
    if m.buffered then in_buffer m.src else in_memory m.src

unfoldable pub bsmp_top_tag : LocalDeliveryQueue → Pointer
unfolding HeaderQueue.head
bsmp_top_tag q =
    let m = HeaderQueue.head q.message_move_queue in
    if m.buffered then in_buffer m.tag else in_memory m.tag

unfoldable pub bsmp_top_size : LocalDeliveryQueue → ℕ
unfolding HeaderQueue.head
bsmp_top_size q = (HeaderQueue.head q.message_move_queue).nbytes

-- The move queue without its first message.
abbrev pub advanced : LocalDeliveryQueue → LocalDeliveryQueue
unfolding HeaderQueue.head HeaderQueue.next
advanced q = record q {
  bytes_to_move =
      (q.bytes_to_move + 2 ^ 64 - (HeaderQueue.head q.message_move_queue).nbytes) % 2 ^ 64;
  message_move_queue = HeaderQueue.next q.message_move_queue;
}

unfoldable pub bsmp_advance : LocalDeliveryQueue → Bool × LocalDeliveryQueue
unfolding HeaderQueue.is_empty advanced
bsmp_advance q =
    if is_empty q.message_move_queue
    then (false, q)
    else if is_empty (advanced q).message_move_queue
    then (false, advanced q)
    else (true, advanced q)

unfoldable pub bsmp_messagequeue_sync : Fresh → LocalDeliveryQueue → LocalDeliveryQueue
unfolding HeaderQueue.reset MessageBuffer.clear
bsmp_messagequeue_sync f q = record q {
  message_move_queue = q.message_send_queue;
  message_move_buffer = q.message_send_buffer;
  message_send_queue = HeaderQueue.reset f.messages q.message_move_queue;
  message_send_buffer = MessageBuffer.clear f.words q.message_move_buffer;
  bytes_to_move = q.bytes_sent;
  bytes_sent = 0;
  puts = HeaderQueue.reset f.buffered_deliveries q.puts;
  hpputs = HeaderQueue.reset f.deliveries q.hpputs;
}

unfoldable pub reset_buffers : Fresh → LocalDeliveryQueue → LocalDeliveryQueue
unfolding HeaderQueue.reset MessageBuffer.clear
reset_buffers f q = record q {
  put_buffer = MessageBuffer.clear f.words q.put_buffer;
  puts = HeaderQueue.reset f.buffered_deliveries q.puts;
  hpputs = HeaderQueue.reset f.deliveries q.hpputs;
  message_send_queue = HeaderQueue.reset f.messages q.message_send_queue;
  message_move_queue = HeaderQueue.reset f.messages q.message_move_queue;
  message_send_buffer = MessageBuffer.clear f.words q.message_send_buffer;
  message_move_buffer = MessageBuffer.clear f.words q.message_move_buffer;
  bytes_sent = 0;
  bytes_to_move = 0;
}
