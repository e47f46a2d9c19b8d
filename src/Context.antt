-- ===== src/Context.antt =====
-- src/bsp_cpp/bsp_contextimpl.h and bsp_contextimpl.cpp: a process of a node, which delivers to
-- processes of its node itself and to the others through the tables of the node.
-- `memory` is the memory of the node by byte address, which its processes share. The lock that the
-- tables are guarded by is left out. An `int` has four bytes, the lowest first.
pub mod Local
pub mod Put
pub mod Send
pub mod Mailbox
pub mod Split
mod Tests
use bsponmpi.Base.{
  ℕ, zero, ◌+◌, ◌*◌, ◌/◌, ◌%◌, ◌^◌, Option, none, some, Bool, true, false, Run, ok, abort, fault,
  ◌>>=◌, Array, update, memcpy, u32, List, [], ltb, ◌==◌, if◌then◌else◌,
}
use bsponmpi.Memreg
use bsponmpi.Memreg.{MemoryRegister}
use bsponmpi.Delivtable
use bsponmpi.Delivtable.{Slot, DelivElement, DeliveryTable, it_send}
use bsponmpi.Reqtable
use bsponmpi.Reqtable.{ReqElement}
use bsponmpi.Private.{BspObject, with_delivery}
use bsponmpi.Bspx.{Blocks, buffer_put, resetbuffers}
use bsponmpi.Bsmp
use bsponmpi.MessageBuffer.{MessageBuffer, stored}
use bsponmpi.LocalDelivery
use bsponmpi.LocalDelivery.{
  LocalDeliveryQueue, Pointer, in_buffer, in_memory, bsmp_qsize, bsmp_move_bytes, bsmp_top_tag,
  bsmp_top_message, bsmp_top_size, bsmp_advance, hpsend, reset_buffers,
}
use bsponmpi.RegChecks.{RegRequest}
use bsponmpi.TaskMapper.{TaskMapper, global_to_node, global_to_local}

-- What allocated blocks and unassigned variables hold.
pub record Supply : Type 0 where
  pub local : LocalDelivery.Fresh
  pub blocks : Blocks
  pub stale : DelivElement

-- A process.
pub record Context : Type 0 where
  pub global_pid : ℕ
  pub local_pid : ℕ
  pub memory_register : MemoryRegister
  pub reg_requests : List RegRequest
  pub local_deliveries : LocalDeliveryQueue

-- A node: its object `g_bsp`, the map of the processes, the processes by their local number, and the
-- memory.
pub record Node : Type 0 where
  pub bsp : BspObject
  pub mapper : TaskMapper
  pub contexts : Array Context
  pub memory : Array ℕ

abbrev pub with_local : Node → ℕ → LocalDeliveryQueue → Node
with_local node i q = record node {
  contexts = update node.contexts i (record (node.contexts i) { local_deliveries = q });
}

-- The constructor.
unfoldable pub make : Supply → Node → ℕ → Option ℕ → Run Node
unfolding Delivtable.reset Memreg.initialize LocalDelivery.make
make f node i none = fault
make f node i (some pid) =
    let bsp = node.bsp in
    ok (record node {
      bsp = record bsp {
        delivery_table = Delivtable.reset bsp.delivery_table;
        delivery_received_table = Delivtable.reset bsp.delivery_received_table;
      };
      contexts = update node.contexts i (record {
        global_pid = pid;
        local_pid = i;
        memory_register = Memreg.initialize f.blocks.addresses node.mapper.processors 1 pid;
        reg_requests = [];
        local_deliveries = LocalDelivery.make f.local;
      });
    })

-- Process `i` of the node resets the buffers.
unfoldable pub bsp_reset_buffers : Supply → Node → ℕ → Node
unfolding reset_buffers resetbuffers
bsp_reset_buffers f node i =
    let node' = with_local node i (reset_buffers f.local (node.contexts i).local_deliveries) in
    record node' { bsp = resetbuffers f.blocks node.bsp }

-- `memoryRegister_find (&memory_register, global_pid, pid, address) + offset`
abbrev pub remote_address : Node → ℕ → ℕ → ℕ → Run ℕ
unfolding Memreg.find
remote_address node i pid address =
    let c = node.contexts i in Memreg.find c.memory_register c.global_pid pid address

unfoldable pub bsp_put : Supply → Node → ℕ → ℕ → ℕ → ℕ → ℕ → ℕ → Run Node
unfolding Memreg.find global_to_node LocalDelivery.put buffer_put
bsp_put f node i pid src dst offset nbytes =
    let n = global_to_node node.mapper pid in
    Memreg.find (node.contexts i).memory_register (node.contexts i).global_pid pid dst >>= λ remote.
    ok (
      if node.bsp.rank == n
      then with_local node i (
          LocalDelivery.put f.local (node.contexts i).local_deliveries node.memory src
            (remote + offset) nbytes)
      else record node {
        bsp = with_delivery node.bsp (
            buffer_put f.blocks.slots f.stale node.memory node.bsp.delivery_table n src
              (remote + offset) nbytes);
      })

-- The request of a get from another node; its size and offset are `int`.
abbrev pub with_request : Supply → Node → ℕ → ℕ → ℕ → ℕ → ℕ → Node
unfolding Reqtable.push
with_request f node n src offset dst nbytes = record node {
  bsp = record node.bsp {
    request_table =
        Reqtable.push f.blocks.requests node.bsp.request_table n
          (record { size = u32 nbytes; offset = u32 offset; src = src; dst = dst });
  };
}

unfoldable pub bsp_get : Supply → Node → ℕ → ℕ → ℕ → ℕ → ℕ → ℕ → Run Node
unfolding Memreg.find global_to_node LocalDelivery.hpput with_request
bsp_get f node i pid src offset dst nbytes =
    let n = global_to_node node.mapper pid in
    Memreg.find (node.contexts i).memory_register (node.contexts i).global_pid pid src >>= λ remote.
    ok (
      if node.bsp.rank == n
      then with_local node i (
          LocalDelivery.hpput f.local (node.contexts i).local_deliveries (remote + offset) dst
            nbytes)
      else with_request f node n remote offset dst nbytes)

-- The copies are done at once if both processes are on this node.
unfoldable pub bsp_hpput : Supply → Node → ℕ → ℕ → ℕ → ℕ → ℕ → ℕ → Run Node
unfolding Memreg.find global_to_node buffer_put
bsp_hpput f node i pid src dst offset nbytes =
    let n = global_to_node node.mapper pid in
    Memreg.find (node.contexts i).memory_register (node.contexts i).global_pid pid dst >>= λ remote.
    ok (
      if node.bsp.rank == n
      then record node { memory = memcpy node.memory (remote + offset) node.memory src nbytes }
      else record node {
        bsp = with_delivery node.bsp (
            buffer_put f.blocks.slots f.stale node.memory node.bsp.delivery_table n src
              (remote + offset) nbytes);
      })

unfoldable pub bsp_hpget : Supply → Node → ℕ → ℕ → ℕ → ℕ → ℕ → ℕ → Run Node
unfolding Memreg.find global_to_node with_request
bsp_hpget f node i pid src offset dst nbytes =
    let n = global_to_node node.mapper pid in
    Memreg.find (node.contexts i).memory_register (node.contexts i).global_pid pid src >>= λ remote.
    ok (
      if node.bsp.rank == n
      then record node { memory = memcpy node.memory dst node.memory (remote + offset) nbytes }
      else with_request f node n remote offset dst nbytes)

-- The bytes of an `int`.
abbrev pub int_bytes : ℕ → Array ℕ
int_bytes n k = n / 256 ^ k % 256

abbrev pub int_size : ℕ
int_size = 4

-- The tag element of a message to another node.
abbrev pub send_element : DelivElement → ℕ → ℕ → DelivElement
send_element stale tag_nbytes payload_nbytes = record stale {
  size = u32 (u32 payload_nbytes + tag_nbytes + int_size);
  info = record stale.info { payload_size = u32 (u32 payload_nbytes + int_size) };
}

-- The message in column `column`: the tag, the local number of the receiver, and the payload.
unfoldable pub remote_send :
    Supply → Array ℕ → DeliveryTable → ℕ → ℕ → ℕ → ℕ → ℕ → ℕ → DeliveryTable
unfolding Delivtable.push Delivtable.fill
remote_send f memory t column lp tag tag_nbytes payload payload_nbytes =
    let element = send_element f.stale tag_nbytes payload_nbytes in
    let (pointer, pushed) = Delivtable.push f.blocks.slots t column element it_send in
    let numbered = Delivtable.fill pushed (8 * pointer + tag_nbytes) (int_bytes lp) 0 int_size in
    let tagged = Delivtable.fill numbered (8 * pointer) memory tag tag_nbytes in
    Delivtable.fill tagged (8 * pointer + (int_size + tag_nbytes)) memory payload payload_nbytes

unfoldable pub bsp_send : Supply → Node → ℕ → ℕ → ℕ → ℕ → Node
unfolding global_to_node global_to_local LocalDelivery.send remote_send
bsp_send f node pid tag payload payload_nbytes =
    let n = global_to_node node.mapper pid in
    let lp = global_to_local node.mapper pid in
    let tag_nbytes = node.bsp.message_queue.send_tag_size in
    if node.bsp.rank == n
    then with_local node lp (
        LocalDelivery.send f.local (node.contexts lp).local_deliveries node.memory tag tag_nbytes
          payload payload_nbytes)
    else record node {
      bsp = with_delivery node.bsp (
          remote_send f node.memory node.bsp.delivery_table n lp tag tag_nbytes payload
            payload_nbytes);
    }

-- The column of a message to another node is `pid` here, and not the node's number.
unfoldable pub bsp_hpsend : Supply → Node → ℕ → ℕ → ℕ → ℕ → Node
unfolding global_to_node global_to_local hpsend remote_send
bsp_hpsend f node pid tag payload payload_nbytes =
    let n = global_to_node node.mapper pid in
    let lp = global_to_local node.mapper pid in
    let tag_nbytes = node.bsp.message_queue.send_tag_size in
    if node.bsp.rank == n
    then with_local node lp
        (hpsend f.local (node.contexts lp).local_deliveries tag payload payload_nbytes)
    else record node {
      bsp = with_delivery node.bsp (
          remote_send f node.memory node.bsp.delivery_table pid lp tag tag_nbytes payload
            payload_nbytes);
    }
