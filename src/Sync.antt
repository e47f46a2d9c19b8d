-- ===== src/Sync.antt =====
-- src/bspx.c: bspx_sync, the end of a superstep.
-- The two communicators are parameters: `infocomm` makes the content of the receive index from the
-- send index, the byte count and the receive buffer, and `communicator`, here one function for each
-- type of slot, what is received (see Exptable.comm). `index` is what the two index arrays hold
-- before. An index is an array of words, three for each processor. `memory`, `stale` and the content
-- of allocated blocks are as in Bspx.
pub mod Received
pub mod Whole
pub mod Sequential
mod Tests
use Prim.Native.Nat.{bit_or}
use bsponmpi.Base.{
  ℕ, zero, suc, ◌+◌, ◌*◌, Run, ok, ◌>>=◌, Array, update, max_of, u32, ltb, ◌==◌, if◌then◌else◌,
}
use bsponmpi.Exptable
use bsponmpi.Exptable.{array_max}
use bsponmpi.Memreg
use bsponmpi.Delivtable
use bsponmpi.Delivtable.{Slot, DelivElement, DeliveryTable}
use bsponmpi.Reqtable
use bsponmpi.Reqtable.{ReqElement, RequestTable}
use bsponmpi.Mesgqueue
use bsponmpi.Execute
use bsponmpi.Private.{BspObject}
use bsponmpi.Bspx.{Blocks}

-- BSPX_CommFn on blocks of slots; counts and offsets are `int`, kept as patterns of 32 bits
abbrev pub CommFn : Type 0 → Type 0
CommFn A = Array A → Array ℕ → Array ℕ → Array A → Array ℕ → Array ℕ → Array A

pub record Network : Type 0 where
  pub infocomm : Array ℕ → ℕ → Array ℕ → ℕ → Array ℕ
  pub requests : CommFn ReqElement
  pub deliveries : CommFn Slot
  pub index : Array ℕ

-- The disjunction of every `stride`th word from `first` on, `n` of them.
unfoldable pub any_of : ℕ → Array ℕ → ℕ → ℕ → ℕ
any_of zero words stride first = 0
any_of (suc p) words stride first =
    bit_or (any_of p words stride first) (words (stride * p + first))

-- The loop that fills the send index.
unfoldable pub fill_index : ℕ → BspObject → ℕ → Array ℕ → Array ℕ
fill_index zero bsp any_gets index = index
fill_index (suc p) bsp any_gets index =
    update
      (update
        (update (fill_index p bsp any_gets index) (3 * p) (bsp.request_table.used_slot_count p))
        (3 * p + 1) (bsp.delivery_table.used_slot_count p))
      (3 * p + 2) any_gets

-- The number of slots that arrive from `p`: those that it announces and those of its replies.
abbrev pub expected : RequestTable → Array ℕ → ℕ → ℕ
expected requests recv_index p = u32 (recv_index (1 + 3 * p) + requests.info.data_sizes p)

unfoldable pub max_rows : ℕ → RequestTable → Array ℕ → ℕ
max_rows zero requests recv_index = 0
max_rows (suc p) requests recv_index =
    max_of (expected requests recv_index p) (max_rows p requests recv_index)

-- The loop that copies the counts to the received tables.
unfoldable pub set_request_counts : ℕ → Array ℕ → RequestTable → RequestTable
set_request_counts zero recv_index t = t
set_request_counts (suc p) recv_index t =
    let t' = set_request_counts p recv_index t in
    record t' { used_slot_count = update t'.used_slot_count p (recv_index (3 * p)) }

unfoldable pub set_delivery_counts : ℕ → RequestTable → Array ℕ → DeliveryTable → DeliveryTable
set_delivery_counts zero requests recv_index t = t
set_delivery_counts (suc p) requests recv_index t =
    let t' = set_delivery_counts p requests recv_index t in
    record t' { used_slot_count = update t'.used_slot_count p (expected requests recv_index p) }

-- The received tables before the exchange, with room for what arrives.
unfoldable pub room_for_requests : Array ReqElement → Array ℕ → ℕ → RequestTable → RequestTable
unfolding Reqtable.expand Reqtable.reset
room_for_requests fresh recv_index nprocs received =
    let t = Reqtable.reset received in
    let rows = array_max recv_index (3 * nprocs) 3 in
    set_request_counts nprocs recv_index
      (if ltb t.rows rows then Reqtable.expand fresh t (max_of t.rows rows) else t)

unfoldable pub room_for_deliveries :
    Array Slot → RequestTable → Array ℕ → ℕ → DeliveryTable → DeliveryTable
unfolding Delivtable.expand Delivtable.reset max_rows set_delivery_counts
room_for_deliveries fresh requests recv_index nprocs received =
    let t = Delivtable.reset received in
    let rows = max_rows nprocs requests recv_index in
    set_delivery_counts nprocs requests recv_index
      (if ltb t.rows rows then Delivtable.expand fresh t (max_of t.rows rows) else t)

-- What infocomm delivers.
unfoldable pub exchange_index : Network → BspObject → Array ℕ
unfolding any_of fill_index
exchange_index net bsp =
    let any_gets = any_of bsp.nprocs bsp.request_table.used_slot_count 1 0 in
    net.infocomm (fill_index bsp.nprocs bsp any_gets net.index) 12 net.index 12

-- The exchange of the requests, if there are any, and their execution: the received and the sent
-- requests and the delivery table after it.
unfoldable pub exchange_requests :
    Blocks
    → DelivElement
    → Network
    → Array ℕ
    → BspObject
    → Array ℕ
    → RequestTable × RequestTable × DeliveryTable
unfolding any_of room_for_requests Exptable.comm Reqtable.execute
exchange_requests b stale net recv_index bsp memory =
    let received = room_for_requests b.requests recv_index bsp.nprocs bsp.request_received_table in
    let (sent, arrived) = Exptable.comm bsp.request_table received net.requests in
    if any_of bsp.nprocs recv_index 3 2 == 0
    then (received, bsp.request_table, bsp.delivery_table)
    else (arrived, sent, Reqtable.execute b.slots stale memory arrived bsp.delivery_table)

-- The exchange of the deliveries.
unfoldable pub exchange_deliveries :
    Blocks → Network → Array ℕ → BspObject → DeliveryTable → DeliveryTable × DeliveryTable
unfolding room_for_deliveries Exptable.comm
exchange_deliveries b net recv_index bsp deliveries =
    Exptable.comm deliveries
      (room_for_deliveries b.slots bsp.request_table recv_index bsp.nprocs
        bsp.delivery_received_table)
      net.deliveries

unfoldable pub sync :
    Blocks → DelivElement → Network → BspObject → Array ℕ → Run (BspObject × Array ℕ)
unfolding exchange_index exchange_requests exchange_deliveries Mesgqueue.sync Execute.execute
    Reqtable.reset Delivtable.reset Memreg.pack
sync b stale net bsp memory =
    let recv_index = exchange_index net bsp in
    let (requests_in, requests, deliveries) = exchange_requests b stale net recv_index bsp memory in
    let (sent, arrived) = exchange_deliveries b net recv_index bsp deliveries in
    Execute.execute b.addresses arrived bsp.memory_register (Mesgqueue.sync bsp.message_queue)
      bsp.rank memory
    >>= λ done. ok (
      record bsp {
        request_received_table = requests_in;
        request_table = Reqtable.reset requests;
        delivery_received_table = done.table;
        delivery_table = Delivtable.reset sent;
        message_queue = done.mesgq;
        memory_register = Memreg.pack done.memreg;
      },
      done.memory,
    )
