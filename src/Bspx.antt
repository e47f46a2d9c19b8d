-- ===== src/Bspx.antt =====
-- src/bspx.c: making the object of a processor, and its operations on registered memory.
-- `memory` is the processor's memory by byte address. `stale` is what a local variable holds
-- before it is assigned, and `fresh` what an allocated block holds. Offsets are not negative.
pub mod Put
pub mod Get
pub mod Deregister
pub mod Fixture
mod Tests
use bsponmpi.Base.{
  ℕ, zero, suc, ◌+◌, ◌-◌, ◌*◌, ◌%◌, ◌^◌, Option, none, some, Run, ok, abort, fault, ◌>>=◌, Array,
  memcpy, u32, min_of, ltb, ◌==◌, if◌then◌else◌,
}
use bsponmpi.Exptable.{column}
use bsponmpi.Memreg
use bsponmpi.Memreg.{MemoryRegister}
use bsponmpi.Delivtable
use bsponmpi.Delivtable.{
  Slot, DInfo, DelivInfo, DelivElement, DeliveryTable, ItemType, it_popreg, it_pushreg, it_put,
  it_send, it_settag, tag_size, byte,
}
use bsponmpi.Reqtable
use bsponmpi.Reqtable.{ReqElement, RequestTable}
use bsponmpi.Mesgqueue
use bsponmpi.Mesgqueue.{MessageQueue}
use bsponmpi.Private.{GlobalArray, BspObject, with_delivery}

-- BSP_DELIVTAB_MIN_SIZE, BSP_REQTAB_MIN_SIZE and BSP_MEMREG_MIN_SIZE of include/bsp.h
abbrev pub delivtab_min_size : ℕ
delivtab_min_size = 256 * 8

abbrev pub reqtab_min_size : ℕ
reqtab_min_size = 256

abbrev pub memreg_min_size : ℕ
memreg_min_size = 1

-- What the blocks that a processor allocates hold.
pub record Blocks : Type 0 where
  pub slots : Array Slot
  pub pointers : DelivInfo
  pub requests : Array ReqElement
  pub addresses : Array ℕ

-- `global_arrays` is not assigned; `before` is the object that is passed in.
unfoldable pub init_bspobject : Blocks → BspObject → ℕ → ℕ → BspObject
unfolding Memreg.initialize Mesgqueue.initialize Delivtable.initialize Reqtable.initialize
init_bspobject b before nprocs rank = record before {
  nprocs = nprocs;
  rank = rank;
  memory_register = Memreg.initialize b.addresses nprocs memreg_min_size rank;
  message_queue = Mesgqueue.initialize;
  delivery_table = Delivtable.initialize b.slots b.pointers nprocs delivtab_min_size;
  request_table = Reqtable.initialize b.requests nprocs reqtab_min_size;
  delivery_received_table = Delivtable.initialize b.slots b.pointers nprocs delivtab_min_size;
  request_received_table = Reqtable.initialize b.requests nprocs reqtab_min_size;
  global_array_last = 0;
  global_overflow = 0;
}

unfoldable pub resetbuffers : Blocks → BspObject → BspObject
unfolding Reqtable.resetrowcount Delivtable.resetrowcount Mesgqueue.sync
resetbuffers b bsp = record bsp {
  request_table = Reqtable.resetrowcount b.requests bsp.request_table reqtab_min_size;
  request_received_table =
      Reqtable.resetrowcount b.requests bsp.request_received_table reqtab_min_size;
  delivery_table = Delivtable.resetrowcount b.slots bsp.delivery_table delivtab_min_size;
  delivery_received_table =
      Delivtable.resetrowcount b.slots bsp.delivery_received_table delivtab_min_size;
  message_queue = Mesgqueue.sync bsp.message_queue;
}

-- `element.size = 0; element.info.push.address = ident;`
abbrev pub push_reg_element : DelivElement → ℕ → DelivElement
push_reg_element stale ident = record stale {
  size = 0;
  info = record stale.info { push_address = ident };
}

-- The loop of push_reg, for the columns below `n`.
unfoldable pub push_reg_loop : ℕ → Array Slot → DelivElement → DeliveryTable → DeliveryTable
unfolding Delivtable.push
push_reg_loop zero fresh element t = t
push_reg_loop (suc i) fresh element t =
    (Delivtable.push fresh (push_reg_loop i fresh element t) i element it_pushreg).1

unfoldable pub push_reg : Array Slot → DelivElement → BspObject → ℕ → BspObject
unfolding push_reg_loop
push_reg fresh stale bsp ident =
    with_delivery bsp
      (push_reg_loop bsp.nprocs fresh (push_reg_element stale ident) bsp.delivery_table)

unfoldable pub pop_reg : Array Slot → DelivElement → BspObject → ℕ → BspObject
unfolding Delivtable.push
pop_reg fresh stale bsp ident =
    let element = record stale { size = 0; info = record stale.info { pop_address = ident } } in
    with_delivery bsp (Delivtable.push fresh bsp.delivery_table bsp.rank element it_popreg).1

-- The tag of a put to the remote address `dst`.
abbrev pub put_element : DelivElement → ℕ → ℕ → DelivElement
put_element stale dst nbytes = record stale {
  size = u32 nbytes;
  info = record stale.info { put_dst = dst };
}

-- The buffering of a put, once the remote address is known.
unfoldable pub buffer_put :
    Array Slot → DelivElement → Array ℕ → DeliveryTable → ℕ → ℕ → ℕ → ℕ → DeliveryTable
unfolding Delivtable.push Delivtable.fill
buffer_put fresh stale memory t pid src dst nbytes =
    let (pointer, t') = Delivtable.push fresh t pid (put_element stale dst nbytes) it_put in
    Delivtable.fill t' (8 * pointer) memory src nbytes

unfoldable pub put :
    Array Slot → DelivElement → Array ℕ → BspObject → ℕ → ℕ → ℕ → ℕ → ℕ → Run BspObject
unfolding Memreg.memoized_find buffer_put
put fresh stale memory bsp pid src dst offset nbytes =
    Memreg.memoized_find bsp.memory_register pid dst >>= λ remote. ok (
      with_delivery bsp
        (buffer_put fresh stale memory bsp.delivery_table pid src (remote + offset) nbytes))

-- The offset, a `long int`, is narrowed to an `int`.
unfoldable pub get : Array ReqElement → BspObject → ℕ → ℕ → ℕ → ℕ → ℕ → Run BspObject
unfolding Memreg.memoized_find Reqtable.push
get fresh bsp pid src offset dst nbytes =
    Memreg.memoized_find bsp.memory_register pid src >>= λ remote. ok (record bsp {
      request_table =
          Reqtable.push fresh bsp.request_table pid
            (record { size = u32 nbytes; offset = u32 offset; src = remote; dst = dst });
    })

-- The high performance operations are the buffered ones.
unfoldable pub hpput :
    Array Slot → DelivElement → Array ℕ → BspObject → ℕ → ℕ → ℕ → ℕ → ℕ → Run BspObject
unfolding put
hpput fresh stale memory bsp pid src dst offset nbytes =
    put fresh stale memory bsp pid src dst offset nbytes

unfoldable pub hpget : Array ReqElement → BspObject → ℕ → ℕ → ℕ → ℕ → ℕ → Run BspObject
unfolding get
hpget fresh bsp pid src offset dst nbytes = get fresh bsp pid src offset dst nbytes
