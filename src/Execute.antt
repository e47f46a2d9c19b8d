-- ===== src/Execute.antt =====
-- src/bsp_delivtable.c: deliveryTable_execute, which performs the actions of a received table.
-- `memory` is the processor's memory by byte address; the received table is not part of it. A
-- pointer into the block is the number of its slot.
pub mod Actions
pub mod Kept
pub mod Columns
pub mod Whole
mod Tests
use bsponmpi.Base.{
  ℕ, zero, suc, ◌+◌, ◌-◌, ◌*◌, ◌/◌, ◌%◌, ◌^◌, ◌<◌, Option, none, some, Run, ok, ◌>>=◌, Array,
  memcpy, u32, ltb, if◌then◌else◌,
}
use bsponmpi.Exptable.{column}
use bsponmpi.Memreg
use bsponmpi.Memreg.{MemoryRegister}
use bsponmpi.Delivtable.{
  Slot, DeliveryTable, ItemType, it_popreg, it_pushreg, it_put, it_send, it_settag, tag_size, byte,
  start_of, count_of, write_next,
}
use bsponmpi.Mesgqueue.{MessageQueue}

-- The loop over `n` puts from slot `pointer` on.
unfoldable pub do_puts : ℕ → Array Slot → ℕ → Array ℕ → Array ℕ
do_puts zero block pointer memory = memory
do_puts (suc n) block pointer memory =
    let element = (block pointer).tag in
    do_puts n block (pointer + element.next)
      (memcpy memory element.info.put_dst (byte block) (8 * (pointer + tag_size)) element.size)

-- The loop over `n` registrations by processor `p`.
unfoldable pub do_push_regs : ℕ → Array ℕ → Array Slot → ℕ → ℕ → MemoryRegister → MemoryRegister
unfolding Memreg.push
do_push_regs zero fresh block pointer p memreg = memreg
do_push_regs (suc n) fresh block pointer p memreg =
    let element = (block pointer).tag in
    do_push_regs n fresh block (pointer + element.next) p
      (Memreg.push fresh memreg p element.info.push_address)

-- The loop over `n` messages, which leaves the last one in `message`.
unfoldable pub gather : ℕ → Array Slot → ℕ → Option ℕ → MessageQueue → Option ℕ × MessageQueue
gather zero block pointer message mesgq = (message, mesgq)
gather (suc n) block pointer message mesgq =
    let element = (block pointer).tag in
    gather n block (pointer + element.next) (some pointer) (record mesgq {
      accum_size = u32 (mesgq.accum_size + element.size);
      n_mesg = u32 (mesgq.n_mesg + 1);
    })

-- `message->next = ((unsigned long) pointer - (unsigned long) message) / 8`, if there is a message.
unfoldable pub relink : Option ℕ → ℕ → Array Slot → Array Slot
unfolding write_next
relink none pointer block = block
relink (some message) pointer block =
    write_next block message (u32 ((8 * pointer + 2 ^ 64 - 8 * message) % 2 ^ 64 / 8))

-- The state of the loop over the columns.
pub record Progress : Type 0 where
  pub memory : Array ℕ
  pub memreg : MemoryRegister
  pub mesgq : MessageQueue
  pub block : Array Slot
  pub message : Option ℕ

-- The table as the loop has changed it.
abbrev pub table_now : DeliveryTable → Array Slot → DeliveryTable
table_now table block = record table { data_block = block }

-- The slot of the first action of a type in column `p`.
abbrev pub first_of : DeliveryTable → ℕ → ItemType → ℕ
first_of table p type = column table.rows p + start_of table p type

-- One round of the loop.
unfoldable pub execute_column : Array ℕ → DeliveryTable → ℕ → Progress → Progress
unfolding do_puts do_push_regs gather relink
execute_column fresh table p s =
    let t = table_now table s.block in
    let block = relink s.message (first_of t p it_send) s.block in
    let t' = table_now table block in
    let (message, mesgq) =
      gather (count_of t' p it_send) block (first_of t p it_send) s.message s.mesgq in
    record {
      memory = do_puts (count_of t p it_put) s.block (first_of t p it_put) s.memory;
      memreg =
          do_push_regs (count_of t p it_pushreg) fresh s.block (first_of t p it_pushreg) p s.memreg;
      mesgq = mesgq;
      block = block;
      message = message;
    }

-- The loop over the columns below `n`.
unfoldable pub execute_columns : ℕ → Array ℕ → DeliveryTable → Progress → Progress
unfolding execute_column
execute_columns zero fresh table s = s
execute_columns (suc p) fresh table s =
    execute_column fresh table p (execute_columns p fresh table s)

-- The loop over `n` deregistrations.
unfoldable pub do_pop_regs : ℕ → Array Slot → ℕ → ℕ → MemoryRegister → Run MemoryRegister
unfolding Memreg.pop
do_pop_regs zero block pointer rank memreg = ok memreg
do_pop_regs (suc n) block pointer rank memreg =
    let element = (block pointer).tag in
    Memreg.pop memreg rank element.info.pop_address >>= λ memreg'.
    do_pop_regs n block (pointer + element.next) rank memreg'

-- The loop over `n` changes of the tag size.
unfoldable pub do_set_tags : ℕ → Array Slot → ℕ → MessageQueue → MessageQueue
do_set_tags zero block pointer mesgq = mesgq
do_set_tags (suc n) block pointer mesgq =
    let element = (block pointer).tag in
    do_set_tags n block (pointer + element.next)
      (record mesgq { send_tag_size = element.info.tag_size })

-- The search for the first message, over `n` columns from `p` on. Without one, `head` stays.
unfoldable pub find_head : ℕ → ℕ → DeliveryTable → Option ℕ → Option ℕ
find_head zero p table head = head
find_head (suc n) p table head =
    let rest = find_head n (p + 1) table head in
    if ltb 0 (count_of table p it_send) then some (first_of table p it_send) else rest

-- What deliveryTable_execute changes.
pub record Executed : Type 0 where
  pub table : DeliveryTable
  pub memreg : MemoryRegister
  pub mesgq : MessageQueue
  pub memory : Array ℕ

-- `deliveryTable_execute`
unfoldable pub execute :
    Array ℕ → DeliveryTable → MemoryRegister → MessageQueue → ℕ → Array ℕ → Run Executed
unfolding execute_columns do_pop_regs do_set_tags find_head
execute fresh table memreg mesgq rank memory =
    let s = execute_columns table.nprocs fresh table (record {
      memory = memory;
      memreg = memreg;
      mesgq = mesgq;
      block = table.data_block;
      message = none;
    }) in
    let t = table_now table s.block in
    do_pop_regs (count_of t rank it_popreg) s.block (first_of t rank it_popreg) rank s.memreg
    >>= λ popped.
        let tagged =
          do_set_tags (count_of t rank it_settag) s.block (first_of t rank it_settag) s.mesgq in
        ok (record {
          table = t;
          memreg = popped;
          mesgq = record tagged { head = find_head table.nprocs 0 t tagged.head };
          memory = s.memory;
        })
