-- ===== src/Context/Mailbox.antt =====
-- src/bsp_cpp/bsp_contextimpl.h: taking messages from the queue of a process.
-- A status of -1 is none.
use bsponmpi.Base.{ℕ, ◌*◌, Option, none, some, Array, memcpy, ltb, if◌then◌else◌}
use bsponmpi.MessageBuffer.{MessageBuffer, stored}
use bsponmpi.LocalDelivery.{
  Pointer, in_buffer, in_memory, bsmp_qsize, bsmp_move_bytes, bsmp_top_tag, bsmp_top_message,
  bsmp_top_size, bsmp_advance,
}
use bsponmpi.Bsmp
use bsponmpi.Context.{Supply, Node, with_local}

unfoldable pub bsp_qsize : Node → ℕ → ℕ × ℕ
unfolding bsmp_qsize bsmp_move_bytes
bsp_qsize node i = let q = (node.contexts i).local_deliveries in (bsmp_qsize q, bsmp_move_bytes q)

-- `memcpy (target, pointer, nbytes)`
abbrev pub copy_from : Array ℕ → MessageBuffer → ℕ → Pointer → ℕ → Array ℕ
copy_from memory b target (in_buffer word) nbytes =
    memcpy memory target (stored b) (8 * word) nbytes
copy_from memory b target (in_memory address) nbytes = memcpy memory target memory address nbytes

unfoldable pub bsp_get_tag : Node → ℕ → ℕ → Option ℕ × Node
unfolding bsmp_qsize bsmp_top_size bsmp_top_tag
bsp_get_tag node i tag =
    let q = (node.contexts i).local_deliveries in
    let size = node.bsp.message_queue.recv_tag_size in
    if ltb 0 (bsmp_qsize q)
    then (
      some (bsmp_top_size q),
      record node {
        memory = copy_from node.memory q.message_move_buffer tag (bsmp_top_tag q) size;
      },
    )
    else (none, node)

unfoldable pub bsp_move : Node → ℕ → ℕ → ℕ → Node
unfolding bsmp_qsize bsmp_top_message bsmp_advance
bsp_move node i target nbytes =
    let q = (node.contexts i).local_deliveries in
    let copied = copy_from node.memory q.message_move_buffer target (bsmp_top_message q) nbytes in
    if ltb 0 (bsmp_qsize q)
    then record (with_local node i (bsmp_advance q).1) { memory = copied }
    else node

unfoldable pub bsp_hpmove : Node → ℕ → Option (ℕ × Pointer × Pointer) × Node
unfolding bsmp_qsize bsmp_top_tag bsmp_top_message bsmp_top_size bsmp_advance
bsp_hpmove node i =
    let q = (node.contexts i).local_deliveries in
    if ltb 0 (bsmp_qsize q)
    then (
      some (bsmp_top_size q, bsmp_top_tag q, bsmp_top_message q),
      with_local node i (bsmp_advance q).1,
    )
    else (none, node)

unfoldable pub bsp_set_tagsize : Supply → Node → ℕ → ℕ × Node
unfolding Bsmp.set_tagsize
bsp_set_tagsize f node tag_nbytes =
    let (before, bsp) = Bsmp.set_tagsize f.blocks.slots f.stale node.bsp tag_nbytes in
    (before, record node { bsp = bsp })
