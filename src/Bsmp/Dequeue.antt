-- ===== src/Bsmp/Dequeue.antt =====
-- Taking messages off the queue.
use bsponmpi.Base.{
  false, ℕ, suc, ◌+◌, ◌-◌, ◌*◌, ◌^◌, ◌<◌, ◌≡◌, ◌∙◌, refl, sym, ap, arith, Option, none, some, ok,
  Array, memcpy, u32, widen, widen_lem, min_of, List, [], ◌∷◌, length, ◌==◌,
}
use bsponmpi.Delivtable.{Slot, byte, tag_size}
use bsponmpi.Delivtable.Chain.{positions, length-positions}
use bsponmpi.Private.{BspObject}
use bsponmpi.Bsmp.{dequeue, tag_at, get_tag, hpmove_at, move, hpmove}

-- The slots of the messages that are still in the queue, the next one first.
abbrev pub positions_from : BspObject → Option ℕ → List ℕ
positions_from bsp none = []
positions_from bsp (some head) =
    positions (λ i. (bsp.delivery_received_table.data_block i).tag.next) head
      bsp.message_queue.n_mesg

abbrev pub pending : BspObject → List ℕ
pending bsp = positions_from bsp bsp.message_queue.head

-- The bytes of these messages, tags included.
unfoldable pub total_size : Array Slot → List ℕ → ℕ
total_size block [] = 0
total_size block (p ∷ l) = (block p).tag.size + total_size block l

-- The counters agree with the messages, and do not overflow.
pub record IsQueued (bsp : BspObject) : Type 0 where
  pub number : bsp.message_queue.n_mesg ≡ length (pending bsp)
  pub bytes :
      bsp.message_queue.accum_size ≡ total_size bsp.delivery_received_table.data_block (pending bsp)
  pub small : bsp.message_queue.n_mesg < 2 ^ 32
  pub small_bytes : bsp.message_queue.accum_size < 2 ^ 32

module _ (bsp : BspObject) (q : IsQueued bsp) (head k : ℕ)
    (first : bsp.message_queue.head ≡ some head) (many : bsp.message_queue.n_mesg ≡ suc k) where
  abbrev block : Array Slot
  block = bsp.delivery_received_table.data_block

  abbrev next : Array ℕ
  next i = (block i).tag.next

  -- The messages behind the first one.
  abbrev pub rest : List ℕ
  rest = positions next (head + next head) k

  pending_lem : pending bsp ≡ head ∷ rest
  unfolding positions
  pending_lem = ap (positions_from bsp) first ∙ ap (positions next head) many

  bytes_lem : bsp.message_queue.accum_size ≡ (block head).tag.size + total_size block rest
  unfolding total_size
  bytes_lem = q.bytes ∙ ap (total_size block) pending_lem

  -- Dequeueing with any size that the counter covers leaves the other messages.
  pending-dequeue : (size : ℕ) → pending (dequeue bsp head size) ≡ rest
  pending-dequeue size =
      let one_less : u32 (bsp.message_queue.n_mesg + (2 ^ 32 - 1)) ≡ k = omega (arith, q.small) in
      ap (positions next (head + next head)) one_less

  not_empty : (bsp.message_queue.n_mesg == 0) ≡ false
  not_empty = ground (arith, many)

  -- With a first message in a queue whose counters agree with its messages, a move of less than
  -- 2^32 bytes, of which less than 2^31 are to be copied, returns: it copies at most the requested
  -- number of bytes, bounded by the size of the message with its tag, from behind the tag, and
  -- leaves the other messages in their order with counters that agree with them.
  pub move_lem :
      (memory : Array ℕ) (payload nbytes : ℕ)
      → nbytes < 2 ^ 32
      → min_of nbytes (block head).tag.size < 2 ^ 31
      → (bsp' : BspObject) × (move memory bsp payload nbytes
          ≡ ok (
            memcpy memory payload
                (byte block)
                (8 * (head + tag_size) + bsp.message_queue.recv_tag_size)
                (min_of nbytes (block head).tag.size),
            bsp',
          ))
        × (pending bsp' ≡ rest)
        × IsQueued bsp'
  unfolding move
  move_lem memory payload nbytes small few =
      let exact : u32 nbytes ≡ nbytes = omega arith in
      let copied = min_of nbytes (block head).tag.size in
      let short : widen copied ≡ copied = widen_lem copied few in
      let left = pending-dequeue (block head).tag.size in
      (
        dequeue bsp head (block head).tag.size,
        rw (first, exact, short) refl,
        left,
        record {
          number = sym (length-positions next (head + next head) _);
          bytes = omega (arith, ap (total_size block) left, bytes_lem, q.small_bytes);
          small = omega (arith, q.small);
          small_bytes = omega arith;
        },
      )

  -- In a queue whose counters agree with its messages, with a first message whose size is its
  -- payload's and `tag_nbytes` more, an unbuffered move returns the payload size and pointers to
  -- the tag and the payload, and leaves the other messages in their order; the byte counter stays
  -- `tag_nbytes` above their total size.
  pub hpmove_lem :
      (tag_nbytes : ℕ)
      → (block head).tag.size ≡ tag_nbytes + (block head).tag.info.payload_size
      → (bsp' : BspObject) × (hpmove bsp
          ≡ ok (
            some (
              (block head).tag.info.payload_size,
              8 * (head + tag_size),
              8 * (head + tag_size) + bsp.message_queue.recv_tag_size,
            ),
            bsp',
          ))
        × (pending bsp' ≡ rest)
        × (bsp'.message_queue.accum_size ≡ tag_nbytes + total_size block rest)
  unfolding hpmove
  hpmove_lem tag_nbytes e = (
    dequeue bsp head (block head).tag.info.payload_size,
    rw not_empty (ap (hpmove_at bsp) first),
    pending-dequeue (block head).tag.info.payload_size,
    omega (arith, bytes_lem, q.small_bytes),
  )

  -- For a first message whose size is its payload's and `tag_nbytes` more, get_tag copies the tag
  -- and reports as status the size of the payload and the tag together.
  pub get_tag_lem :
      (memory : Array ℕ) (tag tag_nbytes : ℕ)
      → (block head).tag.size ≡ tag_nbytes + (block head).tag.info.payload_size
      → get_tag memory bsp tag
        ≡ ok (
          some (tag_nbytes + (block head).tag.info.payload_size),
          memcpy memory tag (byte block) (8 * (head + tag_size)) bsp.message_queue.recv_tag_size,
        )
  unfolding get_tag
  get_tag_lem memory tag tag_nbytes e = rw not_empty (
      ap (tag_at memory bsp tag) first
      ∙ ap
          (λ n. ok (
            some n,
            memcpy memory tag (byte block) (8 * (head + tag_size)) bsp.message_queue.recv_tag_size,
          ))
          e)
