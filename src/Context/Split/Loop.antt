-- ===== src/Context/Split/Loop.antt =====
-- The loop hands the messages over one after the other, and ends.
use bsponmpi.Base.{
  ℕ, zero, suc, ◌+◌, ◌*◌, ◌^◌, ◌<◌, ◌≡◌, ◌∙◌, refl, ap, arith, some, ok, ◌>>=◌, Array, List, [],
  ◌∷◌, true, false, ◌==◌,
}
use bsponmpi.Delivtable.{Slot, tag_size}
use bsponmpi.Mesgqueue.{MessageQueue}
use bsponmpi.Private.{BspObject}
use bsponmpi.Bsmp.{hpmove, hpmove_at, dequeue}
use bsponmpi.Context.{Supply, Node}
use bsponmpi.Context.Split.{dispatch, split, continue_with}

-- The sizes and pointers of `n` messages from slot `head` on.
unfoldable pub upcoming : Array Slot → ℕ → ℕ → ℕ → List (ℕ × ℕ × ℕ)
upcoming block tagsize head zero = []
upcoming block tagsize head (suc n) =
    ((block head).tag.info.payload_size, 8 * (head + tag_size), 8 * (head + tag_size) + tagsize)
    ∷ upcoming block tagsize (head + (block head).tag.next) n

unfoldable pub dispatch_all : Supply → ℕ → List (ℕ × ℕ × ℕ) → Node → Node
unfolding dispatch
dispatch_all f base [] node = node
dispatch_all f base (m ∷ l) node = dispatch_all f base l (dispatch f base m node)

abbrev pub with_queue : Node → MessageQueue → Node
with_queue node q = record node { bsp = record node.bsp { message_queue = q } }

module _ (f : Supply) (base : ℕ) where
  -- Handing messages over neither reads nor changes the queue of the node.
  dispatch_all-with_queue :
      (l : List (ℕ × ℕ × ℕ)) (node : Node) (q : MessageQueue)
      → dispatch_all f base l (with_queue node q) ≡ with_queue (dispatch_all f base l node) q
  unfolding dispatch_all dispatch
  dispatch_all-with_queue [] node q = refl
  dispatch_all-with_queue (m ∷ l) node q = dispatch_all-with_queue l (dispatch f base m node) q

  abbrev ahead_of : Node → ℕ → ℕ → List (ℕ × ℕ × ℕ)
  ahead_of node head n =
      upcoming node.bsp.delivery_received_table.data_block node.bsp.message_queue.recv_tag_size head
        n

  dispatch-bsp : (m : ℕ × ℕ × ℕ) (node : Node) → (dispatch f base m node).bsp ≡ node.bsp
  unfolding dispatch
  dispatch-bsp m node = refl

  dispatch-with_queue :
      (m : ℕ × ℕ × ℕ) (node : Node) (q : MessageQueue)
      → dispatch f base m (with_queue node q) ≡ with_queue (dispatch f base m node) q
  unfolding dispatch
  dispatch-with_queue m node q = refl

  -- The first of the messages, and the queue behind it.
  abbrev first_message : Node → ℕ → ℕ × ℕ × ℕ
  first_message node head = (
    (node.bsp.delivery_received_table.data_block head).tag.info.payload_size,
    8 * (head + tag_size),
    8 * (head + tag_size) + node.bsp.message_queue.recv_tag_size,
  )

  abbrev queue_behind : Node → ℕ → MessageQueue
  queue_behind node head =
      (dequeue node.bsp head
        (node.bsp.delivery_received_table.data_block head).tag.info.payload_size).message_queue

  moved_lem :
      (n : ℕ) (node : Node) (head : ℕ)
      → node.bsp.message_queue.n_mesg ≡ suc n
      → node.bsp.message_queue.head ≡ some head
      → hpmove node.bsp
        ≡ ok (some (first_message node head), (with_queue node (queue_behind node head)).bsp)
  unfolding hpmove
  moved_lem n node head e h =
      let more : (node.bsp.message_queue.n_mesg == 0) ≡ false = ground arith in
      rw more (ap (hpmove_at node.bsp) h)

  -- A round that finds no message.
  last_lem : (node : Node) → node.bsp.message_queue.n_mesg ≡ 0 → split 1 f base node ≡ ok node
  unfolding split hpmove
  last_lem node e =
      let empty : (node.bsp.message_queue.n_mesg == 0) ≡ true = ground arith in rw empty refl

  -- A round that takes a message.
  split_step :
      (fuel n : ℕ) (node : Node) (head : ℕ)
      → node.bsp.message_queue.n_mesg ≡ suc n
      → node.bsp.message_queue.head ≡ some head
      → split (suc fuel) f base node
        ≡ split fuel f base
            (dispatch f base (first_message node head) (with_queue node (queue_behind node head)))
  unfolding split
  split_step fuel n node head e h =
      ap
        (λ r. r >>= λ moved.
          continue_with moved.0
            (λ m. split fuel f base (dispatch f base m (record node { bsp = moved.1 })))
            (record node { bsp = moved.1 }))
        (moved_lem n node head e h)

  -- With less than 2^32 messages in the queue of the node, whose head is set, the loop that hands
  -- them to the processes ends within one round more than there are messages; it hands over the
  -- messages from the head on, in the order in which they are linked, and leaves no message in the
  -- queue of the node.
  pub split_lem :
      (n : ℕ) (node : Node) (head : ℕ)
      → node.bsp.message_queue.n_mesg ≡ n
      → n < 2 ^ 32
      → node.bsp.message_queue.head ≡ some head
      → (q : MessageQueue) × (split (suc n) f base node
          ≡ ok (with_queue (dispatch_all f base (ahead_of node head n) node) q))
        × (q.n_mesg ≡ 0)
  unfolding upcoming dispatch_all
  split_lem zero node head e small h = (node.bsp.message_queue, last_lem node e, e)
  split_lem (suc n) node head e small h =
      let m = first_message node head in
      let q1 = queue_behind node head in
      let head' = head + (node.bsp.delivery_received_table.data_block head).tag.next in
      let node' = with_queue (dispatch f base m node) q1 in
      let (q, run, none_left) =
        split_lem n node' head' (omega (arith, e, small)) (omega arith) refl in
      (
        q,
        split_step (suc n) n node head e h
            ∙ ap (split (suc n) f base) (dispatch-with_queue m node q1)
            ∙ run
            ∙ ap (λ x. ok (with_queue x q))
                (dispatch_all-with_queue (ahead_of node' head' n) (dispatch f base m node) q1)
            ∙ ap
                (λ (b : BspObject). ok (
                  with_queue
                    (dispatch_all f base
                      (upcoming b.delivery_received_table.data_block
                        node.bsp.message_queue.recv_tag_size head' n)
                      (dispatch f base m node))
                    q))
                (dispatch-bsp m node),
        none_left,
      )
