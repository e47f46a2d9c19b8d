-- ===== src/LocalDelivery/Messages.antt =====
-- Messages between the processes of a node: sent in one superstep, read in the next.
use bsponmpi.Base.{
  ℕ, ◌+◌, ◌*◌, ◌%◌, ◌^◌, ◌≤◌, ◌<◌, ◌≡◌, ◌∙◌, refl, sym, ap, ap₂, arith, Bool, true, false,
  Bool-cases, inl, inr, ltb, Array, slice, List, [], ◌∷◌, ◌++◌, length, if◌then◌else◌,
}
use bsponmpi.HeaderQueue
use bsponmpi.HeaderQueue.{HeaderQueue, is_empty, enqueue, reset}
use bsponmpi.HeaderQueue.Fifo.{
  IsQueue, items, Grows, add, add-IsQueue, items-add, items-next, qsize_lem, reset-IsQueue,
}
use bsponmpi.MessageBuffer.{MessageBuffer, buffer, stored, clear}
use bsponmpi.MessageBuffer.Blocks.{
  IsBuffer, buffer-IsBuffer, slice-before, slice-stored, clear-IsBuffer,
}
use bsponmpi.LocalDelivery.{
  BsMessage, LocalDeliveryQueue, Fresh, Pointer, in_buffer, in_memory, send, hpsend,
  bsmp_top_message, bsmp_top_tag, bsmp_top_size, bsmp_advance, advanced, bsmp_messagequeue_sync,
  bsmp_qsize, bsmp_move_bytes,
}

-- What a pointer points to.
abbrev pub deref : Array ℕ → MessageBuffer → Pointer → ℕ → List ℕ
deref memory b (in_buffer o) n = slice (stored b) (8 * o) n
deref memory b (in_memory a) n = slice memory a n

-- A message as its receiver reads it.
pub record Mail : Type 0 where
  pub tag : List ℕ
  pub payload : List ℕ

abbrev pub point : Bool → ℕ → Pointer
point buffered a = if buffered then in_buffer a else in_memory a

module _ (tagsize : ℕ) where
  abbrev pub read : Array ℕ → MessageBuffer → BsMessage → Mail
  read memory b m = record {
    tag = deref memory b (point m.buffered m.tag) tagsize;
    payload = deref memory b (point m.buffered m.src) m.nbytes;
  }

  abbrev pub mail : Array ℕ → MessageBuffer → List BsMessage → List Mail
  mail memory b [] = []
  mail memory b (m ∷ l) = read memory b m ∷ mail memory b l

  -- The blocks of a buffered message lie in the part of the buffer that is in use.
  abbrev pub Inside : MessageBuffer → BsMessage → Type 0
  Inside b m =
      m.buffered ≡ true
      → (8 * m.src + m.nbytes ≤ 8 * b.storage_end) × (8 * m.tag + tagsize ≤ 8 * b.storage_end)

  abbrev pub AllInside : MessageBuffer → List BsMessage → Type 0
  AllInside b [] = Unit
  AllInside b (m ∷ l) = Inside b m × AllInside b l

  mail-append :
      (memory : Array ℕ) (b : MessageBuffer) (l m : List BsMessage)
      → mail memory b (l ++ m) ≡ mail memory b l ++ mail memory b m
  mail-append memory b [] m = refl
  mail-append memory b (x ∷ l) m = ap (◌∷◌ (read memory b x)) (mail-append memory b l m)

  AllInside-append :
      (b : MessageBuffer) (l m : List BsMessage)
      → AllInside b l
      → AllInside b m
      → AllInside b (l ++ m)
  AllInside-append b [] m h g = g
  AllInside-append b (x ∷ l) m h g = (h.0, AllInside-append b l m h.1 g)

  AllInside-grows :
      (b b' : MessageBuffer) (l : List BsMessage)
      → b.storage_end ≤ b'.storage_end
      → AllInside b l
      → AllInside b' l
  AllInside-grows b b' [] h g = tt
  AllInside-grows b b' (x ∷ l) h g =
      (λ e. let i = g.0 e in omega arith, AllInside-grows b b' l h g.1)

  -- Buffers that agree on the part in use hold the same mail.
  mail-kept :
      (memory : Array ℕ) (b b' : MessageBuffer) (l : List BsMessage)
      → ((a n : ℕ) → a + n ≤ 8 * b.storage_end → slice (stored b') a n ≡ slice (stored b) a n)
      → AllInside b l
      → mail memory b' l ≡ mail memory b l
  mail-kept memory b b' [] h g = refl
  mail-kept memory b b' (x ∷ l) h g = ap₂ ◌∷◌ (one x g.0) (mail-kept memory b b' l h g.1)
    where
      one : (m : BsMessage) → Inside b m → read memory b' m ≡ read memory b m
      one m i = elim (Bool-cases m.buffered) [
        | inl e ↦
            let (p, t) = i e in
            rw e (ap₂ (λ x y. record { tag = x; payload = y }) (h _ _ t) (h _ _ p))
        | inr e ↦ rw e refl
      ]

-- The bytes of the payloads.
unfoldable pub payload_size : List BsMessage → ℕ
payload_size [] = 0
payload_size (m ∷ l) = m.nbytes + payload_size l

payload_size-append :
    (l m : List BsMessage) → payload_size (l ++ m) ≡ payload_size l + payload_size m
unfolding payload_size
payload_size-append [] m = omega arith
payload_size-append (x ∷ l) m = omega (arith, payload_size-append l m)

-- One of the two queues with its buffer and its counter is in order.
pub record IsMailbox (tagsize : ℕ) (queue : HeaderQueue BsMessage) (b : MessageBuffer) (bytes : ℕ)
    : Type 0 where
  pub headers : IsQueue queue
  pub blocks : IsBuffer b
  pub inside : AllInside tagsize b (items queue)
  pub counted : bytes ≡ payload_size (items queue)
  pub small : bytes < 2 ^ 64

pub record IsMail (tagsize : ℕ) (q : LocalDeliveryQueue) : Type 0 where
  pub sending : IsMailbox tagsize q.message_send_queue q.message_send_buffer q.bytes_sent
  pub moving : IsMailbox tagsize q.message_move_queue q.message_move_buffer q.bytes_to_move

-- The mail that is sent in this superstep, and the mail that is left to be read.
abbrev pub sent : ℕ → Array ℕ → LocalDeliveryQueue → List Mail
sent tagsize memory q = mail tagsize memory q.message_send_buffer (items q.message_send_queue)

abbrev pub received : ℕ → Array ℕ → LocalDeliveryQueue → List Mail
received tagsize memory q = mail tagsize memory q.message_move_buffer (items q.message_move_queue)

module _ (f : Fresh) (q : LocalDeliveryQueue) (tagsize : ℕ) (v : IsMail tagsize q)
    (tag payload nbytes : ℕ) (grows : Grows q.message_send_queue)
    (few : q.bytes_sent + nbytes < 2 ^ 64) where
  abbrev s : IsMailbox tagsize q.message_send_queue q.message_send_buffer q.bytes_sent
  s = v.sending

  counted-add :
      (m : BsMessage)
      → m.nbytes ≡ nbytes
      → (q.bytes_sent + nbytes) % 2 ^ 64
        ≡ payload_size (items (add f.messages q.message_send_queue m))
  unfolding payload_size
  counted-add m e = omega (
    arith,
    s.counted,
    ap payload_size (items-add q.message_send_queue s.headers f.messages grows m),
    payload_size-append (items q.message_send_queue) (m ∷ []),
  )

  module _ (memory : Array ℕ)
      (room : q.message_send_buffer.storage_end + (nbytes + tagsize + 8) < 2 ^ 61) where
    abbrev first : MessageBuffer
    first = (buffer f.words q.message_send_buffer memory payload nbytes).1

    abbrev second : MessageBuffer
    second = (buffer f.words first memory tag tagsize).1

    abbrev header : BsMessage
    header = record {
      buffered = true;
      tag = first.storage_end;
      src = q.message_send_buffer.storage_end;
      nbytes = nbytes;
    }

    -- On a local delivery queue whose boxes are in order for the tag size, with room for one more
    -- header, whose buffer stays below 2^61 words and whose byte count stays below 2^64, a send
    -- returns with the boxes still in order; the messages that were sent are the earlier ones,
    -- unchanged, followed by one with the tag and the payload that memory holds now, whatever
    -- memory holds later; the messages to be received, with their buffer and their byte count, and
    -- the pending writes and copies stay.
    pub send_local_lem :
        (q' : LocalDeliveryQueue) × (send f q memory tag tagsize payload nbytes ≡ q')
        × IsMail tagsize q'
        × ((later : Array ℕ)
            → sent tagsize later q'
              ≡ sent tagsize later q
                ++ record { tag = slice memory tag tagsize; payload = slice memory payload nbytes }
                  ∷ [])
        × (q' ≡ record q {
          message_send_queue = q'.message_send_queue;
          message_send_buffer = q'.message_send_buffer;
          bytes_sent = q'.bytes_sent;
        })
    unfolding send
    send_local_lem =
        let (ordered, at, end_) =
          buffer-IsBuffer f.words q.message_send_buffer s.blocks memory payload nbytes
            (omega arith) in
        let (ordered', at', end') =
          buffer-IsBuffer f.words first ordered memory tag tagsize (omega (arith, end_)) in
        let same = items-add q.message_send_queue s.headers f.messages grows header in
        let kept = λ (a n : ℕ) (h : a + n ≤ 8 * q.message_send_buffer.storage_end).
          slice-before f.words first ordered memory tag tagsize (omega (arith, end_)) a n
            (omega (arith, end_))
          ∙ slice-before f.words q.message_send_buffer s.blocks memory payload nbytes (omega arith)
              a n h in
        let here =
          slice-before f.words first ordered memory tag tagsize (omega (arith, end_))
            (8 * q.message_send_buffer.storage_end) nbytes (omega (arith, end_))
          ∙ slice-stored f.words q.message_send_buffer s.blocks memory payload nbytes
              (omega arith) in
        let here' = slice-stored f.words first ordered memory tag tagsize (omega (arith, end_)) in
        (
          record q {
            message_send_queue = add f.messages q.message_send_queue header;
            message_send_buffer = second;
            bytes_sent = (q.bytes_sent + nbytes) % 2 ^ 64;
          },
          rw (at, at') refl,
          record {
            sending = record {
              headers = add-IsQueue q.message_send_queue s.headers f.messages grows header;
              blocks = ordered';
              inside = rw same (
                  AllInside-append tagsize second (items q.message_send_queue) (header ∷ [])
                    (AllInside-grows tagsize q.message_send_buffer second
                      (items q.message_send_queue) (omega (arith, end_, end')) s.inside)
                    (λ e. omega (arith, end_, end'), tt));
              counted = counted-add header refl;
              small = omega arith;
            };
            moving = v.moving;
          },
          λ later.
              ap (mail tagsize later second) same
              ∙ mail-append tagsize later second (items q.message_send_queue) (header ∷ [])
              ∙ ap₂ ◌++◌
                  (mail-kept tagsize later q.message_send_buffer second (items q.message_send_queue)
                    kept s.inside)
                  (ap₂ (λ x y. (record { tag = x; payload = y }) ∷ []) here' here),
          refl,
        )

  abbrev reference : BsMessage
  reference = record { buffered = false; tag = tag; src = payload; nbytes = nbytes }

  -- On a local delivery queue whose boxes are in order for the tag size, with room for one more
  -- header and a byte count that stays below 2^64, an unbuffered send returns with the boxes still
  -- in order and adds behind the earlier messages one whose tag and payload are those that memory
  -- holds when it is read; the messages to be received stay.
  pub hpsend_local_lem :
      (q' : LocalDeliveryQueue) × (hpsend f q tag payload nbytes ≡ q')
      × IsMail tagsize q'
      × ((later : Array ℕ)
          → sent tagsize later q'
            ≡ sent tagsize later q
              ++ record { tag = slice later tag tagsize; payload = slice later payload nbytes }
                ∷ [])
      × (q'.message_move_queue ≡ q.message_move_queue)
  unfolding hpsend
  hpsend_local_lem =
      let same = items-add q.message_send_queue s.headers f.messages grows reference in
      (
        record q {
          message_send_queue = add f.messages q.message_send_queue reference;
          bytes_sent = (q.bytes_sent + nbytes) % 2 ^ 64;
        },
        refl,
        record {
          sending = record {
            headers = add-IsQueue q.message_send_queue s.headers f.messages grows reference;
            blocks = s.blocks;
            inside = rw same (
                AllInside-append tagsize q.message_send_buffer (items q.message_send_queue)
                  (reference ∷ []) s.inside (λ e. cc, tt));
            counted = counted-add reference refl;
            small = omega arith;
          };
          moving = v.moving;
        },
        λ later.
            ap (mail tagsize later q.message_send_buffer) same
            ∙ mail-append tagsize later q.message_send_buffer (items q.message_send_queue)
                (reference ∷ []),
        refl,
      )

emptied-IsMailbox :
    (fresh : Array BsMessage) (words : Array (Array ℕ)) (tagsize : ℕ)
    (queue : HeaderQueue BsMessage) (b : MessageBuffer)
    → IsQueue queue
    → IsBuffer b
    → IsMailbox tagsize (reset fresh queue) (clear words b) 0 × (items (reset fresh queue) ≡ [])
unfolding payload_size
emptied-IsMailbox fresh words tagsize queue b v w =
    let (valid, none_left) = reset-IsQueue fresh queue v in
    (
      record {
        headers = valid;
        blocks = (clear-IsBuffer words b w).0;
        inside = rw none_left tt;
        counted = ap payload_size (sym none_left);
        small = omega arith;
      },
      none_left,
    )

-- On a local delivery queue whose boxes are in order, the synchronization makes the messages that
-- were sent those to be received, in their order, and drops the ones received before; none is left
-- to be sent, the boxes stay in order, and the byte count is that of the payloads.
pub sync_local_lem :
    (f : Fresh) (q : LocalDeliveryQueue) (tagsize : ℕ)
    → IsMail tagsize q
    → let q' = bsmp_messagequeue_sync f q in
      IsMail tagsize q'
      × ((memory : Array ℕ) → received tagsize memory q' ≡ sent tagsize memory q)
      × ((memory : Array ℕ) → sent tagsize memory q' ≡ [])
      × (bsmp_move_bytes q' ≡ payload_size (items q.message_send_queue))
unfolding bsmp_messagequeue_sync bsmp_move_bytes
sync_local_lem f q tagsize v =
    let (box, none_left) =
      emptied-IsMailbox f.messages f.words tagsize q.message_move_queue q.message_move_buffer
        v.moving.headers v.moving.blocks in
    (
      record { sending = box; moving = v.sending },
      λ memory. refl,
      λ memory. ap (mail tagsize memory (clear f.words q.message_move_buffer)) none_left,
      v.sending.counted,
    )

module _ (q : LocalDeliveryQueue) (tagsize : ℕ) (v : IsMail tagsize q)
    (some_left : 0 < bsmp_qsize q) where
  abbrev m : IsMailbox tagsize q.message_move_queue q.message_move_buffer q.bytes_to_move
  m = v.moving

  left : 0 < length (items q.message_move_queue)
  unfolding bsmp_qsize
  left = omega (arith, qsize_lem q.message_move_queue m.headers, some_left)

  abbrev top : BsMessage
  top = HeaderQueue.head q.message_move_queue

  split :
      (items q.message_move_queue ≡ top ∷ items (HeaderQueue.next q.message_move_queue))
      × IsQueue (HeaderQueue.next q.message_move_queue)
  split = items-next q.message_move_queue m.headers left

  advanced-IsMail : IsMail tagsize (advanced q)
  unfolding advanced payload_size
  advanced-IsMail =
      let inside = rw split.0 at m.inside in
      record {
        sending = v.sending;
        moving = record {
          headers = split.1;
          blocks = m.blocks;
          inside = inside.1;
          counted = omega (arith, m.counted, m.small, ap payload_size split.0);
          small = omega arith;
        };
      }

  not_empty_now : is_empty q.message_move_queue ≡ false
  not_empty_now = ground (arith, qsize_lem q.message_move_queue m.headers, left)

  -- On a local delivery queue whose boxes are in order and which has a message left, the top tag
  -- and the top message point to the tag and the payload of the first message to be received, of
  -- the length that the top size says; advancing removes just that message, keeps the boxes in
  -- order, and returns whether there is another.
  pub advance_local_lem :
      (q' : LocalDeliveryQueue) × (bsmp_advance q ≡ (ltb 0 (bsmp_qsize q'), q'))
      × IsMail tagsize q'
      × ((memory : Array ℕ)
          → received tagsize memory q
            ≡ record {
              tag = deref memory q.message_move_buffer (bsmp_top_tag q) tagsize;
              payload = deref memory q.message_move_buffer (bsmp_top_message q) (bsmp_top_size q);
            }
              ∷ received tagsize memory q')
  unfolding bsmp_advance bsmp_qsize bsmp_top_tag bsmp_top_message bsmp_top_size advanced
  advance_local_lem = (
    advanced q,
    rw not_empty_now (ground (arith, qsize_lem (HeaderQueue.next q.message_move_queue) split.1)),
    advanced-IsMail,
    λ memory. ap (mail tagsize memory q.message_move_buffer) split.0,
  )
