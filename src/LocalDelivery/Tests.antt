-- ===== src/LocalDelivery/Tests.antt =====
-- The theorems on the local deliveries of src/bsp_cpp/bsp_localdelivery.h at concrete queues.
use mathlib.Core.Path.{subst}
use bsponmpi.Base.{sym, ℕ, ◌<◌, ◌≡◌, arith, Array, [], ◌∷◌, ◌++◌, ltb}
use bsponmpi.Exptable
use bsponmpi.HeaderQueue
use bsponmpi.HeaderQueue.{HeaderQueue}
use bsponmpi.HeaderQueue.Fifo.{items}
use bsponmpi.LocalDelivery.{
  LocalDeliveryQueue, make, put, send, bsmp_messagequeue_sync, bsmp_advance, bsmp_top_tag,
  bsmp_top_message, bsmp_top_size, bsmp_qsize,
}
use bsponmpi.LocalDelivery.Puts.{writes, IsPending, put_local_lem}
use bsponmpi.LocalDelivery.Messages.{
  IsMail, sent, received, deref, send_local_lem, sync_local_lem, advance_local_lem,
}
use bsponmpi.LocalDelivery.Fixture.{
  fresh, memory, empty-IsPending, empty-IsMail, room, grows, nothing_sent,
}

-- Three bytes at 40, put to 500.
put_local_lem_example :
    (q' : LocalDeliveryQueue) × (put fresh (make fresh) memory 40 500 3 ≡ q')
    × IsPending q'
    × (writes q'.put_buffer (items q'.puts)
        ≡ writes (make fresh).put_buffer (items (make fresh).puts)
          ++ record { dst = 500; content = 40 ∷ 41 ∷ 42 ∷ [] } ∷ [])
    × (q' ≡ record (make fresh) { puts = q'.puts; put_buffer = q'.put_buffer })
put_local_lem_example =
    put_local_lem fresh (make fresh) empty-IsPending memory 40 500 3 grows.0 (omega (arith, room))

one_put-IsPending : IsPending (put fresh (make fresh) memory 40 500 3)
one_put-IsPending =
    let (q', e, v, _, _) =
      put_local_lem fresh (make fresh) empty-IsPending memory 40 500 3 grows.0
        (omega (arith, room)) in
    subst IsPending (sym e) v

-- A tag of two bytes and a payload of three.
send_local_lem_example :
    (q' : LocalDeliveryQueue) × (send fresh (make fresh) memory 10 2 40 3 ≡ q')
    × IsMail 2 q'
    × ((later : Array ℕ)
        → sent 2 later q'
          ≡ sent 2 later (make fresh)
            ++ record { tag = 10 ∷ 11 ∷ []; payload = 40 ∷ 41 ∷ 42 ∷ [] } ∷ [])
    × (q' ≡ record (make fresh) {
      message_send_queue = q'.message_send_queue;
      message_send_buffer = q'.message_send_buffer;
      bytes_sent = q'.bytes_sent;
    })
send_local_lem_example =
    send_local_lem fresh (make fresh) 2 empty-IsMail 10 40 3 grows.1 (omega (arith, nothing_sent))
      memory (omega (arith, room))

mailed-IsMail : IsMail 2 (send fresh (make fresh) memory 10 2 40 3)
mailed-IsMail =
    let (q', e, v, _, _) =
      send_local_lem fresh (make fresh) 2 empty-IsMail 10 40 3 grows.1 (omega (arith, nothing_sent))
        memory (omega (arith, room)) in
    subst (IsMail 2) (sym e) v

one_message :
    0 < bsmp_qsize (bsmp_messagequeue_sync fresh (send fresh (make fresh) memory 10 2 40 3))
unfolding bsmp_messagequeue_sync send make bsmp_qsize HeaderQueue.qsize HeaderQueue.enqueue
    Exptable.push2 Exptable.make_room HeaderQueue.make Exptable.initialize
one_message = omega arith

advance_local_lem_example :
    let q = bsmp_messagequeue_sync fresh (send fresh (make fresh) memory 10 2 40 3) in
    (q' : LocalDeliveryQueue) × (bsmp_advance q ≡ (ltb 0 (bsmp_qsize q'), q'))
    × IsMail 2 q'
    × ((m : Array ℕ)
        → received 2 m q
          ≡ record {
            tag = deref m q.message_move_buffer (bsmp_top_tag q) 2;
            payload = deref m q.message_move_buffer (bsmp_top_message q) (bsmp_top_size q);
          }
            ∷ received 2 m q')
advance_local_lem_example =
    advance_local_lem (bsmp_messagequeue_sync fresh (send fresh (make fresh) memory 10 2 40 3)) 2
      (sync_local_lem fresh (send fresh (make fresh) memory 10 2 40 3) 2 mailed-IsMail).0
      one_message
