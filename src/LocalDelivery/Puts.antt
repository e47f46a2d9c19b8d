-- ===== src/LocalDelivery/Puts.antt =====
-- Puts between the processes of a node: `put` buffers, `execute` delivers.
use bsponmpi.Base.{
  ℕ, zero, suc, ◌+◌, ◌*◌, ◌^◌, ◌≤◌, ◌<◌, ◌≡◌, ◌∙◌, refl, sym, ap, ap₂, arith, Bool-cases, inl, inr,
  Array, memcpy, slice, List, [], ◌∷◌, ◌++◌, length, length-zero,
}
use bsponmpi.HeaderQueue
use bsponmpi.HeaderQueue.{HeaderQueue, is_empty, enqueue}
use bsponmpi.HeaderQueue.Fifo.{
  IsQueue, items, Grows, add, add-IsQueue, items-add, items-next, length-items, not_empty, no_items,
}
use bsponmpi.MessageBuffer.{MessageBuffer, buffer, stored, clear}
use bsponmpi.MessageBuffer.Blocks.{
  IsBuffer, buffer-IsBuffer, slice-before, slice-stored, clear-IsBuffer,
}
use bsponmpi.Execute.Actions.{write_list, memcpy_lem}
use bsponmpi.LocalDelivery.{
  LocalMemoryDelivery, BufferedLocalMemoryDelivery, LocalDeliveryQueue, Fresh, do_hpputs, do_puts,
  execute, put,
}

-- What a delivery writes.
pub record Write : Type 0 where
  pub dst : ℕ
  pub content : List ℕ

-- What the buffered deliveries write, in their order.
abbrev write_of : MessageBuffer → BufferedLocalMemoryDelivery → Write
write_of b d = record { dst = d.dst; content = slice (stored b) (8 * d.offset) d.nbytes }

abbrev pub writes : MessageBuffer → List BufferedLocalMemoryDelivery → List Write
writes b [] = []
writes b (d ∷ l) = write_of b d ∷ writes b l

unfoldable pub write_all : List Write → Array ℕ → Array ℕ
unfolding write_list
write_all [] memory = memory
write_all (w ∷ l) memory = write_all l (write_list memory w.dst w.content)

-- The unbuffered deliveries, each of what the memory holds by then.
unfoldable pub copy_all : List LocalMemoryDelivery → Array ℕ → Array ℕ
unfolding write_list
copy_all [] memory = memory
copy_all (d ∷ l) memory = copy_all l (write_list memory d.dst (slice memory d.src d.nbytes))

-- The buffered blocks lie in the part of the buffer that is in use.
abbrev pub AllInside : MessageBuffer → List BufferedLocalMemoryDelivery → Type 0
AllInside b [] = Unit
AllInside b (d ∷ l) = (8 * d.offset + d.nbytes ≤ 8 * b.storage_end) × AllInside b l

-- The deliveries that are not executed yet are in order.
pub record IsPending (q : LocalDeliveryQueue) : Type 0 where
  pub puts : IsQueue q.puts
  pub hpputs : IsQueue q.hpputs
  pub put_buffer : IsBuffer q.put_buffer
  pub inside : AllInside q.put_buffer (items q.puts)

writes-append :
    (b : MessageBuffer) (l m : List BufferedLocalMemoryDelivery)
    → writes b (l ++ m) ≡ writes b l ++ writes b m
writes-append b [] m = refl
writes-append b (d ∷ l) m = ap (◌∷◌ (write_of b d)) (writes-append b l m)

AllInside-append :
    (b : MessageBuffer) (l m : List BufferedLocalMemoryDelivery)
    → AllInside b l
    → AllInside b m
    → AllInside b (l ++ m)
AllInside-append b [] m h g = g
AllInside-append b (d ∷ l) m h g = (h.0, AllInside-append b l m h.1 g)

AllInside-grows :
    (b b' : MessageBuffer) (l : List BufferedLocalMemoryDelivery)
    → b.storage_end ≤ b'.storage_end
    → AllInside b l
    → AllInside b' l
AllInside-grows b b' [] h g = tt
AllInside-grows b b' (d ∷ l) h g = (omega (arith, g.0), AllInside-grows b b' l h g.1)

-- The loops end with an empty queue, having done all the deliveries in their order.
do_hpputs_lem :
    (fuel : ℕ) (q : HeaderQueue LocalMemoryDelivery) (memory : Array ℕ)
    → IsQueue q
    → length (items q) ≤ fuel
    → (q' : HeaderQueue LocalMemoryDelivery) × (do_hpputs fuel q memory
        ≡ (q', copy_all (items q) memory))
      × IsQueue q'
      × (items q' ≡ [])
unfolding do_hpputs copy_all
do_hpputs_lem zero q memory v h =
    let none_left = length-zero (items q) h in
    (q, ap (λ l. (q, copy_all l memory)) (sym none_left), v, none_left)
do_hpputs_lem (suc fuel) q memory v h = elim (Bool-cases (is_empty q)) [
  | inl e ↦
      let none_left = no_items q v e in
      (q, rw e (ap (λ l. (q, copy_all l memory)) (sym none_left)), v, none_left)
  | inr e ↦
      let (first, v') = items-next q v (not_empty q v e) in
      let d = HeaderQueue.head q in
      let (q', step, v'', done) =
        do_hpputs_lem fuel (HeaderQueue.next q) (memcpy memory d.dst memory d.src d.nbytes) v'
          (omega (arith, ap length first)) in
      (
        q',
        rw e (
            step
            ∙ ap (λ m. (q', copy_all (items (HeaderQueue.next q)) m))
                (memcpy_lem memory memory _ _ _)
            ∙ ap (λ l. (q', copy_all l memory)) (sym first)),
        v'',
        done,
      )
]

do_puts_lem :
    (fuel : ℕ) (b : MessageBuffer) (q : HeaderQueue BufferedLocalMemoryDelivery) (memory : Array ℕ)
    → IsQueue q
    → length (items q) ≤ fuel
    → (q' : HeaderQueue BufferedLocalMemoryDelivery) × (do_puts fuel b q memory
        ≡ (q', write_all (writes b (items q)) memory))
      × IsQueue q'
      × (items q' ≡ [])
unfolding do_puts write_all
do_puts_lem zero b q memory v h =
    let none_left = length-zero (items q) h in
    (q, ap (λ l. (q, write_all (writes b l) memory)) (sym none_left), v, none_left)
do_puts_lem (suc fuel) b q memory v h = elim (Bool-cases (is_empty q)) [
  | inl e ↦
      let none_left = no_items q v e in
      (q, rw e (ap (λ l. (q, write_all (writes b l) memory)) (sym none_left)), v, none_left)
  | inr e ↦
      let (first, v') = items-next q v (not_empty q v e) in
      let d = HeaderQueue.head q in
      let (q', step, v'', done) =
        do_puts_lem fuel b (HeaderQueue.next q)
          (memcpy memory d.dst (stored b) (8 * d.offset) d.nbytes) v'
          (omega (arith, ap length first)) in
      (
        q',
        rw e (
            step
            ∙ ap (λ m. (q', write_all (writes b (items (HeaderQueue.next q))) m))
                (memcpy_lem memory (stored b) _ _ _)
            ∙ ap (λ l. (q', write_all (writes b l) memory)) (sym first)),
        v'',
        done,
      )
]

-- On a local delivery queue whose deliveries are in order, execution ends; it does the unbuffered
-- copies in their order and after them the buffered writes in theirs, and leaves neither pending,
-- the queue in order and the messages, their buffers and their byte counts as they are.
pub execute_local_lem :
    (f : Fresh) (q : LocalDeliveryQueue) (memory : Array ℕ)
    → IsPending q
    → (q' : LocalDeliveryQueue) × (execute f q memory
        ≡ (q', write_all (writes q.put_buffer (items q.puts)) (copy_all (items q.hpputs) memory)))
      × IsPending q'
      × (items q'.puts ≡ [])
      × (items q'.hpputs ≡ [])
      × (q' ≡ record q { puts = q'.puts; hpputs = q'.hpputs; put_buffer = q'.put_buffer })
unfolding execute
execute_local_lem f q memory v =
    let (hpputs, hp_step, hp_valid, hp_done) =
      do_hpputs_lem (q.hpputs.tbl.used_slot_count 0) q.hpputs memory v.hpputs
        (omega (arith, length-items q.hpputs)) in
    let (puts, step, valid, done) =
      do_puts_lem (q.puts.tbl.used_slot_count 0) q.put_buffer q.puts
        (copy_all (items q.hpputs) memory) v.puts (omega (arith, length-items q.puts)) in
    let cleared = clear-IsBuffer f.words q.put_buffer v.put_buffer in
    (
      record q { hpputs = hpputs; puts = puts; put_buffer = clear f.words q.put_buffer },
      rw (hp_step, step) refl,
      record { puts = valid; hpputs = hp_valid; put_buffer = cleared.0; inside = rw done tt },
      done,
      hp_done,
      refl,
    )

module _ (f : Fresh) (q : LocalDeliveryQueue) (v : IsPending q) (memory : Array ℕ)
    (src dst nbytes : ℕ) (grows : Grows q.puts)
    (room : q.put_buffer.storage_end + nbytes < 2 ^ 62) where
  abbrev buffered : MessageBuffer
  buffered = (buffer f.words q.put_buffer memory src nbytes).1

  abbrev header : BufferedLocalMemoryDelivery
  header = record { offset = q.put_buffer.storage_end; dst = dst; nbytes = nbytes }

  writes-kept :
      (l : List BufferedLocalMemoryDelivery)
      → AllInside q.put_buffer l
      → writes buffered l ≡ writes q.put_buffer l
  writes-kept [] h = refl
  writes-kept (d ∷ l) h =
      ap₂ (λ c w. (record { dst = d.dst; content = c }) ∷ w)
        (slice-before f.words q.put_buffer v.put_buffer memory src nbytes room (8 * d.offset)
          d.nbytes h.0)
        (writes-kept l h.1)

  -- On a local delivery queue whose deliveries are in order, with room for one more header and a
  -- buffer that stays below 2^62 words, a put adds to the pending writes, which stay as they are,
  -- one of the bytes that memory holds now; the pending copies and the messages stay.
  pub put_local_lem :
      (q' : LocalDeliveryQueue) × (put f q memory src dst nbytes ≡ q')
      × IsPending q'
      × (writes q'.put_buffer (items q'.puts)
          ≡ writes q.put_buffer (items q.puts)
            ++ record { dst = dst; content = slice memory src nbytes } ∷ [])
      × (q' ≡ record q { puts = q'.puts; put_buffer = q'.put_buffer })
  unfolding put
  put_local_lem =
      let (ordered, at, end_) =
        buffer-IsBuffer f.words q.put_buffer v.put_buffer memory src nbytes room in
      let same = items-add q.puts v.puts f.buffered_deliveries grows header in
      let here = slice-stored f.words q.put_buffer v.put_buffer memory src nbytes room in
      (
        record q { puts = add f.buffered_deliveries q.puts header; put_buffer = buffered },
        rw at refl,
        record {
          puts = add-IsQueue q.puts v.puts f.buffered_deliveries grows header;
          hpputs = v.hpputs;
          put_buffer = ordered;
          inside = rw same (
              AllInside-append buffered (items q.puts) (header ∷ [])
                (AllInside-grows q.put_buffer buffered (items q.puts) (omega (arith, end_))
                  v.inside)
                (omega (arith, end_), tt));
        },
        ap (writes buffered) same
            ∙ writes-append buffered (items q.puts) (header ∷ [])
            ∙ ap₂ (λ l c. l ++ record { dst = dst; content = c } ∷ [])
                (writes-kept (items q.puts) v.inside) here,
        refl,
      )
