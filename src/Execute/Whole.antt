-- ===== src/Execute/Whole.antt =====
-- deliveryTable_execute as a whole, against the queues of the received table.
use bsponmpi.Base.{
  ℕ, zero, suc, ◌+◌, ◌^◌, ◌≤◌, ◌<◌, ◌≡◌, ◌∙◌, ◌⊎◌, inl, inr, refl, ap, ap₂, fun_ext, arith, Option,
  none, some, ok, ◌>>=◌, Array, length, ltb, Bool-cases, if◌then◌else◌,
}
use native.Mathlib.Decide.{ℕ_discrete}
use bsponmpi.Exptable.{column}
use bsponmpi.Memreg.{MemoryRegister}
use bsponmpi.Delivtable.{
  Slot, DeliveryTable, ItemType, it_send, it_popreg, it_settag, start_of, count_of,
}
use bsponmpi.Delivtable.Column.{queue, IsDelivery}
use bsponmpi.Mesgqueue.{MessageQueue}
use bsponmpi.Execute.{
  table_now, first_of, Progress, execute_columns, find_head, do_pop_regs, do_set_tags, execute,
}
use bsponmpi.Execute.Actions.{pop_all, last_tag_size, sizes, do_pop_regs_lem, do_set_tags_lem}
use bsponmpi.Execute.Kept.{IsKept, unchanged, kept-start, kept-count, queue-kept}
use bsponmpi.Execute.Columns.{
  puts, registrations, messages, counted, IsExecuted, execute_columns-IsExecuted,
}

-- `head` is the first message of the first of the `n` columns from `p` on that has one, or `before`
-- if none has one.
abbrev pub IsFirst : DeliveryTable → ℕ → ℕ → Option ℕ → Option ℕ → Type 0
IsFirst t p n before head =
    (((q : ℕ) → p ≤ q → q < p + n → count_of t q it_send ≡ 0) × (head ≡ before))
    ⊎ ((q : ℕ) × (p ≤ q)
        × (q < p + n)
        × (0 < count_of t q it_send)
        × ((i : ℕ) → p ≤ i → i < q → count_of t i it_send ≡ 0)
        × (head ≡ some (first_of t q it_send)))

find_head-IsFirst :
    (n p : ℕ) (t : DeliveryTable) (before : Option ℕ)
    → IsFirst t p n before (find_head n p t before)
unfolding find_head
find_head-IsFirst zero p t before = inl (λ q l h. absurd (omega arith), refl)
find_head-IsFirst (suc n) p t before = elim (Bool-cases (ltb 0 (count_of t p it_send))) [
  | inl e ↦
      rw e (inr (p, omega arith, omega arith, ground arith, λ i l h. absurd (omega arith), refl))
  | inr e ↦ rw e (later (ground arith) (find_head-IsFirst n (p + 1) t before))
]
  where
    later :
        count_of t p it_send ≡ 0
        → IsFirst t (p + 1) n before (find_head n (p + 1) t before)
        → IsFirst t p (suc n) before (find_head n (p + 1) t before)
    later e (inl h) = inl (
      λ q l g. elim (ℕ_discrete q p) [
        | yes s ↦ ap (λ i. count_of t i it_send) s ∙ e
        | no ne ↦ h.0 q (omega arith) (omega arith)
      ],
      h.1,
    )
    later e (inr (q, l, g, some_sent, none_before, h)) = inr (
      q,
      omega arith,
      omega arith,
      some_sent,
      λ i m k. elim (ℕ_discrete i p) [
        | yes s ↦ ap (λ j. count_of t j it_send) s ∙ e
        | no ne ↦ none_before i (omega arith) k
      ],
      h,
    )

module _ (t : DeliveryTable) (block : Array Slot) (message : Option ℕ)
    (kept : IsKept t block message) where
  find_head-kept :
      (n p : ℕ) (before : Option ℕ)
      → find_head n p (table_now t block) before ≡ find_head n p t before
  unfolding find_head
  find_head-kept zero p before = refl
  find_head-kept (suc n) p before =
      ap₂
        (λ c i.
          if ltb 0 c
          then some (column t.rows p + i)
          else find_head n (p + 1) (table_now t block) before)
        (kept-count t block message kept p it_send) (kept-start t block message kept p it_send)
      ∙ ap (λ rest. if ltb 0 (count_of t p it_send) then some (first_of t p it_send) else rest)
          (find_head-kept n (p + 1) before)

module _ (fresh : Array ℕ) (t : DeliveryTable) (d : IsDelivery t) (memreg : MemoryRegister)
    (mesgq : MessageQueue) (rank : ℕ) (memory : Array ℕ) (hr : rank < t.nprocs)
    (number : mesgq.n_mesg < 2 ^ 32) (bytes : mesgq.accum_size < 2 ^ 32) where
  abbrev start : Progress
  start = record {
    memory = memory;
    memreg = memreg;
    mesgq = mesgq;
    block = t.data_block;
    message = none;
  }

  abbrev s : Progress
  s = execute_columns t.nprocs fresh t start

  done : IsExecuted t.nprocs fresh t start s
  done =
      execute_columns-IsExecuted fresh t d start (unchanged t) number bytes t.nprocs (omega arith)

  abbrev now : DeliveryTable
  now = table_now t s.block

  kept_queue : (p : ℕ) (type : ItemType) → p < t.nprocs → queue now p type ≡ queue t p type
  kept_queue p type hp = queue-kept t s.block s.message done.kept p type hp

  -- What the message queue is after the loop.
  abbrev pub finished : MessageQueue
  finished = record (counted mesgq (length (messages t.nprocs t)) (sizes (messages t.nprocs t))) {
    send_tag_size = last_tag_size (queue t rank it_settag) mesgq.send_tag_size;
    head = find_head t.nprocs 0 t mesgq.head;
  }

  finished_lem :
      let tagged =
        do_set_tags (count_of now rank it_settag) s.block (first_of now rank it_settag) s.mesgq in
      record tagged { head = find_head t.nprocs 0 now tagged.head } ≡ finished
  finished_lem =
      ap₂ (λ (q : MessageQueue) (f : Option ℕ → Option ℕ). record q { head = f q.head })
        (do_set_tags_lem now rank (count_of now rank it_settag) (start_of now rank it_settag)
            s.mesgq
          ∙ ap₂
              (λ l (q : MessageQueue). record q { send_tag_size = last_tag_size l q.send_tag_size })
              (kept_queue rank it_settag hr) done.mesgq)
        (fun_ext (λ h. find_head-kept t s.block s.message done.kept t.nprocs 0 h))

  popped_lem :
      do_pop_regs (count_of now rank it_popreg) s.block (first_of now rank it_popreg) rank s.memreg
      ≡ pop_all rank (queue t rank it_popreg) (registrations t.nprocs fresh t memreg)
  popped_lem =
      do_pop_regs_lem now rank (count_of now rank it_popreg) (start_of now rank it_popreg) s.memreg
      ∙ ap₂ (pop_all rank) (kept_queue rank it_popreg hr) done.memreg

  -- Executing a delivery table in order whose counters fit `unsigned int` does what its queues say:
  -- the puts and the registrations of each column in turn, oldest first; then the deregistrations
  -- of the own column, an abort of which is the outcome; and otherwise it returns with the tag size
  -- that the own column set last, the number of messages and their bytes added to the counters
  -- modulo 2^32, and as head the first message of the first column that has one. Every queue of the
  -- table stays as it is.
  pub execute_lem :
      (t' : DeliveryTable) × (head : Option ℕ) × (execute fresh t memreg mesgq rank memory ≡ (
        pop_all rank (queue t rank it_popreg) (registrations t.nprocs fresh t memreg) >>= λ r.
        ok (record {
          table = t';
          memreg = r;
          mesgq =
              record (counted mesgq (length (messages t.nprocs t)) (sizes (messages t.nprocs t))) {
                send_tag_size = last_tag_size (queue t rank it_settag) mesgq.send_tag_size;
                head = head;
              };
          memory = puts t.nprocs t memory;
        })))
      × IsFirst t 0 t.nprocs mesgq.head head
      × ((p : ℕ) (type : ItemType) → p < t.nprocs → queue t' p type ≡ queue t p type)
  unfolding execute
  execute_lem = (
    now,
    find_head t.nprocs 0 t mesgq.head,
    ap₂ (◌>>=◌) popped_lem (
        fun_ext (λ r.
          ap₂ (λ q m. ok (record { table = now; memreg = r; mesgq = q; memory = m })) finished_lem
            done.memory)),
    find_head-IsFirst t.nprocs 0 t mesgq.head,
    kept_queue,
  )
