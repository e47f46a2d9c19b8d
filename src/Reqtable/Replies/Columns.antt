-- ===== src/Reqtable/Replies/Columns.antt =====
-- requestTable_execute as a whole: the replies to the received requests of all columns.
use native.Mathlib.Decide.{ℕ_discrete}
use bsponmpi.Base.{
  ℕ, zero, suc, ◌+◌, ◌*◌, ◌^◌, ◌≤◌, ◌<◌, ◌≡◌, ◌∙◌, refl, sym, ap, ap₂, arith, Bool, Array, ltb,
  List, ◌++◌, ◌&&◌, ◌==◌, if◌then◌else◌, true, false,
}
use bsponmpi.Exptable.{contents}
use bsponmpi.Delivtable.{Slot, DelivElement, DeliveryTable, ItemType, it_put, code, aligned_size}
use bsponmpi.Delivtable.Column.{queue, Action, IsDelivery}
use bsponmpi.Reqtable.{RequestTable, answer_columns, execute}
use bsponmpi.Reqtable.Replies.{put_slots, replies, queue_with, answer_column-IsAnswered}

module _ (fresh : Array Slot) (stale : DelivElement) (memory : Array ℕ) where
  module _ (t : RequestTable) (deliv : DeliveryTable) (d : IsDelivery deliv) (bound used_bound : ℕ)
      (enough : 2 * used_bound ≤ bound) (rows : deliv.rows ≤ bound)
      (small : deliv.nprocs * (2 * bound + used_bound) * aligned_size < 2 ^ 31)
      (fits : (p : ℕ)
        → p < t.nprocs
        → deliv.used_slot_count p + put_slots (contents t p) ≤ used_bound) where
    -- The queues once the columns below `n` are answered.
    abbrev queue_below : ℕ → ℕ → ItemType → List Action
    queue_below n q type =
        if ltb q n && (code type == code it_put)
        then queue deliv q type ++ replies stale memory (contents t q)
        else queue deliv q type

    record IsAnsweredBelow (n : ℕ) (out : DeliveryTable) : Type 0 where
      pub delivery : IsDelivery out
      pub nprocs : out.nprocs ≡ deliv.nprocs
      pub rows_bound : out.rows ≤ bound
      pub above : (q : ℕ) → n ≤ q → out.used_slot_count q ≡ deliv.used_slot_count q
      pub queues :
          (q : ℕ) (type : ItemType) → q < deliv.nprocs → queue out q type ≡ queue_below n q type

    queue_next :
        (n : ℕ) (out : DeliveryTable)
        → IsAnsweredBelow n out
        → (q : ℕ) (type : ItemType) → q < deliv.nprocs
        → queue_with fresh stale memory out n (contents t n) q type ≡ queue_below (suc n) q type
    queue_next n out v q type h =
        let put = code type == code it_put in
        let below = λ (b : Bool).
          if b && put
          then queue deliv q type ++ replies stale memory (contents t q)
          else queue deliv q type in
        let with_own = λ (b : Bool).
          if b && put
          then queue out q type ++ replies stale memory (contents t n)
          else queue out q type in
        elim (ℕ_discrete q n) [
          | yes e ↦
              let own : (q == n) ≡ true = ground arith in
              let later : ltb q n ≡ false = ground arith in
              let now : true ≡ ltb q (suc n) = ground arith in
              ap with_own own
              ∙ ap₂ (λ x c. if put then x ++ replies stale memory c else x)
                  (v.queues q type h ∙ ap below later) (ap (contents t) (sym e))
              ∙ ap below now
          | no ne ↦
              let other : (q == n) ≡ false = ground arith in
              let same : ltb q n ≡ ltb q (suc n) = ground arith in
              ap with_own other ∙ v.queues q type h ∙ ap below same
        ]

    answer_columns-IsAnsweredBelow :
        (n : ℕ)
        → n ≤ t.nprocs
        → t.nprocs ≤ deliv.nprocs
        → IsAnsweredBelow n (answer_columns n fresh stale memory t deliv)
    unfolding answer_columns
    answer_columns-IsAnsweredBelow zero h cols = record {
      delivery = d;
      nprocs = refl;
      rows_bound = rows;
      above = λ q _. refl;
      queues = λ q type _.
          let none_yet : false ≡ ltb q 0 = ground arith in
          ap
            (λ b.
              if b && (code type == code it_put)
              then queue deliv q type ++ replies stale memory (contents t q)
              else queue deliv q type)
            none_yet;
    }
    answer_columns-IsAnsweredBelow (suc n) h cols =
        let before = answer_columns n fresh stale memory t deliv in
        let v = answer_columns-IsAnsweredBelow n (omega (arith, h)) cols in
        let w =
          answer_column-IsAnswered fresh stale memory before bound used_bound enough
            (rw v.nprocs small) n (omega (arith, h, cols, v.nprocs)) t (t.used_slot_count n)
            v.delivery v.rows_bound
            (omega (arith, v.above n (omega arith), fits n (omega (arith, h)))) in
        record {
          delivery = w.delivery;
          nprocs = w.nprocs ∙ v.nprocs;
          rows_bound = w.rows;
          above = λ q l. w.others q (omega (arith, l)) ∙ v.above q (omega (arith, l));
          queues = λ q type l.
              w.queues q type (omega (arith, l, v.nprocs)) ∙ queue_next n before v q type l;
        }

    -- On a delivery table in order with a column for each of the received request table, where the
    -- used slots and the replies of each column take at most `used_bound` slots, twice as many are
    -- within `bound`, as are the rows, and all columns of twice `bound` and `used_bound` together
    -- stay below 2^31 bytes, the execution of the requests keeps the table in order and queues for
    -- the processor of each column, behind its earlier puts and in the order of its requests, one
    -- put for each request, to the address that it named and with the bytes that memory holds at
    -- the requested address plus the offset, a signed number of 32 bits; all other queues stay as
    -- they are, however often the table had to grow.
    pub execute_requests_lem :
        t.nprocs ≤ deliv.nprocs
        → let out = execute fresh stale memory t deliv in
          IsDelivery out
          × (out.nprocs ≡ deliv.nprocs)
          × ((q : ℕ) (type : ItemType)
              → q < deliv.nprocs
              → queue out q type ≡ queue_below t.nprocs q type)
    unfolding execute
    execute_requests_lem cols =
        let v = answer_columns-IsAnsweredBelow t.nprocs (omega arith) cols in
        (v.delivery, v.nprocs, v.queues)
