-- ===== src/Execute/Columns.antt =====
-- The loop of deliveryTable_execute over the columns.
use bsponmpi.Base.{
  ℕ, zero, suc, ◌+◌, ◌^◌, ◌≤◌, ◌<◌, ◌≡◌, ◌≢◌, ◌∙◌, refl, sym, ap, ap₂, arith, Option, some, Array,
  List, [], ◌∷◌, ◌++◌, length, length-append, u32,
}
use mathlib.Core.Path.{subst}
use mathlib.Core.Option.{some-injective}
use native.Mathlib.Decide.{ℕ_discrete}
use bsponmpi.Exptable.{column}
use bsponmpi.Exptable.Layout.{column_lem, columns_apart, slots_fit}
use bsponmpi.Memreg.{MemoryRegister}
use bsponmpi.Delivtable.{
  Slot, DeliveryTable, ItemType, it_send, it_put, it_pushreg, start_of, count_of,
}
use bsponmpi.Delivtable.Chain.{length-positions}
use bsponmpi.Delivtable.Index.{ItemType-discrete}
use bsponmpi.Delivtable.Column.{Action, next_in, actions_at, place, queue, IsDelivery}
use bsponmpi.Mesgqueue.{MessageQueue}
use bsponmpi.Execute.{
  gather, relink, table_now, first_of, Progress, execute_column, execute_columns,
}
use bsponmpi.Execute.Actions.{
  put_all, push_all, sizes, do_puts_lem, do_push_regs_lem, gather_lem, gather-last,
}
use bsponmpi.Execute.Kept.{IsKept, kept-start, kept-count, queue-kept, hop-kept, relink-IsKept}

-- The memory after the puts of the columns below `n`, each column's oldest first.
unfoldable pub puts : ℕ → DeliveryTable → Array ℕ → Array ℕ
unfolding put_all
puts zero t memory = memory
puts (suc p) t memory = put_all (queue t p it_put) (puts p t memory)

-- The register after their registrations.
unfoldable pub registrations : ℕ → Array ℕ → DeliveryTable → MemoryRegister → MemoryRegister
unfolding push_all
registrations zero fresh t r = r
registrations (suc p) fresh t r =
    push_all fresh p (queue t p it_pushreg) (registrations p fresh t r)

-- Their messages.
unfoldable pub messages : ℕ → DeliveryTable → List Action
messages zero t = []
messages (suc p) t = messages p t ++ queue t p it_send

sizes-append : (l m : List Action) → sizes (l ++ m) ≡ sizes l + sizes m
unfolding sizes
sizes-append [] m = omega arith
sizes-append (a ∷ l) m = omega (arith, sizes-append l m)

length-actions_at : (t : DeliveryTable) (p : ℕ) (l : List ℕ) → length (actions_at t p l) ≡ length l
length-actions_at t p [] = refl
length-actions_at t p (x ∷ l) = ap suc (length-actions_at t p l)

pub length-queue :
    (t : DeliveryTable) (p : ℕ) (type : ItemType) → length (queue t p type) ≡ count_of t p type
length-queue t p type =
    length-actions_at t p _ ∙ length-positions (next_in t p) (start_of t p type) _

module _ (t : DeliveryTable) (d : IsDelivery t) (p : ℕ) (hp : p < t.nprocs) where
  -- No queue follows the link of the last message of a column.
  last_link :
      (n : ℕ)
      → suc n ≡ count_of t p it_send
      → (q : ℕ) (type : ItemType) (i : ℕ) → q < t.nprocs
      → suc i < count_of t q type
      → column t.rows q + place t q type i ≢ column t.rows p + place t p it_send n
  last_link n e q type i hq hi same = elim (ℕ_discrete q p) [
    | yes eq ↦ here (rw eq at hi) (rw eq at same)
    | no ne ↦
        let mine = (d.columns p hp).chain it_send in
        let other = (d.columns q hq).chain type in
        columns_apart t.rows q p (place t q type i) (place t p it_send n)
          (omega (arith, other.inside i (omega arith), d.valid.within q hq))
          (omega (arith, mine.inside n (omega arith), d.valid.within p hp)) ne
          (omega (
            arith,
            column_lem t.nprocs t.rows q (omega (arith, slots_fit t d.valid)) hq,
            column_lem t.nprocs t.rows p (omega (arith, slots_fit t d.valid)) hp,
          ))
  ]
    where
      here :
          suc i < count_of t p type
          → column t.rows p + place t p type i ≡ column t.rows p + place t p it_send n
          → ⊥
      here hi same = elim (ItemType-discrete type it_send) [
        | yes e' ↦ omega (
          arith,
          ((d.columns p hp).chain it_send).rising i n (omega (arith, rw e' at hi)) (omega arith),
          rw e' at same,
        )
        | no ne ↦
            (d.columns p hp).apart type it_send i n ne (omega arith) (omega arith) (omega arith)
      ]

  -- What the loop over the messages of the column leaves in `message` is such a link again.
  gathered-IsKept :
      (block : Array Slot) (message : Option ℕ) (q : MessageQueue)
      → IsKept t block message
      → IsKept t block
          (gather (count_of t p it_send) block (column t.rows p + start_of t p it_send) message q).0
  unfolding gather
  gathered-IsKept block message q k = by_count (count_of t p it_send) refl
    where
      by_count :
          (n : ℕ)
          → n ≡ count_of t p it_send
          → IsKept t block (gather n block (column t.rows p + start_of t p it_send) message q).0
      by_count zero e = k
      by_count (suc n) e =
          let now = table_now t block in
          let at : (gather (suc n) block (column t.rows p + start_of t p it_send) message q).0
              ≡ some (column t.rows p + place t p it_send n) =
            gather-last now p n (start_of t p it_send) message q
            ∙ ap (λ i. some (column t.rows p + i))
                (hop-kept t block message k p it_send n hp (omega arith)) in
          rw at (record {
            words = k.words;
            bytes = k.bytes;
            size = k.size;
            info = k.info;
            next = k.next;
            free = λ m e' a type i ha hi same.
                last_link n e a type i ha hi (same ∙ sym (some-injective _ _ e'));
          })

-- The queue after `n` messages more, of `b` bytes.
abbrev pub counted : MessageQueue → ℕ → ℕ → MessageQueue
counted q n b = record q { n_mesg = u32 (q.n_mesg + n); accum_size = u32 (q.accum_size + b) }

counted-add :
    (q : MessageQueue) (n b n' b' : ℕ) → counted (counted q n b) n' b' ≡ counted q (n + n') (b + b')
counted-add q n b n' b' =
    ap₂ (λ x y. record q { n_mesg = x; accum_size = y }) (omega arith) (omega arith)

-- The state after the columns below `n`, against the queues of the received table.
pub record IsExecuted (n : ℕ) (fresh : Array ℕ) (t : DeliveryTable) (before after : Progress)
    : Type 0 where
  pub memory : after.memory ≡ puts n t before.memory
  pub memreg : after.memreg ≡ registrations n fresh t before.memreg
  pub mesgq : after.mesgq ≡ counted before.mesgq (length (messages n t)) (sizes (messages n t))
  pub kept : IsKept t after.block after.message

module _ (fresh : Array ℕ) (t : DeliveryTable) (d : IsDelivery t) (before : Progress)
    (start : IsKept t before.block before.message) (number : before.mesgq.n_mesg < 2 ^ 32)
    (bytes : before.mesgq.accum_size < 2 ^ 32) where
  module _ (p : ℕ) (hp : p < t.nprocs) (s : Progress) (e : IsExecuted p fresh t before s) where
    abbrev linked : Array Slot
    linked = relink s.message (first_of (table_now t s.block) p it_send) s.block

    linked-IsKept : IsKept t linked s.message
    linked-IsKept =
        relink-IsKept t s.block s.message (first_of (table_now t s.block) p it_send) e.kept

    abbrev now : DeliveryTable
    now = table_now t s.block

    abbrev after_link : DeliveryTable
    after_link = table_now t linked

    abbrev gathered : Option ℕ × MessageQueue
    gathered =
        gather (count_of after_link p it_send) linked (first_of now p it_send) s.message s.mesgq

    column-memory : (execute_column fresh t p s).memory ≡ puts (suc p) t before.memory
    unfolding execute_column puts
    column-memory =
        do_puts_lem now p (count_of now p it_put) (start_of now p it_put) s.memory
        ∙ ap₂ put_all (queue-kept t s.block s.message e.kept p it_put hp) e.memory

    column-memreg :
        (execute_column fresh t p s).memreg ≡ registrations (suc p) fresh t before.memreg
    unfolding execute_column registrations
    column-memreg =
        do_push_regs_lem now p (count_of now p it_pushreg) (start_of now p it_pushreg) fresh
          s.memreg
        ∙ ap₂ (push_all fresh p) (queue-kept t s.block s.message e.kept p it_pushreg hp) e.memreg

    same_first : first_of now p it_send ≡ column t.rows p + start_of after_link p it_send
    same_first =
        ap (λ i. column t.rows p + i)
          (kept-start t s.block s.message e.kept p it_send
            ∙ sym (kept-start t linked s.message linked-IsKept p it_send))

    same_sends : queue after_link p it_send ≡ queue t p it_send
    same_sends = queue-kept t linked s.message linked-IsKept p it_send hp

    column-mesgq :
        gathered.1 ≡ counted before.mesgq (length (messages (suc p) t)) (sizes (messages (suc p) t))
    unfolding messages
    column-mesgq =
        let n = length (messages p t) in
        let b = sizes (messages p t) in
        ap (λ i. (gather (count_of after_link p it_send) linked i s.message s.mesgq).1) same_first
        ∙ gather_lem after_link p (count_of after_link p it_send) (start_of after_link p it_send)
            s.message s.mesgq (omega (arith, ap (λ (q : MessageQueue). q.n_mesg) e.mesgq))
            (omega (arith, ap (λ (q : MessageQueue). q.accum_size) e.mesgq))
        ∙ ap₂ (counted s.mesgq) (sym (length-queue after_link p it_send) ∙ ap length same_sends)
            (ap sizes same_sends)
        ∙ ap (λ q. counted q (length (queue t p it_send)) (sizes (queue t p it_send))) e.mesgq
        ∙ counted-add before.mesgq n b (length (queue t p it_send)) (sizes (queue t p it_send))
        ∙ ap₂ (counted before.mesgq) (sym (length-append (messages p t) (queue t p it_send)))
            (sym (sizes-append (messages p t) (queue t p it_send)))

    column-kept : IsKept t linked gathered.0
    column-kept =
        let same : gathered.0
            ≡ (gather (count_of t p it_send) linked (first_of t p it_send) s.message s.mesgq).0 =
          ap₂ (λ n i. (gather n linked i s.message s.mesgq).0)
            (kept-count t linked s.message linked-IsKept p it_send)
            (ap (λ i. column t.rows p + i) (kept-start t s.block s.message e.kept p it_send)) in
        subst (IsKept t linked) (sym same)
          (gathered-IsKept t d p hp linked s.message s.mesgq linked-IsKept)

    column-IsExecuted : IsExecuted (suc p) fresh t before (execute_column fresh t p s)
    unfolding execute_column
    column-IsExecuted = record {
      memory = column-memory;
      memreg = column-memreg;
      mesgq = column-mesgq;
      kept = column-kept;
    }

  -- The loop over the columns does what the queues say, and keeps the queues.
  pub execute_columns-IsExecuted :
      (n : ℕ) → n ≤ t.nprocs → IsExecuted n fresh t before (execute_columns n fresh t before)
  unfolding execute_columns puts registrations messages sizes
  execute_columns-IsExecuted zero h = record {
    memory = refl;
    memreg = refl;
    mesgq =
        ap₂ (λ x y. record before.mesgq { n_mesg = x; accum_size = y }) (omega arith) (omega arith);
    kept = start;
  }
  execute_columns-IsExecuted (suc p) h =
      column-IsExecuted p h (execute_columns p fresh t before)
        (execute_columns-IsExecuted p (omega arith))
