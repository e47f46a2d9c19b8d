-- ===== src/Reqtable/Replies.antt =====
-- requestTable_execute: the replies to the received requests of a column are queued as puts.
pub mod Columns
use native.Mathlib.Decide.{ℕ_discrete}
use bsponmpi.Base.{
  ℕ, zero, suc, ◌+◌, ◌*◌, ◌-◌, ◌%◌, ◌^◌, ◌≤◌, ◌<◌, ◌≡◌, ◌≢◌, ◌∙◌, refl, sym, ap, ap₂, arith, Bool,
  Bool-cases, ◌⊎◌, inl, inr, Array, update_self, update_ne, slice, slice-suc, max_of, u32, widen,
  ltb, List, [], ◌∷◌, ◌++◌, append_assoc, append-nil, ◌&&◌, ◌==◌, if◌then◌else◌, true, false,
}
use mathlib.Core.Path.{subst}
use bsponmpi.Exptable.{column, contents}
use bsponmpi.Exptable.Layout.{mul_mono}
use bsponmpi.Delivtable
use bsponmpi.Delivtable.{
  Slot, DelivElement, DeliveryTable, ItemType, it_put, code, aligned_size, make_room, append, fill,
  push,
}
use bsponmpi.Delivtable.Extent.{object_slots}
use bsponmpi.Delivtable.Column.{queue, Action, IsDelivery}
use bsponmpi.Delivtable.Rows.{pushed_shape}
use bsponmpi.Delivtable.Room.{CanGrow, expand-shape}
use bsponmpi.Delivtable.Deliver.{Delivered, fill-Delivered}
use bsponmpi.Reqtable.{
  ReqElement, RequestTable, reply, answer, answer_column, answer_columns, execute,
}

-- The slots that the puts for some requests take, counted without wrap-around.
unfoldable pub put_slots : List ReqElement → ℕ
put_slots [] = 0
put_slots (r ∷ l) = object_slots r.size + put_slots l

put_slots-snoc :
    (l : List ReqElement) (r : ReqElement)
    → put_slots (l ++ r ∷ []) ≡ put_slots l + object_slots r.size
unfolding put_slots
put_slots-snoc [] r = omega arith
put_slots-snoc (x ∷ l) r = omega (arith, put_slots-snoc l r)

module _ (stale : DelivElement) (memory : Array ℕ) where
  -- Where the requested bytes are: the offset is a signed number of 32 bits.
  abbrev pub requested : ReqElement → ℕ
  requested r = (r.src + widen r.offset) % 2 ^ 64

  -- The put that answers a request: what the memory holds at the requested address.
  abbrev pub replied : ReqElement → Action
  replied r = record {
    size = r.size;
    info = (reply stale r).info;
    payload = slice memory (requested r) r.size;
  }

  unfoldable pub replies : List ReqElement → List Action
  replies [] = []
  replies (r ∷ l) = replied r ∷ replies l

  replies-snoc :
      (l : List ReqElement) (r : ReqElement) → replies (l ++ r ∷ []) ≡ replies l ++ replied r ∷ []
  unfolding replies
  replies-snoc [] r = refl
  replies-snoc (x ∷ l) r = ap (◌∷◌ (replied x)) (replies-snoc l r)

module _ (fresh : Array Slot) (stale : DelivElement) (memory : Array ℕ) where
  -- The queues once the requests `l` of column `i` are answered.
  abbrev pub queue_with : DeliveryTable → ℕ → List ReqElement → ℕ → ItemType → List Action
  queue_with deliv i l q type =
      if (q == i) && (code type == code it_put)
      then queue deliv q type ++ replies stale memory l
      else queue deliv q type

  module _ (deliv : DeliveryTable) (bound used_bound : ℕ) (enough : 2 * used_bound ≤ bound)
      (small : deliv.nprocs * (2 * bound + used_bound) * aligned_size < 2 ^ 31) (i : ℕ)
      (hi : i < deliv.nprocs) where
    pub record IsAnswered (l : List ReqElement) (t : DeliveryTable) : Type 0 where
      pub delivery : IsDelivery t
      pub nprocs : t.nprocs ≡ deliv.nprocs
      pub rows : t.rows ≤ bound
      pub own : t.used_slot_count i ≡ deliv.used_slot_count i + put_slots l
      pub others : (q : ℕ) → q ≢ i → t.used_slot_count q ≡ deliv.used_slot_count q
      pub queues :
          (q : ℕ) (type : ItemType)
          → q < deliv.nprocs
          → queue t q type ≡ queue_with deliv i l q type

    used_bound-small : used_bound * aligned_size < 2 ^ 31
    used_bound-small =
        omega (arith, small, mul_mono (2 * bound + used_bound) 1 deliv.nprocs (omega (arith, hi)))

    queue_snoc :
        (l : List ReqElement) (r : ReqElement) (t : DeliveryTable)
        → IsAnswered l t
        → (q : ℕ) (type : ItemType) → q < deliv.nprocs
        → (if (q == i) && (code type == code it_put)
            then queue t q type ++ replied stale memory r ∷ []
            else queue t q type)
          ≡ queue_with deliv i (l ++ r ∷ []) q type
    queue_snoc l r t v q type h = elim (Bool-cases ((q == i) && (code type == code it_put))) [
      | inl e ↦
          let before =
            v.queues q type h
            ∙ ap
                (λ b.
                  if b then queue deliv q type ++ replies stale memory l else queue deliv q type)
                e in
          rw e (
            ap (λ a. a ++ replied stale memory r ∷ []) before
            ∙ append_assoc (queue deliv q type) (replies stale memory l)
                (replied stale memory r ∷ [])
            ∙ ap (λ a. queue deliv q type ++ a) (sym (replies-snoc stale memory l r)))
      | inr e ↦
          let before =
            v.queues q type h
            ∙ ap
                (λ b.
                  if b then queue deliv q type ++ replies stale memory l else queue deliv q type)
                e in
          rw e before
    ]

    answer-IsAnswered :
        (l : List ReqElement) (r : ReqElement) (t : DeliveryTable)
        → IsAnswered l t
        → deliv.used_slot_count i + put_slots (l ++ r ∷ []) ≤ used_bound
        → IsAnswered (l ++ r ∷ []) (answer fresh stale memory i r t)
    unfolding answer fill
    answer-IsAnswered l r t v fits =
        let slots = put_slots-snoc l r in
        let hp : i < t.nprocs = omega (arith, hi, v.nprocs) in
        let grow : CanGrow t r.size = rw v.nprocs (
          omega (
            arith,
            small,
            mul_mono deliv.nprocs (t.rows + (t.rows + object_slots r.size)) (2 * bound + used_bound)
                (omega (arith, v.rows, slots, fits)),
          )) in
        let (d, n, q) =
          fill-Delivered fresh t v.delivery i hp (reply stale r) it_put grow memory
            ((r.src + widen r.offset) % 2 ^ 64) r.size refl in
        let (rows, own, others) =
          pushed_shape fresh t v.delivery i hp (reply stale r) it_put grow in
        record {
          delivery = d;
          nprocs = n ∙ v.nprocs;
          rows = elim rows [
            | inl e ↦ omega (arith, e, v.rows)
            | inr le ↦ omega (arith, le, enough, v.own, slots, fits)
          ];
          own =
              own (omega (arith, used_bound-small, v.own, slots, fits))
              ∙ omega (arith, v.own, slots);
          others = λ p ne. others p ne ∙ v.others p ne;
          queues = λ p type h. q p type (omega (arith, h, v.nprocs)) ∙ queue_snoc l r t v p type h;
        }

    start-IsAnswered : IsDelivery deliv → deliv.rows ≤ bound → IsAnswered [] deliv
    unfolding put_slots replies
    start-IsAnswered d rows = record {
      delivery = d;
      nprocs = refl;
      rows = rows;
      own = omega arith;
      others = λ q ne. refl;
      queues = λ q type h. elim (Bool-cases ((q == i) && (code type == code it_put))) [
        | inl e ↦ rw e (sym (append-nil (queue deliv q type)))
        | inr e ↦ rw e refl
      ];
    }

    -- The loop over the requests of a column.
    pub answer_column-IsAnswered :
        (t : RequestTable) (n : ℕ)
        → IsDelivery deliv
        → deliv.rows ≤ bound
        → deliv.used_slot_count i + put_slots (slice t.data_block (column t.rows i) n) ≤ used_bound
        → IsAnswered
            (slice t.data_block (column t.rows i) n)
            (answer_column n fresh stale memory t i deliv)
    unfolding answer_column
    answer_column-IsAnswered t zero d rows fits = start-IsAnswered d rows
    answer_column-IsAnswered t (suc n) d rows fits =
        let base = column t.rows i in
        let l = slice t.data_block base n in
        let r = t.data_block (base + n) in
        let whole = slice-suc t.data_block base n in
        let slots = ap put_slots whole in
        let more = put_slots-snoc l r in
        subst (λ x. IsAnswered x (answer_column (suc n) fresh stale memory t i deliv)) (sym whole)
          (answer-IsAnswered l r (answer_column n fresh stale memory t i deliv)
            (answer_column-IsAnswered t n d rows (omega (arith, fits, slots, more)))
            (omega (arith, fits, slots)))
