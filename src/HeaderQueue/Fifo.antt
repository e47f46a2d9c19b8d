-- ===== src/HeaderQueue/Fifo.antt =====
-- The queue as a list of headers, the next one first.
use bsponmpi.Base.{
  ℕ, suc, ◌+◌, ◌-◌, ◌*◌, ◌%◌, ◌^◌, ◌≤◌, ◌<◌, ◌≡◌, ◌∙◌, refl, sym, ap, ap₂, arith, true, false,
  Array, leb, slice, List, [], ◌∷◌, ◌++◌, length, length-append, length-slice, length-zero, drop,
  drop-append, drop-slice,
}
use bsponmpi.Exptable
use bsponmpi.Exptable.{ExpandableTable, column, contents}
use bsponmpi.Exptable.Layout.{IsValid, slots_fit}
use bsponmpi.Exptable.Push.{CanGrow, contents-push, push-IsValid, nprocs-push, size-push}
use bsponmpi.Reqtable.{ReqInfo}
use bsponmpi.HeaderQueue.{HeaderQueue, clear, reset, enqueue, assign, qsize, head, is_empty, next}

-- The table is valid, has one column and headers of at most 32 bytes.
pub record IsQueue {A : Type 0} (q : HeaderQueue A) : Type 0 where
  pub valid : IsValid q.tbl
  pub one : q.tbl.nprocs ≡ 1
  pub header : q.tbl.slot_size ≤ 32
  pub behind : q.start ≤ q.tbl.used_slot_count 0

-- The headers that are still in the queue.
abbrev pub items : {A : Type 0} → HeaderQueue A → List A
items q = slice q.tbl.data_block q.start (q.tbl.used_slot_count 0 - q.start)

-- The table can double its rows, and its size in bytes still fits `int`.
abbrev pub Grows : {A : Type 0} → HeaderQueue A → Type 0
Grows q = CanGrow q.tbl

-- Enqueueing a header: a new slot, and the assignments to it.
abbrev pub add : {A : Type 0} → Array A → HeaderQueue A → A → HeaderQueue A
add fresh q header = let (slot, q') = enqueue fresh q in assign q' slot header

pub length-items :
    {A : Type 0} (q : HeaderQueue A) → length (items q) ≡ q.tbl.used_slot_count 0 - q.start
length-items q = length-slice q.tbl.data_block _ _

pub items-drop :
    {A : Type 0} (q : HeaderQueue A) → IsQueue q → items q ≡ drop q.start (contents q.tbl 0)
items-drop q v =
    let first : q.start ≡ column q.tbl.rows 0 + q.start = omega arith in
    ap (λ i. slice q.tbl.data_block i (q.tbl.used_slot_count 0 - q.start)) first
    ∙ sym (drop-slice q.start q.tbl.data_block (column q.tbl.rows 0) _ v.behind)

module _ {A : Type 0} (q : HeaderQueue A) (v : IsQueue q) where
  used-lt : q.tbl.used_slot_count 0 < 2 ^ 32
  used-lt = omega (
    arith,
    v.valid.within 0 (omega (arith, v.one)),
    slots_fit q.tbl v.valid,
    ap (λ n. n * q.tbl.rows) v.one,
  )

  -- The length of the queue is that of the list, and it is empty if the list is.
  pub qsize_lem : (qsize q ≡ length (items q)) × (is_empty q ≡ leb (length (items q)) 0)
  unfolding qsize is_empty
  qsize_lem =
      (omega (arith, length-items q, used-lt, v.behind), ground (arith, length-items q, v.behind))

  module _ (fresh : Array A) (grow : Grows q) (header : A) where
    abbrev keep : ReqInfo → ℕ → ℕ → ReqInfo
    keep info _ _ = info

    abbrev pushed : ExpandableTable A ReqInfo
    pushed = Exptable.push fresh q.tbl 0 keep header

    same_push : (add fresh q header).tbl ≡ pushed
    unfolding enqueue Exptable.push2 Exptable.push Exptable.store
    same_push = refl

    some_column : 0 < q.tbl.nprocs
    some_column = omega (arith, v.one)

    same_contents : contents pushed 0 ≡ contents q.tbl 0 ++ header ∷ []
    same_contents = contents-push fresh q.tbl v.valid grow 0 some_column keep header 0 some_column

    used-add : (add fresh q header).tbl.used_slot_count 0 ≡ q.tbl.used_slot_count 0 + 1
    used-add =
        ap (λ (t : ExpandableTable A ReqInfo). t.used_slot_count 0) same_push
        ∙ sym (length-slice pushed.data_block _ _)
        ∙ ap length same_contents
        ∙ length-append (contents q.tbl 0) (header ∷ [])
        ∙ ap (λ n. n + 1) (length-slice q.tbl.data_block _ _)

    start-add : (add fresh q header).start ≡ q.start
    unfolding enqueue
    start-add = refl

    pub add-IsQueue : IsQueue (add fresh q header)
    add-IsQueue = record {
      valid = rw same_push (push-IsValid fresh q.tbl v.valid grow 0 some_column keep header);
      one =
          ap (λ (t : ExpandableTable A ReqInfo). t.nprocs) same_push
          ∙ nprocs-push fresh q.tbl v.valid grow 0 some_column keep header
          ∙ v.one;
      header = omega (
        arith,
        v.header,
        ap (λ (t : ExpandableTable A ReqInfo). t.slot_size) same_push,
        size-push fresh q.tbl v.valid grow 0 some_column keep header,
      );
      behind = omega (arith, used-add, start-add, v.behind);
    }

    -- A header is added at the end.
    pub items-add : items (add fresh q header) ≡ items q ++ header ∷ []
    items-add =
        let behind : q.start ≤ length (contents q.tbl 0) = omega (
          arith,
          v.behind,
          length-slice q.tbl.data_block (column q.tbl.rows 0) (q.tbl.used_slot_count 0),
        ) in
        items-drop (add fresh q header) add-IsQueue
        ∙ ap₂ drop start-add
            (ap (λ (t : ExpandableTable A ReqInfo). contents t 0) same_push ∙ same_contents)
        ∙ drop-append q.start (contents q.tbl 0) (header ∷ []) behind
        ∙ ap (λ l. l ++ header ∷ []) (sym (items-drop q v))

  -- The head is the first header, and going on drops it.
  pub items-next : 0 < length (items q) → (items q ≡ head q ∷ items (next q)) × IsQueue (next q)
  unfolding head next
  items-next h =
      let some_left : q.start < q.tbl.used_slot_count 0 = omega (arith, length-items q) in
      let exact : (q.start + 1) % 2 ^ 64 ≡ suc q.start = omega (arith, used-lt) in
      let size : q.tbl.used_slot_count 0 - q.start ≡ suc (q.tbl.used_slot_count 0 - suc q.start) =
        omega arith in
      (
        ap (slice q.tbl.data_block q.start) size
            ∙ ap
                (λ i.
                  q.tbl.data_block q.start ∷ slice q.tbl.data_block i (q.tbl.used_slot_count 0 - i))
                (sym exact),
        record { valid = v.valid; one = v.one; header = v.header; behind = omega arith },
      )

pub not_empty :
    {A : Type 0} (q : HeaderQueue A) → IsQueue q → is_empty q ≡ false → 0 < length (items q)
not_empty q v e = ground (arith, qsize_lem q v)

pub no_items : {A : Type 0} (q : HeaderQueue A) → IsQueue q → is_empty q ≡ true → items q ≡ []
no_items q v e = length-zero (items q) (ground (arith, qsize_lem q v))

-- A queue that is reset is in order and empty.
pub reset-IsQueue :
    {A : Type 0} (fresh : Array A) (q : HeaderQueue A)
    → IsQueue q
    → IsQueue (reset fresh q) × (items (reset fresh q) ≡ [])
unfolding reset clear Exptable.resetrowcount
reset-IsQueue fresh q v = (
  record {
    valid = record {
      has_rows = omega arith;
      has_size = v.valid.has_size;
      fits = rw v.one (omega (arith, v.header));
      within = λ p h. ground (arith, v.one);
    };
    one = v.one;
    header = v.header;
    behind = omega arith;
  },
  refl,
)
