-- ===== src/Delivtable/Index.antt =====
-- What the steps of push write: the index words, the links, the tag of the new object.
use bsponmpi.Base.{
  ℕ, ◌+◌, ◌-◌, ◌^◌, ◌≤◌, ◌<◌, ◌≡◌, ◌≢◌, ◌∙◌, ap, arith, ◌⊎◌, u32, Array, Bool, ◌==◌, ◌&&◌, not,
  if◌then◌else◌, Bool-cases, inl, inr,
}
use bsponmpi.Exptable.{column}
use bsponmpi.Delivtable.{
  Slot, DelivElement, DeliveryTable, ItemType, it_popreg, it_pushreg, it_put, it_get, it_send,
  it_settag, code, read_word, write_word, count_of, end_of, column_words, link, append,
}
use bsponmpi.Delivtable.Access.{
  read_word-write_word, tag-write_word, bytes-write_word, read_word-write_tag, tag-write_tag,
  bytes-write_tag, read_word-write_next, next-write_next, size-write_next, info-write_next,
  bytes-write_next, slot-write_word, slot-write_tag, slot-write_next,
}

pub code-lt : (type : ItemType) → code type < 6
code-lt it_popreg = omega arith
code-lt it_pushreg = omega arith
code-lt it_put = omega arith
code-lt it_get = omega arith
code-lt it_send = omega arith
code-lt it_settag = omega arith

pub code-injective : (a b : ItemType) → code a ≡ code b → a ≡ b
code-injective a b h = ground arith

pub ItemType-discrete : Discrete ItemType
ItemType-discrete = hlevel

-- The three arrays of a column stand at its top.
pub record PointsTo (t : DeliveryTable) (p : ℕ) : Type 0 where
  pub start : t.info.start p ≡ column_words t.rows p
  pub count : t.info.count p ≡ column_words t.rows p + 6
  pub end_ : t.info.end_ p ≡ column_words t.rows p + 12

module _ (t : DeliveryTable) (proc : ℕ) (element : DelivElement) (type : ItemType)
    (points : PointsTo t proc) where
  abbrev used : ℕ
  used = t.used_slot_count proc

  abbrev base : ℕ
  base = column t.rows proc

  abbrev fresh_list : Bool
  fresh_list = count_of t proc type == 0

  link-word :
      (w : ℕ)
      → read_word (link t proc type) w ≡ (
          if fresh_list && (w == t.info.start proc + code type)
          then used
          else read_word t.data_block w)
  unfolding link
  link-word w = elim (Bool-cases fresh_list) [
    | inl e ↦ rw e (read_word-write_word t.data_block (t.info.start proc + code type) used w)
    | inr e ↦ rw e (read_word-write_next t.data_block _ _ w)
  ]

  link-next :
      (j : ℕ)
      → (link t proc type j).tag.next ≡ (
          if not fresh_list && (j == base + end_of t proc type)
          then u32 (used + 2 ^ 32 - end_of t proc type)
          else (t.data_block j).tag.next)
  unfolding link
  link-next j = elim (Bool-cases fresh_list) [
    | inl e ↦ rw e (ap (λ (x : DelivElement). x.next) (tag-write_word t.data_block _ used j))
    | inr e ↦ rw e (next-write_next t.data_block _ _ j)
  ]

  link-size : (j : ℕ) → (link t proc type j).tag.size ≡ (t.data_block j).tag.size
  unfolding link
  link-size j = elim (Bool-cases fresh_list) [
    | inl e ↦ rw e (ap (λ (x : DelivElement). x.size) (tag-write_word t.data_block _ used j))
    | inr e ↦ rw e (size-write_next t.data_block _ _ j)
  ]

  link-info : (j : ℕ) → (link t proc type j).tag.info ≡ (t.data_block j).tag.info
  unfolding link
  link-info j = elim (Bool-cases fresh_list) [
    | inl e ↦ rw e (ap (λ (x : DelivElement). x.info) (tag-write_word t.data_block _ used j))
    | inr e ↦ rw e (info-write_next t.data_block _ _ j)
  ]

  link-bytes : (j : ℕ) → (link t proc type j).bytes ≡ (t.data_block j).bytes
  unfolding link
  link-bytes j = elim (Bool-cases fresh_list) [
    | inl e ↦ rw e (bytes-write_word t.data_block _ used j)
    | inr e ↦ rw e (bytes-write_next t.data_block _ _ j)
  ]

  abbrev appended : DeliveryTable
  appended = append t proc element type

  abbrev start_word : ℕ
  start_word = t.info.start proc + code type

  abbrev count_word : ℕ
  count_word = t.info.count proc + code type

  abbrev end_word : ℕ
  end_word = t.info.end_ proc + code type

  words_apart : (count_word ≢ end_word) × (count_word ≢ start_word) × (end_word ≢ start_word)
  words_apart = omega (arith, points.start, points.count, points.end_, code-lt type)

  abbrev ended : Array Slot
  ended = write_word (link t proc type) end_word used

  count_kept : read_word ended count_word ≡ count_of t proc type
  count_kept =
      read_word-write_word (link t proc type) end_word used count_word
      ∙ ground (arith, words_apart, link-word count_word)

  pub append-word :
      (w : ℕ)
      → read_word appended.data_block w ≡ (
          if w == count_word
          then u32 (count_of t proc type + 1)
          else if w == end_word
          then used
          else if fresh_list && (w == start_word)
          then used
          else read_word t.data_block w)
  unfolding append
  append-word w =
      read_word-write_tag (write_word ended count_word (u32 (read_word ended count_word + 1)))
        (base + used) element w
      ∙ read_word-write_word ended count_word (u32 (read_word ended count_word + 1)) w
      ∙ ap (λ n. if w == count_word then u32 (n + 1) else read_word ended w) count_kept
      ∙ ap (λ n. if w == count_word then u32 (count_of t proc type + 1) else n)
          (read_word-write_word (link t proc type) end_word used w
            ∙ ap (λ n. if w == end_word then used else n) (link-word w))

  abbrev counted : Array Slot
  counted = write_word ended count_word (u32 (read_word ended count_word + 1))

  tag-counted : (j : ℕ) → (counted j).tag ≡ (link t proc type j).tag
  tag-counted j =
      tag-write_word ended count_word _ j ∙ tag-write_word (link t proc type) end_word used j

  append-tag :
      (j : ℕ)
      → (appended.data_block j).tag
        ≡ (if j == base + used then element else (link t proc type j).tag)
  unfolding append
  append-tag j =
      tag-write_tag counted (base + used) element j
      ∙ ap (λ (x : DelivElement). if j == base + used then element else x) (tag-counted j)

  pub append-next :
      (j : ℕ)
      → j ≢ base + used
      → (appended.data_block j).tag.next ≡ (
          if not fresh_list && (j == base + end_of t proc type)
          then u32 (used + 2 ^ 32 - end_of t proc type)
          else (t.data_block j).tag.next)
  append-next j h = ap (λ (x : DelivElement). x.next) (append-tag j) ∙ ground (arith, link-next j)

  pub append-size :
      (j : ℕ) → j ≢ base + used → (appended.data_block j).tag.size ≡ (t.data_block j).tag.size
  append-size j h = ap (λ (x : DelivElement). x.size) (append-tag j) ∙ ground (arith, link-size j)

  pub append-info :
      (j : ℕ) → j ≢ base + used → (appended.data_block j).tag.info ≡ (t.data_block j).tag.info
  append-info j h = ap (λ (x : DelivElement). x.info) (append-tag j) ∙ ground (arith, link-info j)

  pub append-new : (appended.data_block (base + used)).tag ≡ element
  append-new = append-tag (base + used) ∙ ground arith

  pub append-bytes : (j : ℕ) → (appended.data_block j).bytes ≡ (t.data_block j).bytes
  unfolding append
  append-bytes j =
      bytes-write_tag counted (base + used) element j
      ∙ bytes-write_word ended count_word _ j
      ∙ bytes-write_word (link t proc type) end_word used j
      ∙ link-bytes j

  -- Outside column `proc` no slot is written.
  module _ (j : ℕ) (outside : (j < base) ⊎ (base + t.rows ≤ j)) (tall : 9 ≤ t.rows) where
    link-slot :
        (count_of t proc type ≢ 0 → end_of t proc type < t.rows)
        → link t proc type j ≡ t.data_block j
    unfolding link
    link-slot h = elim (Bool-cases fresh_list) [
      | inl e ↦ rw e (
          slot-write_word t.data_block start_word used j
            (omega (arith, points.start, code-lt type)))
      | inr e ↦ rw e (
          slot-write_next t.data_block (base + end_of t proc type) _ j
            (let in_column = h (ground arith) in omega arith))
    ]

    pub append-slot :
        (count_of t proc type ≢ 0 → end_of t proc type < t.rows)
        → used < t.rows
        → appended.data_block j ≡ t.data_block j
    unfolding append
    append-slot h u =
        slot-write_tag counted (base + used) element j (omega arith)
        ∙ slot-write_word ended count_word _ j (omega (arith, points.count, code-lt type))
        ∙ slot-write_word (link t proc type) end_word used j
            (omega (arith, points.end_, code-lt type))
        ∙ link-slot h
