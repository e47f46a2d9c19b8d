-- ===== src/Delivtable/Column.antt =====
-- A column of a DeliveryTable as six queues of actions, and what moving a column keeps.
use bsponmpi.Base.{
  ℕ, zero, suc, ◌+◌, ◌*◌, ◌/◌, ◌%◌, ◌^◌, ◌≤◌, ◌<◌, ◌≡◌, ◌≢◌, ◌∙◌, refl, sym, ap, ap₂, arith, Array,
  slice, slice_ext, List, [], ◌∷◌, ◌++◌,
}
use bsponmpi.Exptable.{column, cell}
use bsponmpi.Exptable.Layout.{IsValid, row_bound}
use bsponmpi.Delivtable.Extent.{object_slots}
use bsponmpi.Delivtable.{
  Slot, DInfo, byte, DeliveryTable, ItemType, code, read_word, start_of, count_of, end_of,
  column_words, index_size, tag_size, aligned_size,
}
use bsponmpi.Delivtable.Chain.{hop, positions, IsChain, hop_kept, positions_kept, IsChain-kept}
use bsponmpi.Delivtable.Index.{code-lt, PointsTo}

-- The `next` field and the size in slots of the object at slot `pos` of a column.
abbrev pub next_in : DeliveryTable → ℕ → Array ℕ
next_in t p pos = (cell t p pos).tag.next

abbrev pub extent_in : DeliveryTable → ℕ → Array ℕ
extent_in t p pos = object_slots (cell t p pos).tag.size

-- An action as its receiver sees it: the tag without the link, and the payload.
pub record Action : Type 0 where
  pub size : ℕ
  pub info : DInfo
  pub payload : List ℕ

abbrev pub action_at : DeliveryTable → ℕ → ℕ → Action
action_at t p pos = record {
  size = (cell t p pos).tag.size;
  info = (cell t p pos).tag.info;
  payload =
      slice (byte t.data_block) (8 * (column t.rows p + pos + tag_size)) (cell t p pos).tag.size;
}

abbrev pub place : DeliveryTable → ℕ → ItemType → ℕ → ℕ
place t p type i = hop (next_in t p) (start_of t p type) i

-- The actions at the given places.
abbrev pub actions_at : DeliveryTable → ℕ → List ℕ → List Action
actions_at t p [] = []
actions_at t p (pos ∷ l) = action_at t p pos ∷ actions_at t p l

-- The actions of a type in a column, oldest first: what the loops of deliveryTable_execute visit.
abbrev pub queue : DeliveryTable → ℕ → ItemType → List Action
queue t p type = actions_at t p (positions (next_in t p) (start_of t p type) (count_of t p type))

pub record IsColumn (t : DeliveryTable) (p : ℕ) : Type 0 where
  pub points : PointsTo t p
  pub low : index_size ≤ t.used_slot_count p
  pub chain :
      (type : ItemType)
      → IsChain
          (next_in t p)
          (extent_in t p)
          index_size
          (t.used_slot_count p)
          (start_of t p type)
          (count_of t p type)
          (end_of t p type)
  pub apart :
      (a b : ItemType) (i j : ℕ)
      → a ≢ b
      → i < count_of t p a
      → j < count_of t p b
      → place t p a i ≢ place t p b j

-- The slots have the size of an ALIGNED_TYPE, and every column is in order.
pub record IsDelivery (t : DeliveryTable) : Type 0 where
  pub valid : IsValid t
  pub aligned : t.slot_size ≡ aligned_size
  pub columns : (p : ℕ) → p < t.nprocs → IsColumn t p

-- The bytes of a column fit `int`.
pub rows_small :
    (t : DeliveryTable) → IsDelivery t → (p : ℕ) → p < t.nprocs → t.rows * aligned_size < 2 ^ 31
rows_small t d p h =
    let total : t.nprocs * t.rows * aligned_size < 2 ^ 31 = rw (← d.aligned) d.valid.fits in
    omega (arith, total, row_bound t.nprocs t.rows p t.rows h (omega arith))

-- Column `p` of `t'` has the used slots that it has in `t`.
pub record SameColumn (t t' : DeliveryTable) (p : ℕ) : Type 0 where
  pub used : t'.used_slot_count p ≡ t.used_slot_count p
  pub cells : (i : ℕ) → i < t.used_slot_count p → cell t' p i ≡ cell t p i
  pub points : PointsTo t' p

-- Actions that are equal place by place make equal queues.
pub actions_ext :
    (t t' : DeliveryTable) (p : ℕ) (next : Array ℕ) (s n : ℕ)
    → ((i : ℕ) → i < n → action_at t' p (hop next s i) ≡ action_at t p (hop next s i))
    → actions_at t' p (positions next s n) ≡ actions_at t p (positions next s n)
unfolding hop positions
actions_ext t t' p next s zero h = refl
actions_ext t t' p next s (suc n) h =
    ap₂ ◌∷◌ (h 0 (omega arith))
      (actions_ext t t' p next (s + next s) n (λ i q. h (suc i) (omega arith)))

pub actions_at-append :
    (t : DeliveryTable) (p : ℕ) (l m : List ℕ)
    → actions_at t p (l ++ m) ≡ actions_at t p l ++ actions_at t p m
actions_at-append t p [] m = refl
actions_at-append t p (x ∷ l) m = ap (◌∷◌ (action_at t p x)) (actions_at-append t p l m)

-- Word `a` of a column stands in slot `a / 2`.
pub read_word-at :
    (block : Array Slot) (c w a : ℕ)
    → w ≡ 2 * c + a
    → read_word block w ≡ (block (c + a / 2)).words (a % 2)
read_word-at block c w a e = ap₂ (λ i k. (block i).words k) (omega arith) (omega arith)

-- Equal tags and bytes in the slots of an object make equal actions.
pub action_at_ext :
    (t t' : DeliveryTable) (p pos : ℕ)
    → (cell t' p pos).tag.size ≡ (cell t p pos).tag.size
    → (cell t' p pos).tag.info ≡ (cell t p pos).tag.info
    → ((i : ℕ) → pos ≤ i → i < pos + extent_in t p pos → (cell t' p i).bytes ≡ (cell t p i).bytes)
    → action_at t' p pos ≡ action_at t p pos
action_at_ext t t' p pos size info bytes =
    λ k. record { size = size k; info = info k; payload = same_payload k }
  where
    start' : ℕ
    start' = 8 * (column t'.rows p + pos + tag_size)

    start : ℕ
    start = 8 * (column t.rows p + pos + tag_size)

    same_byte :
        (k : ℕ)
        → k < (cell t p pos).tag.size
        → byte t'.data_block (start' + k) ≡ byte t.data_block (start + k)
    same_byte k h =
        ap₂ (λ i j. (t'.data_block i).bytes j)
          (let e : (start' + k) / 8 ≡ column t'.rows p + (pos + tag_size + k / 8) = omega arith in
            e)
          (let e : (start' + k) % 8 ≡ k % 8 = omega arith in e)
        ∙ ap (λ (b : Array ℕ). b (k % 8))
            (bytes (pos + tag_size + k / 8) (omega arith) (omega arith))
        ∙ ap₂ (λ i j. (t.data_block i).bytes j)
            (let e : column t.rows p + (pos + tag_size + k / 8) ≡ (start + k) / 8 = omega arith in
              e)
            (let e : k % 8 ≡ (start + k) % 8 = omega arith in e)

    same_payload : (action_at t' p pos).payload ≡ (action_at t p pos).payload
    same_payload =
        ap (slice (byte t'.data_block) start') size
        ∙ slice_ext (byte t'.data_block) (byte t.data_block) start' start (cell t p pos).tag.size
            same_byte

module _ (t t' : DeliveryTable) (p : ℕ) (c : IsColumn t p) (s : SameColumn t t' p) where
  same_word :
      (w w' a : ℕ)
      → w ≡ column_words t.rows p + a
      → w' ≡ column_words t'.rows p + a
      → a < 18
      → read_word t'.data_block w' ≡ read_word t.data_block w
  same_word w w' a e e' h =
      read_word-at t'.data_block (column t'.rows p) w' a e'
      ∙ ap (λ (x : Slot). x.words (a % 2)) (s.cells (a / 2) (omega (arith, c.low)))
      ∙ sym (read_word-at t.data_block (column t.rows p) w a e)

  module _ (type : ItemType) where
    same_start : start_of t' p type ≡ start_of t p type
    same_start =
        same_word _ _ (code type) (omega (arith, c.points.start)) (omega (arith, s.points.start))
          (omega (arith, code-lt type))

    same_count : count_of t' p type ≡ count_of t p type
    same_count =
        same_word _ _ (6 + code type) (omega (arith, c.points.count))
          (omega (arith, s.points.count)) (omega (arith, code-lt type))

    same_end : end_of t' p type ≡ end_of t p type
    same_end =
        same_word _ _ (12 + code type) (omega (arith, c.points.end_)) (omega (arith, s.points.end_))
          (omega (arith, code-lt type))

    used_place : (i : ℕ) → i < count_of t p type → place t p type i < t.used_slot_count p
    used_place i h = omega (arith, (c.chain type).inside i h)

    kept_next :
        (i : ℕ)
        → i < count_of t p type
        → next_in t' p (place t p type i) ≡ next_in t p (place t p type i)
    kept_next i h = ap (λ (x : Slot). x.tag.next) (s.cells _ (used_place i h))

    moved-IsChain :
        IsChain
          (next_in t' p)
          (extent_in t' p)
          index_size
          (t.used_slot_count p)
          (start_of t p type)
          (count_of t p type)
          (end_of t p type)
    moved-IsChain =
        IsChain-kept (c.chain type) (next_in t' p) (extent_in t' p) (t.used_slot_count p)
          (λ q. omega arith) (omega arith)
          (λ q l u. ap (λ (x : Slot). object_slots x.tag.size) (s.cells q u)) kept_next

    same_place : (i : ℕ) → i < count_of t p type → place t' p type i ≡ place t p type i
    same_place i h =
        ap (λ n. hop (next_in t' p) n i) same_start
        ∙ hop_kept (c.chain type) (next_in t' p) (extent_in t' p) (t.used_slot_count p)
            (λ q. omega arith) (omega arith)
            (λ q l u. ap (λ (x : Slot). object_slots x.tag.size) (s.cells q u)) kept_next i h

    same_positions :
        positions (next_in t' p) (start_of t' p type) (count_of t' p type)
        ≡ positions (next_in t p) (start_of t p type) (count_of t p type)
    same_positions =
        ap₂ (λ n k. positions (next_in t' p) n k) same_start same_count
        ∙ positions_kept (c.chain type) (next_in t' p) (extent_in t' p) (t.used_slot_count p)
            (λ q. omega arith) (omega arith)
            (λ q l u. ap (λ (x : Slot). object_slots x.tag.size) (s.cells q u)) kept_next

    same_action :
        (i : ℕ)
        → i < count_of t p type
        → action_at t' p (place t p type i) ≡ action_at t p (place t p type i)
    same_action i h =
        action_at_ext t t' p (place t p type i)
          (ap (λ (x : Slot). x.tag.size) (s.cells _ (used_place i h)))
          (ap (λ (x : Slot). x.tag.info) (s.cells _ (used_place i h)))
          (λ j l u.
            ap (λ (x : Slot). x.bytes) (s.cells j (omega (arith, (c.chain type).inside i h))))

    -- A column that is moved whole holds the same queues.
    pub same_queue : queue t' p type ≡ queue t p type
    same_queue =
        ap (actions_at t' p) same_positions
        ∙ actions_ext t t' p (next_in t p) (start_of t p type) (count_of t p type) same_action

  -- A column that is moved whole stays in order.
  pub same-IsColumn : IsColumn t' p
  same-IsColumn = record {
    points = s.points;
    low = rw s.used c.low;
    chain =
        λ type. rw (s.used, same_start type, same_count type, same_end type) (moved-IsChain type);
    apart = λ a b i j ne hi hj.
        let hi' : i < count_of t p a = omega (arith, same_count a) in
        let hj' : j < count_of t p b = omega (arith, same_count b) in
        rw (same_place a i hi', same_place b j hj') (c.apart a b i j ne hi' hj');
  }
