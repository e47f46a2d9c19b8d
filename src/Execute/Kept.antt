-- ===== src/Execute/Kept.antt =====
-- Relinking the messages of a received table changes no queue of any column.
use bsponmpi.Base.{
  ℕ, suc, ◌+◌, ◌*◌, ◌/◌, ◌%◌, ◌<◌, ◌≡◌, ◌≢◌, ◌∙◌, refl, ap, ap₂, arith, Option, none, some, Array,
  slice, slice_ext, update_ne,
}
use bsponmpi.Exptable.{column, cell}
use bsponmpi.Delivtable.{
  Slot, DeliveryTable, ItemType, code, read_word, byte, write_next, start_of, count_of,
}
use bsponmpi.Delivtable.Chain.{hop, positions, positions_ext, hop_ext}
use bsponmpi.Delivtable.Column.{next_in, action_at, actions_at, place, queue, actions_ext}
use bsponmpi.Execute.{relink, table_now}

-- The block differs from that of `t` in links that no queue follows, and `message` is the place of
-- such a link.
pub record IsKept (t : DeliveryTable) (block : Array Slot) (message : Option ℕ) : Type 0 where
  pub words : (k : ℕ) → (block k).words ≡ (t.data_block k).words
  pub bytes : (k : ℕ) → (block k).bytes ≡ (t.data_block k).bytes
  pub size : (k : ℕ) → (block k).tag.size ≡ (t.data_block k).tag.size
  pub info : (k : ℕ) → (block k).tag.info ≡ (t.data_block k).tag.info
  pub next :
      (q : ℕ) (type : ItemType) (i : ℕ)
      → q < t.nprocs
      → suc i < count_of t q type
      → (block (column t.rows q + place t q type i)).tag.next ≡ next_in t q (place t q type i)
  pub free :
      (m : ℕ)
      → message ≡ some m
      → (q : ℕ) (type : ItemType) (i : ℕ) → q < t.nprocs
      → suc i < count_of t q type
      → column t.rows q + place t q type i ≢ m

pub unchanged : (t : DeliveryTable) → IsKept t t.data_block none
unchanged t = record {
  words = λ k. refl;
  bytes = λ k. refl;
  size = λ k. refl;
  info = λ k. refl;
  next = λ q type i h g. refl;
  free = λ m e q type i h g p. cc;
}

module _ (t : DeliveryTable) (block : Array Slot) (message : Option ℕ)
    (kept : IsKept t block message) where
  abbrev now : DeliveryTable
  now = table_now t block

  kept-word : (w : ℕ) → read_word block w ≡ read_word t.data_block w
  kept-word w = ap (λ (x : Array ℕ). x (w % 2)) (kept.words (w / 2))

  pub kept-start : (p : ℕ) (type : ItemType) → start_of now p type ≡ start_of t p type
  kept-start p type = kept-word (t.info.start p + code type)

  pub kept-count : (p : ℕ) (type : ItemType) → count_of now p type ≡ count_of t p type
  kept-count p type = kept-word (t.info.count p + code type)

  kept-payload : (a n : ℕ) → slice (byte block) a n ≡ slice (byte t.data_block) a n
  kept-payload a n =
      slice_ext _ _ _ _ n (λ k h. ap (λ (b : Array ℕ). b ((a + k) % 8)) (kept.bytes ((a + k) / 8)))

  kept-action : (p pos : ℕ) → action_at now p pos ≡ action_at t p pos
  kept-action p pos =
      let at = column t.rows p + pos in
      let payload =
        kept-payload (8 * (at + 2)) (cell now p pos).tag.size
        ∙ ap (slice (byte t.data_block) (8 * (at + 2))) (kept.size at) in
      λ k. record { size = kept.size at k; info = kept.info at k; payload = payload k }

  kept-positions :
      (p : ℕ) (type : ItemType)
      → p < t.nprocs
      → positions (next_in now p) (start_of now p type) (count_of now p type)
        ≡ positions (next_in t p) (start_of t p type) (count_of t p type)
  kept-positions p type h =
      ap₂ (positions (next_in now p)) (kept-start p type) (kept-count p type)
      ∙ positions_ext (next_in t p) (next_in now p) (start_of t p type) (count_of t p type)
          (λ i g. kept.next p type i h g)

  -- Every queue is that of the received table.
  pub queue-kept : (p : ℕ) (type : ItemType) → p < t.nprocs → queue now p type ≡ queue t p type
  queue-kept p type h =
      ap (actions_at now p) (kept-positions p type h)
      ∙ actions_ext t now p (next_in t p) (start_of t p type) (count_of t p type)
          (λ i g. kept-action p _)

  pub hop-kept :
      (p : ℕ) (type : ItemType) (i : ℕ)
      → p < t.nprocs
      → i < count_of t p type
      → hop (next_in now p) (start_of t p type) i ≡ place t p type i
  hop-kept p type i h g =
      hop_ext (next_in t p) (next_in now p) (start_of t p type) i
        (λ j l. kept.next p type j h (omega arith)) i (omega arith)

-- Relinking the message keeps the queues.
pub relink-IsKept :
    (t : DeliveryTable) (block : Array Slot) (message : Option ℕ) (pointer : ℕ)
    → IsKept t block message
    → IsKept t (relink message pointer block) message
unfolding relink write_next
relink-IsKept t block none pointer k = k
relink-IsKept t block (some m) pointer k = record {
  words = λ i. ground (arith, k.words i);
  bytes = λ i. ground (arith, k.bytes i);
  size = λ i. ground (arith, k.size i);
  info = λ i. ground (arith, k.info i);
  next = λ q type i h g.
      ap (λ (s : Slot). s.tag.next)
        (update_ne block m _ (column t.rows q + place t q type i) (k.free m refl q type i h g))
      ∙ k.next q type i h g;
  free = k.free;
}
