-- ===== src/Delivtable/Access.antt =====
-- Reads after writes through the views of a block of slots.
use bsponmpi.Base.{ℕ, ◌/◌, ◌≡◌, ◌≢◌, arith, Array, update_ne, ◌==◌, if◌then◌else◌}
use bsponmpi.Delivtable.{Slot, DelivElement, read_word, write_word, write_tag, write_next}

module _ (block : Array Slot) where
  pub read_word-write_word :
      (w v w' : ℕ)
      → read_word (write_word block w v) w' ≡ (if w' == w then v else read_word block w')
  unfolding write_word
  read_word-write_word w v w' = ground arith

  pub tag-write_word : (w v i : ℕ) → (write_word block w v i).tag ≡ (block i).tag
  unfolding write_word
  tag-write_word w v i = ground arith

  pub bytes-write_word : (w v i : ℕ) → (write_word block w v i).bytes ≡ (block i).bytes
  unfolding write_word
  bytes-write_word w v i = ground arith

  pub read_word-write_tag :
      (i : ℕ) (e : DelivElement) (w : ℕ) → read_word (write_tag block i e) w ≡ read_word block w
  unfolding write_tag
  read_word-write_tag i e w = ground arith

  pub tag-write_tag :
      (i : ℕ) (e : DelivElement) (j : ℕ)
      → (write_tag block i e j).tag ≡ (if j == i then e else (block j).tag)
  unfolding write_tag
  tag-write_tag i e j = ground arith

  pub bytes-write_tag :
      (i : ℕ) (e : DelivElement) (j : ℕ) → (write_tag block i e j).bytes ≡ (block j).bytes
  unfolding write_tag
  bytes-write_tag i e j = ground arith

  pub read_word-write_next : (i v w : ℕ) → read_word (write_next block i v) w ≡ read_word block w
  unfolding write_next
  read_word-write_next i v w = ground arith

  pub next-write_next :
      (i v j : ℕ) → (write_next block i v j).tag.next ≡ (if j == i then v else (block j).tag.next)
  unfolding write_next
  next-write_next i v j = ground arith

  pub size-write_next : (i v j : ℕ) → (write_next block i v j).tag.size ≡ (block j).tag.size
  unfolding write_next
  size-write_next i v j = ground arith

  pub info-write_next : (i v j : ℕ) → (write_next block i v j).tag.info ≡ (block j).tag.info
  unfolding write_next
  info-write_next i v j = ground arith

  pub bytes-write_next : (i v j : ℕ) → (write_next block i v j).bytes ≡ (block j).bytes
  unfolding write_next
  bytes-write_next i v j = ground arith

  -- A slot that no write goes to stays whole.
  pub slot-write_word : (w v i : ℕ) → i ≢ w / 2 → write_word block w v i ≡ block i
  unfolding write_word
  slot-write_word w v i h = update_ne block (w / 2) _ i h

  pub slot-write_tag : (i : ℕ) (e : DelivElement) (j : ℕ) → j ≢ i → write_tag block i e j ≡ block j
  unfolding write_tag
  slot-write_tag i e j h = update_ne block i _ j h

  pub slot-write_next : (i v j : ℕ) → j ≢ i → write_next block i v j ≡ block j
  unfolding write_next
  slot-write_next i v j h = update_ne block i _ j h
