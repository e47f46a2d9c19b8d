-- ===== src/MessageBuffer/Blocks.antt =====
-- A buffered block holds what the memory held at the call, and the earlier blocks stay.
use bsponmpi.Base.{
  ℕ, ◌+◌, ◌-◌, ◌*◌, ◌/◌, ◌%◌, ◌^◌, ◌≤◌, ◌<◌, ◌≡◌, ◌∙◌, refl, ap, arith, true, Array, slice,
  slice_ext, ltb, leb, ◌&&◌, if◌then◌else◌,
}
use bsponmpi.Avector.{AVector, resize, exact_size}
use bsponmpi.MessageBuffer.{MessageBuffer, stored, make_room, buffer, clear}

-- The storage is its own, and holds the words that are in use.
pub record IsBuffer (b : MessageBuffer) : Type 0 where
  pub mine : b.storage.block_is_mine ≡ true
  pub fits : b.storage_end ≤ b.storage.size
  pub small : b.storage.size < 2 ^ 63

module _ (fresh : Array (Array ℕ)) (b : MessageBuffer) (v : IsBuffer b) (memory : Array ℕ)
    (src nbytes : ℕ) (room : b.storage_end + nbytes < 2 ^ 62) where
  abbrev after : MessageBuffer
  after = (buffer fresh b memory src nbytes).1

  abbrev end_ : ℕ
  end_ = (b.storage_end + (nbytes + 7) % 2 ^ 64 / 8) % 2 ^ 64

  end_lem : end_ ≡ b.storage_end + (nbytes + 7) / 8
  end_lem = omega arith

  abbrev roomy : AVector (Array ℕ)
  roomy = make_room fresh b.storage end_

  roomy_lem : (i : ℕ) → i < b.storage_end → roomy.block i ≡ b.storage.block i
  unfolding make_room resize exact_size
  roomy_lem i h = ground (arith, v.mine, v.fits)

  roomy-shape : (roomy.block_is_mine ≡ true) × (end_ ≤ roomy.size) × (roomy.size < 2 ^ 63)
  unfolding make_room resize exact_size
  roomy-shape = ground (arith, v.mine, v.fits, v.small)

  pub buffer-IsBuffer :
      IsBuffer after
      × ((buffer fresh b memory src nbytes).0 ≡ b.storage_end)
      × (after.storage_end ≡ b.storage_end + (nbytes + 7) / 8)
  unfolding buffer
  buffer-IsBuffer =
      (record { mine = roomy-shape.0; fits = roomy-shape.1; small = roomy-shape.2 }, refl, end_lem)

  stored-buffer :
      (a : ℕ)
      → stored after a ≡ (
          if leb (8 * b.storage_end) a && ltb a (8 * b.storage_end + nbytes)
          then memory (src + (a - 8 * b.storage_end))
          else roomy.block (a / 8) (a % 8))
  unfolding buffer
  stored-buffer a = ground arith

  -- The earlier blocks stay.
  pub stored-before : (a : ℕ) → a < 8 * b.storage_end → stored after a ≡ stored b a
  stored-before a h =
      let same = ap (λ (w : Array ℕ). w (a % 8)) (roomy_lem (a / 8) (omega arith)) in
      ground (arith, stored-buffer a, same)

  pub slice-before :
      (a n : ℕ) → a + n ≤ 8 * b.storage_end → slice (stored after) a n ≡ slice (stored b) a n
  slice-before a n h = slice_ext _ _ _ _ n (λ k l. stored-before (a + k) (omega arith))

  -- The new block holds the bytes that the memory holds at the call.
  pub slice-stored : slice (stored after) (8 * b.storage_end) nbytes ≡ slice memory src nbytes
  slice-stored =
      slice_ext _ _ _ _ nbytes (λ k h. stored-buffer (8 * b.storage_end + k) ∙ ground arith)

-- Clearing a buffer leaves it in order and empty.
pub clear-IsBuffer :
    (fresh : Array (Array ℕ)) (b : MessageBuffer)
    → IsBuffer b
    → IsBuffer (clear fresh b) × ((clear fresh b).storage_end ≡ 0)
unfolding clear resize
clear-IsBuffer fresh b v = ground (arith, v.mine)
