-- ===== src/MessageBuffer.antt =====
-- include/bsp_tools/MessageBuffer.h: blocks of bytes in a vector of 8 byte words, each at a word
-- boundary. A word is the array of its 8 bytes. `memory` is the local memory by byte address.
pub mod Blocks
use bsponmpi.Base.{ℕ, ◌+◌, ◌-◌, ◌*◌, ◌/◌, ◌%◌, ◌^◌, Array, ltb, leb, ◌&&◌, if◌then◌else◌}
use bsponmpi.Avector
use bsponmpi.Avector.{AVector, resize, exact_size}
use bsponmpi.Bspx.{delivtab_min_size}

pub record MessageBuffer : Type 0 where
  pub storage : AVector (Array ℕ)
  pub storage_end : ℕ

-- The constructor.
abbrev pub make : Array (Array ℕ) → MessageBuffer
make fresh = record { storage = Avector.make fresh; storage_end = 0 }

-- Byte `a` of the storage.
abbrev pub stored : MessageBuffer → Array ℕ
stored b a = b.storage.block (a / 8) (a % 8)

-- `memcpy` of `n` bytes of the memory to word `pos` of the storage.
abbrev pub copy_words : Array (Array ℕ) → ℕ → Array ℕ → ℕ → ℕ → Array (Array ℕ)
copy_words block pos memory src n i k =
    let a = 8 * i + k in
    if ltb k 8 && leb (8 * pos) a && ltb a (8 * pos + n)
    then memory (src + (a - 8 * pos))
    else block i k

-- The storage after making room for `storage_end` words.
unfoldable pub make_room : Array (Array ℕ) → AVector (Array ℕ) → ℕ → AVector (Array ℕ)
unfolding resize exact_size
make_room fresh storage storage_end =
    if leb (exact_size storage) storage_end
    then resize fresh storage ((storage_end + delivtab_min_size + 1) % 2 ^ 64) 1
    else storage

-- The word where the block starts, and the buffer.
unfoldable pub buffer : Array (Array ℕ) → MessageBuffer → Array ℕ → ℕ → ℕ → ℕ × MessageBuffer
unfolding make_room
buffer fresh b memory src nbytes =
    let pos = b.storage_end in
    let storage_end = (b.storage_end + (nbytes + 7) % 2 ^ 64 / 8) % 2 ^ 64 in
    let storage = make_room fresh b.storage storage_end in
    (
      pos,
      record {
        storage = record storage { block = copy_words storage.block pos memory src nbytes };
        storage_end = storage_end;
      },
    )

unfoldable pub clear : Array (Array ℕ) → MessageBuffer → MessageBuffer
unfolding resize
clear fresh b = record { storage = resize fresh b.storage delivtab_min_size 1; storage_end = 0 }
