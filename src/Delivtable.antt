-- ===== src/Delivtable.antt =====
-- src/bsp_delivtable.h: the DeliveryTable, whose columns hold six linked lists of actions, one for
-- each ItemType, behind an index of 18 `unsigned int`.
-- A slot is the 8 bytes of an ALIGNED_TYPE. The source reads it as the head of a DelivElement, as
-- two index words or as payload bytes; `Slot` has a view for each, and a write through one view
-- leaves the others alone (the source never reads a slot through another view than the one that
-- it was written through). Likewise `DInfo` has a field for each member of the union.
-- Sizes are those of an LP64 machine: 8 for a pointer, 16 for a DelivElement.
pub mod Extent
pub mod Access
pub mod Chain
pub mod Index
pub mod Column
pub mod Extends
pub mod Append
pub mod Grow
pub mod Room
pub mod Rows
pub mod Queue
pub mod Fill
pub mod Push
pub mod Clear
pub mod Deliver
pub mod Parts
mod Tests
use bsponmpi.Base.{
  ℕ, zero, suc, ◌+◌, ◌-◌, ◌*◌, ◌/◌, ◌%◌, ◌^◌, Bool, true, false, List, [], ◌∷◌, u32, max_of, int_lt,
  Array, update, memset, ltb, leb, ◌==◌, ◌&&◌, if◌then◌else◌,
}
use bsponmpi.Exptable
use bsponmpi.Exptable.{ExpandableTable, column, cell, no_slots}

pub data ItemType : Type 0 where
  it_popreg it_pushreg it_put it_get it_send it_settag : ItemType

-- The value of the enumerator.
abbrev pub code : ItemType → ℕ
code it_popreg = 0
code it_pushreg = 1
code it_put = 2
code it_get = 3
code it_send = 4
code it_settag = 5

pub record DInfo : Type 0 where
  pub put_dst : ℕ
  pub payload_size : ℕ
  pub push_address : ℕ
  pub pop_address : ℕ
  pub tag_size : ℕ

pub record DelivElement : Type 0 where
  pub size : ℕ
  pub next : ℕ
  pub info : DInfo

pub record Slot : Type 0 where
  pub tag : DelivElement
  pub words : Array ℕ
  pub bytes : Array ℕ

-- `start`, `count` and `end` point to an array of six words in the block, for each column. Word
-- `w` of the block is word `w % 2` of slot `w / 2`.
pub record DelivInfo : Type 0 where
  pub start : Array ℕ
  pub count : Array ℕ
  pub end_ : Array ℕ

abbrev pub DeliveryTable : Type 0
DeliveryTable = ExpandableTable Slot DelivInfo

-- sizeof(ALIGNED_TYPE), sizeof(DelivElement)
abbrev pub aligned_size : ℕ
aligned_size = 8

abbrev pub element_size : ℕ
element_size = 16

abbrev pub index_size : ℕ
index_size = no_slots (3 * 6 * 4) aligned_size

abbrev pub tag_size : ℕ
tag_size = no_slots element_size aligned_size

-- What `tag_size + no_slots (element->size, slot_size)` is as an `unsigned int`.
unfoldable pub object_size : ℕ → ℕ
object_size size = u32 (tag_size + no_slots size aligned_size)

abbrev pub zero_slot : Slot
zero_slot = record {
  tag = record {
    size = 0;
    next = 0;
    info = record {
      put_dst = 0;
      payload_size = 0;
      push_address = 0;
      pop_address = 0;
      tag_size = 0;
    };
  };
  words = λ _. 0;
  bytes = λ _. 0;
}

-- Reading and writing the block through the views.
abbrev pub read_word : Array Slot → ℕ → ℕ
read_word block w = (block (w / 2)).words (w % 2)

-- Byte `a` of the block.
abbrev pub byte : Array Slot → Array ℕ
byte block a = (block (a / 8)).bytes (a % 8)

unfoldable pub write_word : Array Slot → ℕ → ℕ → Array Slot
write_word block w v =
    let s = block (w / 2) in update block (w / 2) (record s { words = update s.words (w % 2) v })

unfoldable pub write_tag : Array Slot → ℕ → DelivElement → Array Slot
write_tag block i e = update block i (record (block i) { tag = e })

unfoldable pub write_next : Array Slot → ℕ → ℕ → Array Slot
write_next block i v =
    let s = block i in update block i (record s { tag = record s.tag { next = v } })

-- The arrays of column `p`: where the first and the last action of a type are, and their number.
abbrev pub start_of : DeliveryTable → ℕ → ItemType → ℕ
start_of t p type = read_word t.data_block (t.info.start p + code type)

abbrev pub count_of : DeliveryTable → ℕ → ItemType → ℕ
count_of t p type = read_word t.data_block (t.info.count p + code type)

abbrev pub end_of : DeliveryTable → ℕ → ItemType → ℕ
end_of t p type = read_word t.data_block (t.info.end_ p + code type)

-- `(unsigned int *) ((char *) data + p * rows * sizeof(ALIGNED_TYPE))`
abbrev pub column_words : ℕ → ℕ → ℕ
column_words rows p = 2 * column rows p

-- One round of the loops that point the index pointers to the top of column `p`.
abbrev pub point_column : DeliveryTable → ℕ → DeliveryTable
point_column t p = record t {
  info = record {
    start = update t.info.start p (column_words t.rows p);
    count = update t.info.count p (column_words t.rows p + 6);
    end_ = update t.info.end_ p (column_words t.rows p + 12);
  };
}

-- One round of the loops that zero the index of column `p` and put the fill mark behind it.
abbrev pub clear_column : DeliveryTable → ℕ → DeliveryTable
clear_column t p = record t {
  data_block = memset t.data_block (column t.rows p) zero_slot index_size;
  used_slot_count = update t.used_slot_count p index_size;
}

-- The loops, for the columns below `n`.
unfoldable pub point_columns : ℕ → DeliveryTable → DeliveryTable
point_columns zero t = t
point_columns (suc p) t = point_column (point_columns p t) p

unfoldable pub clear_columns : ℕ → DeliveryTable → DeliveryTable
clear_columns zero t = t
clear_columns (suc p) t = clear_column (clear_columns p t) p

-- The loop of initialize and of resetrowcount does both in each round.
unfoldable pub index_columns : ℕ → DeliveryTable → DeliveryTable
index_columns zero t = t
index_columns (suc p) t = clear_column (point_column (index_columns p t) p) p

-- `pointers` is what the three arrays from `bsp_malloc` hold.
unfoldable pub initialize : Array Slot → DelivInfo → ℕ → ℕ → DeliveryTable
unfolding index_columns Exptable.initialize
initialize fresh pointers nprocs rows =
    index_columns nprocs
      (Exptable.initialize fresh nprocs (rows + index_size) aligned_size pointers)

unfoldable pub reset : DeliveryTable → DeliveryTable
unfolding clear_columns Exptable.reset
reset t = clear_columns t.nprocs (Exptable.reset t)

unfoldable pub empty_loop : ℕ → DeliveryTable → Bool
empty_loop zero t = true
empty_loop (suc p) t =
    let rest = empty_loop p t in if ltb index_size (t.used_slot_count p) then false else rest

-- The columns are visited from the last to the first here; the answer does not depend on it.
unfoldable pub empty : DeliveryTable → Bool
unfolding empty_loop
empty t = empty_loop t.nprocs t

unfoldable pub expand : Array Slot → DeliveryTable → ℕ → DeliveryTable
unfolding point_columns Exptable.expand
expand fresh t rows = point_columns t.nprocs (Exptable.expand fresh t rows t.info)

unfoldable pub resetrowcount : Array Slot → DeliveryTable → ℕ → DeliveryTable
unfolding index_columns Exptable.resetrowcount
resetrowcount fresh t rows = index_columns t.nprocs (Exptable.resetrowcount fresh t rows)

-- The first step of push: expand if the object does not fit. `free_space` is an `int` and the test
-- is one of signed numbers; the space that is needed is computed without sign.
unfoldable pub make_room : Array Slot → DeliveryTable → ℕ → ℕ → DeliveryTable
unfolding object_size
make_room fresh t proc size =
    let free_space = u32 (t.rows + 2 ^ 32 - t.used_slot_count proc) in
    if int_lt free_space (object_size size)
    then expand fresh t (max_of t.rows (u32 (object_size size + 2 ^ 32 - free_space)))
    else t

-- The second step: the new object, at slot `used_slot_count` of the column, becomes the first of
-- its list, or the one behind the last.
unfoldable pub link : DeliveryTable → ℕ → ItemType → Array Slot
unfolding write_word write_next
link t proc type =
    let used = t.used_slot_count proc in
    if count_of t proc type == 0
    then write_word t.data_block (t.info.start proc + code type) used
    else write_next t.data_block (column t.rows proc + end_of t proc type)
        (u32 (used + 2 ^ 32 - end_of t proc type))

-- The third step: the index, the tag and the fill mark.
unfoldable pub append : DeliveryTable → ℕ → DelivElement → ItemType → DeliveryTable
unfolding link write_tag object_size
append t proc element type =
    let used = t.used_slot_count proc in
    let linked = link t proc type in
    let ended = write_word linked (t.info.end_ proc + code type) used in
    let count_word = t.info.count proc + code type in
    let counted = write_word ended count_word (u32 (read_word ended count_word + 1)) in
    record t {
      data_block = write_tag counted (column t.rows proc + used) element;
      used_slot_count = update t.used_slot_count proc (u32 (used + object_size element.size));
    }

-- `memcpy (pointer, src, nbytes)` into the block, where `pointer` is a byte address of the block and
-- `src` an address of the local memory.
unfoldable pub fill : DeliveryTable → ℕ → Array ℕ → ℕ → ℕ → DeliveryTable
fill t pointer memory src nbytes = record t {
  data_block = λ i. record (t.data_block i) {
    bytes = λ k.
        let a = 8 * i + k in
        if ltb k 8 && leb pointer a && ltb a (pointer + nbytes)
        then memory (src + (a - pointer))
        else (t.data_block i).bytes k;
  };
}

-- The returned pointer is the slot behind the tag.
unfoldable pub push : Array Slot → DeliveryTable → ℕ → DelivElement → ItemType → ℕ × DeliveryTable
unfolding make_room append
push fresh t proc element type =
    let t' = make_room fresh t proc element.size in
    (column t'.rows proc + t'.used_slot_count proc + tag_size, append t' proc element type)
