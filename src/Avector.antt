-- ===== src/Avector.antt =====
-- include/bsp_tools/Avector.h: an array that owns its storage, or is a view of another one's.
-- `fresh` is what the allocator hands out. NULL is an empty storage, of which nothing is read.
use bsponmpi.Base.{
  ℕ, ◌+◌, ◌-◌, ◌%◌, ◌^◌, Bool, true, Array, memcpy, min_of, ltb, ◌==◌, ◌||◌, if◌then◌else◌,
}

pub record AVector (A : Type 0) : Type 0 where
  pub offset : ℕ
  pub size : ℕ
  pub grow : ℕ
  pub block : Array A
  pub block_is_mine : Bool

-- The size that resize ends up with.
abbrev pub new_size : ℕ → ℕ → ℕ
new_size size grow =
    if (size == 0) || (grow == 1) then size else (size + (grow - size % grow)) % 2 ^ 64

module _ {A : Type 0} where
  -- The constructor without arguments.
  abbrev pub make : Array A → AVector A
  make fresh = record { offset = 0; size = 0; grow = 1; block = fresh; block_is_mine = true }

  unfoldable pub resize : Array A → AVector A → ℕ → ℕ → AVector A
  resize fresh v size grow =
      let grow' = if ltb grow 1 then 1 else grow in
      let size' = new_size size grow' in
      if v.size == size' then record v { grow = grow' } else record v {
        grow = grow';
        size = size';
        block = if v.block_is_mine then memcpy fresh 0 v.block 0 (min_of v.size size') else v.block;
      }

  -- operator[]
  abbrev pub item : AVector A → ℕ → A
  item v i = v.block (v.offset + i)

  unfoldable pub exact_size : AVector A → ℕ
  exact_size v = v.size
