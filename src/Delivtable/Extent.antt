-- ===== src/Delivtable/Extent.antt =====
-- The slots of an object whose bytes fit `int`: the conversions of deliveryTable_push are exact.
use bsponmpi.Base.{ℕ, ◌+◌, ◌-◌, ◌/◌, ◌^◌, ◌≤◌, ◌≡◌, arith}
use bsponmpi.Delivtable.{aligned_size, element_size, tag_size, object_size}

-- The tag, and the slots that the payload fills or starts to fill.
abbrev pub object_slots : ℕ → ℕ
object_slots size = tag_size + (size + aligned_size - 1) / aligned_size

pub object_size_lem :
    (size : ℕ) → size + aligned_size ≤ 2 ^ 31 → object_size size ≡ object_slots size
unfolding object_size
object_size_lem size h = ground arith

-- A table has no more slots for an object than the object has bytes with its tag.
pub object_size-le :
    (size : ℕ) → size + aligned_size ≤ 2 ^ 31 → object_size size ≤ size + element_size
object_size-le size h = omega (arith, object_size_lem size h)
