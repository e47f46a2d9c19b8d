-- ===== src/Exptable/Layout.antt =====
-- Addresses in the block of a table.
use bsponmpi.Base.{ℕ, ◌+◌, ◌*◌, ◌/◌, ◌^◌, ◌≤◌, ◌<◌, ◌≡◌, ◌≢◌, arith, Array, memcpy, u32}
use native.Mathlib.Nat.{mul-div_cancel}
use bsponmpi.Exptable.{ExpandableTable, column, by_bytes}

-- The table's size in bytes fits `int`, its columns are not overfull, and it has rows.
pub record IsValid {A I : Type 0} (t : ExpandableTable A I) : Type 0 where
  pub has_rows : 0 < t.rows
  pub has_size : 0 < t.slot_size
  pub fits : t.nprocs * t.rows * t.slot_size < 2 ^ 31
  pub within : (p : ℕ) → p < t.nprocs → t.used_slot_count p ≤ t.rows

pub row_bound : (n r p i : ℕ) → p < n → i ≤ r → p * r + i ≤ n * r
row_bound n r p i hp hi = grind arith

pub mul_mono : (n a b : ℕ) → a ≤ b → n * a ≤ n * b
mul_mono n a b h = grind arith

-- A number of slots is at most the number of bytes.
pub slots_bound : (n s b : ℕ) → 0 < s → n * s < b → n < b
slots_bound n s b h k = omega (arith, mul_mono n 1 s (omega arith))

pub slots_fit : {A I : Type 0} (t : ExpandableTable A I) → IsValid t → t.nprocs * t.rows < 2 ^ 31
slots_fit t v = slots_bound (t.nprocs * t.rows) t.slot_size (2 ^ 31) v.has_size v.fits

-- A place inside a table whose bytes fit `int` is found by its number of bytes.
pub by_bytes_lem : (n s total : ℕ) → 0 < s → total * s < 2 ^ 31 → n ≤ total → by_bytes n s ≡ n
by_bytes_lem n s total h k l =
    let exact : u32 (n * s) ≡ n * s = omega (arith, mul_mono s n total l, k) in
    rw exact (mul-div_cancel n h)

pub div_le : (m k : ℕ) → 0 < m → (k / m * m ≤ k) × (k < k / m * m + m)
div_le m k h = grind arith

pub column_lem : (n r p : ℕ) → n * r < 2 ^ 32 → p < n → column r p ≡ p * r
column_lem n r p h hp = omega (arith, row_bound n r p 0 hp (omega arith))

pub columns_apart : (r p q i j : ℕ) → i < r → j < r → p ≢ q → p * r + i ≢ q * r + j
columns_apart r p q i j hi hj ne = grind (arith, row_bound q r p, row_bound p r q)

-- What a copy of a column into the block `a` leaves in a cell.
pub memcpy-at :
    {A : Type 0} (a b : Array A) (d s n i : ℕ) → i < n → memcpy a d b s n (d + i) ≡ b (s + i)
memcpy-at a b d s n i h = ground arith

pub memcpy-below : {A : Type 0} (a b : Array A) (d s n k : ℕ) → k < d → memcpy a d b s n k ≡ a k
memcpy-below a b d s n k h = ground arith

pub memcpy-above : {A : Type 0} (a b : Array A) (d s n k : ℕ) → d + n ≤ k → memcpy a d b s n k ≡ a k
memcpy-above a b d s n k h = ground arith

-- A column ends before the next one starts.
pub columns_ordered :
    {A I : Type 0} (t : ExpandableTable A I)
    → IsValid t
    → (p q i : ℕ) → p < q
    → q < t.nprocs
    → i ≤ t.rows
    → column t.rows p + i ≤ column t.rows q
columns_ordered t v p q i h hq hi = omega (
  arith,
  row_bound q t.rows p i h hi,
  column_lem t.nprocs t.rows p (omega (arith, slots_fit t v)) (omega arith),
  column_lem t.nprocs t.rows q (omega (arith, slots_fit t v)) hq,
)
