-- ===== src/Memreg/Search.antt =====
-- Looking an address up, and marking one for removal.
use bsponmpi.Base.{
  ℕ, zero, suc, ◌+◌, ◌^◌, ◌≤◌, ◌<◌, ◌≡◌, ◌≢◌, ◌⊎◌, inl, inr, widen_lem, ok, abort, update_self,
  update_ne, Bool-cases, false, Option, none, some, refl, Array, arith, ◌==◌, ◌&&◌,
}
use native.Mathlib.Decide.{ℕ_discrete}
use bsponmpi.Exptable.{column, cell}
use bsponmpi.Memreg.{
  MemoryRegister, search_down, find, pop, answer, mark_removed, rounds, pop_reg_without_push,
}

-- Row `i` of the column holds the address and is not removed.
abbrev pub Holds : Array ℕ → ℕ → Array ℕ → ℕ → ℕ → Type 0
Holds block base removed pointer i = (block (base + i) ≡ pointer) × (removed i ≡ 0)

-- The last such row below `n`, or none.
abbrev pub IsLast : ℕ → Array ℕ → ℕ → Array ℕ → ℕ → Option ℕ → Type 0
IsLast n block base removed pointer none = (j : ℕ) → j < n → Holds block base removed pointer j → ⊥
IsLast n block base removed pointer (some i) =
    (i < n)
    × Holds block base removed pointer i
    × ((j : ℕ) → i < j → j < n → Holds block base removed pointer j → ⊥)

module _ (block : Array ℕ) (base : ℕ) (removed : Array ℕ) (pointer : ℕ) where
  IsLast-suc :
      (n : ℕ) (o : Option ℕ)
      → ((block (base + n) == pointer) && (removed n == 0)) ≡ false
      → IsLast n block base removed pointer o
      → IsLast (suc n) block base removed pointer o
  IsLast-suc n none e h =
      λ j p q. elim (ℕ_discrete j n) [ yes s ↦ miss (rw s at q) | no ne ↦ h j (omega arith) q ]
    where
      miss : Holds block base removed pointer n → ⊥
      miss q = ground arith
  IsLast-suc n (some i) e h = (
    omega arith,
    h.1,
    λ j l p q. elim (ℕ_discrete j n) [ yes s ↦ miss (rw s at q) | no ne ↦ h.2 j l (omega arith) q ],
  )
    where
      miss : Holds block base removed pointer n → ⊥
      miss q = ground arith

  pub search_down-IsLast :
      (n : ℕ) → IsLast n block base removed pointer (search_down n block base removed pointer)
  unfolding search_down
  search_down-IsLast zero = λ j h. absurd (omega arith)
  search_down-IsLast (suc n) =
      elim (Bool-cases ((block (base + n) == pointer) && (removed n == 0))) [
        | inl e ↦ rw e (omega arith, ground arith, λ j l p q. omega arith)
        | inr e ↦
            rw e (IsLast-suc n (search_down n block base removed pointer) e (search_down-IsLast n))
      ]

module _ (t : MemoryRegister) (sp : ℕ) (pointer : ℕ) where
  -- Row `o` is the last live row of column `sp` that holds the pointer, if there is one.
  abbrev pub IsLastRow : Option ℕ → Type 0
  IsLastRow o =
      IsLast (t.used_slot_count sp) t.data_block (column t.rows sp) t.info.removed pointer o

  rounds_lem : t.used_slot_count sp ≤ 2 ^ 31 → rounds (t.used_slot_count sp) ≡ t.used_slot_count sp
  rounds_lem few = ground arith

  -- In a column of at most 2^31 rows, a lookup returns the entry of the remote column in the last
  -- live row of the local column that holds the pointer; or there is no such row, and it aborts
  -- with "pop without push".
  pub find_lem :
      (dp : ℕ)
      → t.used_slot_count sp ≤ 2 ^ 31
      → ((i : ℕ) × IsLastRow (some i) × (find t sp dp pointer ≡ ok (cell t dp i)))
        ⊎ (IsLastRow none × (find t sp dp pointer ≡ abort pop_reg_without_push))
  unfolding find
  find_lem dp few = rw (rounds_lem few) (
      found
        (search_down (t.used_slot_count sp) t.data_block (column t.rows sp) t.info.removed pointer)
        (search_down-IsLast t.data_block (column t.rows sp) t.info.removed pointer _))
    where
      found :
          (o : Option ℕ)
          → IsLastRow o
          → ((i : ℕ) × IsLastRow (some i) × (answer t dp o ≡ ok (cell t dp i)))
            ⊎ (IsLastRow none × (answer t dp o ≡ abort pop_reg_without_push))
      found none h = inr (h, refl)
      found (some i) h = inl (i, h, refl)

  -- What a deregistration leaves: row `i` is marked and counted, and nothing but the marks, their
  -- number and the position of the memoized search is changed.
  pub record IsMarked (i : ℕ) (t' : MemoryRegister) : Type 0 where
    pub mark : t'.info.removed i ≡ 1
    pub others : (j : ℕ) → j ≢ i → t'.info.removed j ≡ t.info.removed j
    pub number : t'.info.numremov ≡ t.info.numremov + 1
    pub forgotten : t'.info.memoized_data_iter ≡ none
    pub table : t' ≡ record t {
      info = record t.info {
        removed = t'.info.removed;
        numremov = t'.info.numremov;
        memoized_data_iter = none;
      };
    }

  -- In a column of at most 2^31 rows that starts below slot 2^31, a deregistration marks and counts
  -- the last live row of the column that holds the pointer, stops the memoized search, and changes
  -- nothing else; or there is no such row, and it aborts with "pop without push".
  pub pop_lem :
      t.used_slot_count sp ≤ 2 ^ 31
      → column t.rows sp < 2 ^ 31
      → ((i : ℕ) × IsLastRow (some i)
          × (t' : MemoryRegister) × (pop t sp pointer ≡ ok t')
          × IsMarked i t')
        ⊎ (IsLastRow none × (pop t sp pointer ≡ abort pop_reg_without_push))
  unfolding pop
  pop_lem few near =
      rw (rounds_lem few, widen_lem (column t.rows sp) near)
        (found
          (search_down (t.used_slot_count sp) t.data_block (column t.rows sp) t.info.removed
            pointer)
          (search_down-IsLast t.data_block (column t.rows sp) t.info.removed pointer _))
    where
      found :
          (o : Option ℕ)
          → IsLastRow o
          → ((i : ℕ) × IsLastRow (some i)
              × (t' : MemoryRegister) × (mark_removed t o ≡ ok t')
              × IsMarked i t')
            ⊎ (IsLastRow none × (mark_removed t o ≡ abort pop_reg_without_push))
      found none h = inr (h, refl)
      found (some i) h = inl (
        i,
        h,
        _,
        refl,
        record {
          mark = update_self t.info.removed i 1;
          others = λ j ne. update_ne t.info.removed i 1 j ne;
          number = refl;
          forgotten = refl;
          table = refl;
        },
      )
