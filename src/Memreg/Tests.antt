-- ===== src/Memreg/Tests.antt =====
-- The theorems on the register of src/bsp_memreg.h at registers of two processors.
use bsponmpi.Base.{
  ℕ, ◌≡◌, ◌⊎◌, refl, arith, Array, [], ◌∷◌, ◌==◌, if◌then◌else◌, ltb, none, some, ok, abort,
}
use bsponmpi.Exptable.{cell, contents}
use bsponmpi.Memreg.{
  MemoryRegister, search_down, find, pop, memoized_find, pack, pop_reg_without_push, compact,
  pack_columns,
}
use bsponmpi.Memreg.Search.{IsLastRow, IsMarked, find_lem, pop_lem}
use bsponmpi.Memreg.Pack.{IsRegister, IsPacked, contents-pack, pack-IsRegister}
use bsponmpi.Memreg.Compact.{live, removed_in}
use bsponmpi.Memreg.Memoized.{memoized_find-eq-find}

-- Three rows of four are used: the local processor, 0, registered 10, 20 and 10 again, and the
-- other one 100, 200 and 300. The row of 20 is removed.
abbrev addresses : Array ℕ
addresses i =
    if i == 1
    then 20
    else if ltb i 4
    then 10
    else if i == 4
    then 100
    else if i == 5
    then 200
    else 300

abbrev marks : Array ℕ
marks i = if i == 1 then 1 else 0

abbrev one_popped : MemoryRegister
one_popped = record {
  nprocs = 2;
  rows = 4;
  used_slot_count = λ _. 3;
  slot_size = 8;
  info = record {
    numremov = 1;
    removed = marks;
    memoized_src_proc = 0;
    memoized_data_iter = none;
    memoized_end = none;
    memoized_srccol = 0;
  };
  data_block = addresses;
  offset = λ _. 0;
  bytes = λ _. 0;
}

one_popped-IsRegister : IsRegister one_popped
unfolding removed_in
one_popped-IsRegister = record {
  valid = record {
    has_rows = omega arith;
    has_size = omega arith;
    fits = omega arith;
    within = λ p h. omega arith;
  };
  local = omega arith;
  aligned = λ p h. refl;
  counted = refl;
}

-- The later of the two rows of 10 is found, and the removed row of 20 is not.
found_last : find one_popped 0 1 10 ≡ ok 300
unfolding find search_down
found_last = refl

not_found : find one_popped 0 1 20 ≡ abort pop_reg_without_push
unfolding find search_down
not_found = refl

find_lem_example :
    ((i : ℕ) × IsLastRow one_popped 0 10 (some i)
      × (find one_popped 0 1 10 ≡ ok (cell one_popped 1 i)))
    ⊎ (IsLastRow one_popped 0 10 none × (find one_popped 0 1 10 ≡ abort pop_reg_without_push))
find_lem_example = find_lem one_popped 0 10 1 (omega arith)

pop_lem_example :
    ((i : ℕ) × IsLastRow one_popped 0 10 (some i)
      × (t' : MemoryRegister) × (pop one_popped 0 10 ≡ ok t')
      × IsMarked one_popped 0 10 i t')
    ⊎ (IsLastRow one_popped 0 10 none × (pop one_popped 0 10 ≡ abort pop_reg_without_push))
pop_lem_example = pop_lem one_popped 0 10 (omega arith) (omega arith)

contents-pack_example : contents (pack one_popped) 1 ≡ live marks 0 (100 ∷ 200 ∷ 300 ∷ [])
contents-pack_example = contents-pack one_popped one_popped-IsRegister 1 (omega arith)

remaining : live marks 0 (100 ∷ 200 ∷ 300 ∷ []) ≡ 100 ∷ 300 ∷ []
unfolding live
remaining = refl

pack-IsRegister_example : IsRegister (pack one_popped) × IsPacked (pack one_popped)
pack-IsRegister_example = pack-IsRegister one_popped one_popped-IsRegister

in_order : IsRegister (pack one_popped) × IsPacked (pack one_popped)
in_order = pack-IsRegister one_popped one_popped-IsRegister

find_after_pack : find (pack one_popped) 0 1 10 ≡ ok 300
unfolding find search_down pack pack_columns compact
find_after_pack = refl

memoized_find-eq-find_example : memoized_find (pack one_popped) 1 10 ≡ ok 300
unfolding pack
memoized_find-eq-find_example =
    memoized_find-eq-find (pack one_popped) in_order.0 in_order.1 1 10 find_after_pack
