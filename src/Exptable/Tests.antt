-- ===== src/Exptable/Tests.antt =====
-- The theorems on the table of src/bsp_exptable.h at a table of two columns of two slots.
use bsponmpi.Base.{ℕ, ◌+◌, ◌*◌, ◌<◌, ◌≡◌, refl, arith, Array, [], ◌∷◌, ◌==◌, if◌then◌else◌}
use bsponmpi.Exptable.{
  ExpandableTable, make_room, push, push_index, contents, array_max, array_max_loop,
}
use bsponmpi.Exptable.Layout.{IsValid}
use bsponmpi.Exptable.Push.{CanGrow, contents-push, push-in_bounds}

abbrev used : Array ℕ
used p = if p == 0 then 2 else 1

-- 10 and 11 in the first column, which is full, and 12 in the second.
abbrev two : ExpandableTable ℕ ℕ
two = record {
  nprocs = 2;
  rows = 2;
  used_slot_count = used;
  slot_size = 8;
  info = 0;
  data_block = λ i. 10 + i;
  offset = λ _. 0;
  bytes = λ _. 0;
}

abbrev fresh : Array ℕ
fresh _ = 99

abbrev keep : ℕ → ℕ → ℕ → ℕ
keep info _ _ = info

two-IsValid : IsValid two
two-IsValid = record {
  has_rows = omega arith;
  has_size = omega arith;
  fits = omega arith;
  within = λ p h. ground arith;
}

two-CanGrow : CanGrow two
two-CanGrow = omega arith

array_max_of_two : array_max (λ i. if i == 1 then 7 else 3) 4 1 ≡ 7
unfolding array_max array_max_loop
array_max_of_two = refl

-- The first column has to grow.
contents-push_example : contents (push fresh two 0 keep 7) 0 ≡ 10 ∷ 11 ∷ 7 ∷ []
contents-push_example =
    contents-push fresh two two-IsValid two-CanGrow 0 (omega arith) keep 7 0 (omega arith)

push-in_bounds_example : let t = make_room fresh two 0 keep in push_index t 0 < t.nprocs * t.rows
push-in_bounds_example = push-in_bounds fresh two two-IsValid two-CanGrow 0 (omega arith) keep 7
