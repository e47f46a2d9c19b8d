-- ===== src/CommSeq/Tests.antt =====
-- The communicator of one processor on a table of numbers.
use bsponmpi.Base.{ℕ, ◌+◌, arith}
use bsponmpi.Exptable.{ExpandableTable}
use bsponmpi.Exptable.Layout.{IsValid}

-- Three slots of four bytes.
abbrev sending : ExpandableTable ℕ ℕ
sending = record {
  nprocs = 1;
  rows = 5;
  used_slot_count = λ _. 3;
  slot_size = 4;
  info = 0;
  data_block = λ i. 10 + i;
  offset = λ _. 0;
  bytes = λ _. 0;
}

abbrev waiting : ExpandableTable ℕ ℕ
waiting = record sending { rows = 8; data_block = λ _. 0 }

waiting-IsValid : IsValid waiting
waiting-IsValid = record {
  has_rows = omega arith;
  has_size = omega arith;
  fits = omega arith;
  within = λ p h. omega arith;
}
