-- ===== src/Bspx/Fixture.antt =====
-- A processor of two, with one area registered, that the tests share.
use bsponmpi.Base.{ℕ, ◌+◌, ◌≡◌, refl, arith, Array, ◌==◌, if◌then◌else◌, some, ok}
use bsponmpi.Exptable
use bsponmpi.Memreg
use bsponmpi.Memreg.{MemoryRegister}
use bsponmpi.Memreg.Pack.{IsRegister, IsPacked}
use bsponmpi.Memreg.Compact.{removed_in}
use bsponmpi.Mesgqueue
use bsponmpi.Delivtable
use bsponmpi.Delivtable.{Slot, DelivElement, DeliveryTable, it_put, it_popreg, zero_slot}
use bsponmpi.Delivtable.Column.{IsDelivery}
use bsponmpi.Delivtable.Clear.{initialize-IsDelivery}
use bsponmpi.Reqtable
use bsponmpi.Reqtable.{ReqElement}
use bsponmpi.Private.{BspObject}
use bsponmpi.Exptable.{contents}
use bsponmpi.Exptable.Layout.{IsValid}
use bsponmpi.Reqtable.{RequestTable}
use bsponmpi.Reqtable.Sizes.{Covers, reply_slots}

abbrev pub fresh : Array Slot
fresh _ = zero_slot

abbrev pub unset : DelivElement
unset = zero_slot.tag

abbrev pub memory : Array ℕ
memory a = a + 1

-- The processors registered 1000 and 2000 together.
abbrev pub one_registered : MemoryRegister
one_registered = record {
  nprocs = 2;
  rows = 1;
  used_slot_count = λ _. 1;
  slot_size = 8;
  info = record {
    numremov = 0;
    removed = λ _. 0;
    memoized_src_proc = 0;
    memoized_data_iter = some 1;
    memoized_end = some 0;
    memoized_srccol = 0;
  };
  data_block = λ i. if i == 0 then 1000 else 2000;
  offset = λ _. 0;
  bytes = λ _. 0;
}

pub one_registered-IsRegister : IsRegister one_registered
unfolding removed_in
one_registered-IsRegister = record {
  valid = record {
    has_rows = omega arith;
    has_size = omega arith;
    fits = omega arith;
    within = λ p h. omega arith;
  };
  local = omega arith;
  aligned = λ p h. refl;
  counted = refl;
}

pub one_registered-IsPacked : IsPacked one_registered
one_registered-IsPacked = record {
  none_removed = refl;
  unmarked = λ i h. refl;
  srccol = refl;
  iter = refl;
}

pub registered : Memreg.find one_registered 0 1 1000 ≡ ok 2000
unfolding Memreg.find Memreg.search_down
registered = refl

abbrev pub no_actions : DeliveryTable
no_actions =
    Delivtable.initialize fresh (record { start = λ _. 0; count = λ _. 0; end_ = λ _. 0 }) 2 20

pub no_actions-IsDelivery : IsDelivery no_actions
no_actions-IsDelivery = (initialize-IsDelivery fresh _ 2 20 (omega arith)).0

pub no_actions-nprocs : no_actions.nprocs ≡ 2
unfolding Delivtable.initialize Delivtable.index_columns Exptable.initialize
no_actions-nprocs = refl

pub no_actions-rows : no_actions.rows ≡ 29
unfolding Delivtable.initialize Delivtable.index_columns Exptable.initialize
no_actions-rows = refl

abbrev pub request : ReqElement
request = record { size = 0; offset = 0; src = 0; dst = 0 }

abbrev pub no_requests : RequestTable
no_requests = record {
  nprocs = 2;
  rows = 4;
  used_slot_count = λ _. 0;
  slot_size = 24;
  info = record { data_sizes = λ _. 0 };
  data_block = λ _. request;
  offset = λ _. 0;
  bytes = λ _. 0;
}

pub no_requests-IsValid : IsValid no_requests
no_requests-IsValid = record {
  has_rows = omega arith;
  has_size = omega arith;
  fits = omega arith;
  within = λ p h. omega arith;
}

pub no_requests-Covers : Covers no_requests
unfolding reply_slots
no_requests-Covers p h = omega arith

abbrev pub bsp : BspObject
bsp = record {
  nprocs = 2;
  rank = 0;
  delivery_table = no_actions;
  delivery_received_table = no_actions;
  request_table = no_requests;
  request_received_table = Reqtable.initialize (λ _. request) 2 4;
  memory_register = one_registered;
  message_queue = Mesgqueue.initialize;
  global_array_last = 0;
  global_overflow = 0;
  global_arrays = λ _. record { array_size = 0; local_slice = 0; local_size = 0 };
}
