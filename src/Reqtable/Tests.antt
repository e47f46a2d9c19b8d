-- ===== src/Reqtable/Tests.antt =====
-- The theorem on the requests of src/bsp_reqtable.h at an empty table.
use bsponmpi.Base.{
  ℕ, ◌+◌, ◌<◌, ◌≤◌, ◌≡◌, refl, arith, Array, [], ◌∷◌, ◌++◌, ◌&&◌, ◌==◌, ltb, if◌then◌else◌,
}
use bsponmpi.Delivtable
use bsponmpi.Delivtable.{DeliveryTable, ItemType, it_put, code, zero_slot}
use bsponmpi.Delivtable.Column.{queue, IsDelivery}
use bsponmpi.Delivtable.Clear.{initialize-IsDelivery}
use bsponmpi.Reqtable.Replies.{put_slots, replies}
use bsponmpi.Reqtable.Replies.Columns.{execute_requests_lem}
use bsponmpi.Exptable
use bsponmpi.Exptable.Layout.{IsValid}
use bsponmpi.Reqtable.{ReqElement, RequestTable, initialize, push, execute}
use bsponmpi.Reqtable.Sizes.{Covers, reply_slots, push-Covers}

abbrev request : ReqElement
request = record { size = 12; offset = 4; src = 100; dst = 200 }

abbrev fresh : Array ReqElement
fresh _ = request

abbrev no_requests : RequestTable
no_requests = record {
  nprocs = 2;
  rows = 256;
  used_slot_count = λ _. 0;
  slot_size = 24;
  info = record { data_sizes = λ _. 0 };
  data_block = fresh;
  offset = λ _. 0;
  bytes = λ _. 0;
}

initialize-no_requests : initialize fresh 2 256 ≡ no_requests
unfolding initialize Exptable.initialize
initialize-no_requests = refl

no_requests-IsValid : IsValid no_requests
no_requests-IsValid = record {
  has_rows = omega arith;
  has_size = omega arith;
  fits = omega arith;
  within = λ p h. omega arith;
}

no_requests-Covers : Covers no_requests
unfolding reply_slots
no_requests-Covers p h = omega arith

push-Covers_example : Covers (push fresh no_requests 1 request)
push-Covers_example =
    push-Covers fresh no_requests no_requests-IsValid (omega arith) 1 (omega arith) request
      (omega arith) (omega arith) no_requests-Covers

-- One request from each of two processors, and a new delivery table.
abbrev two_requests : RequestTable
two_requests = record no_requests { used_slot_count = λ _. 1 }

abbrev deliveries : DeliveryTable
deliveries =
    Delivtable.initialize (λ _. zero_slot)
      (record { start = λ _. 0; count = λ _. 0; end_ = λ _. 0 }) 2 20

shape :
    (deliveries.nprocs ≡ 2)
    × (deliveries.rows ≡ 29)
    × ((p : ℕ) → p < 2 → deliveries.used_slot_count p + put_slots (request ∷ []) ≤ 40)
unfolding Delivtable.initialize Delivtable.index_columns Exptable.initialize put_slots
shape = (refl, refl, λ p h. ground (arith, h))

execute_requests_lem_example :
    let out = execute (λ _. zero_slot) zero_slot.tag (λ a. a) two_requests deliveries in
    IsDelivery out
    × (out.nprocs ≡ deliveries.nprocs)
    × ((q : ℕ) (type : ItemType)
        → q < deliveries.nprocs
        → queue out q type ≡ (
            if ltb q 2 && (code type == code it_put)
            then queue deliveries q type ++ replies zero_slot.tag (λ a. a) (request ∷ [])
            else queue deliveries q type))
execute_requests_lem_example =
    execute_requests_lem (λ _. zero_slot) zero_slot.tag (λ a. a) two_requests deliveries
      (initialize-IsDelivery (λ _. zero_slot) _ 2 20 (omega arith)).0 80 40 (omega arith)
      (omega (arith, shape)) (rw shape.0 (omega arith)) shape.2 (omega (arith, shape))
