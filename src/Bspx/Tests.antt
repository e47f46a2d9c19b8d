-- ===== src/Bspx/Tests.antt =====
-- The theorems on the operations on memory of src/bspx.c at a processor of two.
use bsponmpi.Base.{ℕ, ◌≡◌, ◌<◌, arith, [], ◌∷◌, ◌==◌, if◌then◌else◌, ok}
use bsponmpi.Delivtable.{DeliveryTable, it_put}
use bsponmpi.Delivtable.Deliver.{Delivered}
use bsponmpi.Private.{with_delivery}
use bsponmpi.Exptable.{contents}
use bsponmpi.Reqtable.{RequestTable}
use bsponmpi.Reqtable.Sizes.{Covers}
use bsponmpi.Bspx.{put, put_element, get}
use bsponmpi.Bspx.Get.{get-Requested}
use bsponmpi.Bspx.Put.{put-Delivered}
use bsponmpi.Bspx.Fixture.{
  fresh, unset, memory, one_registered-IsRegister, one_registered-IsPacked, registered, no_actions,
  no_actions-IsDelivery, no_actions-nprocs, no_actions-rows, request, no_requests-IsValid,
  no_requests-Covers, bsp,
}

-- Three bytes, put at offset 5 of the area that processor 1 registered at 2000.
put-Delivered_example :
    (t' : DeliveryTable) × (put fresh unset memory bsp 1 40 1000 5 3 ≡ ok (with_delivery bsp t'))
    × Delivered no_actions 1 (put_element unset 2005 3) it_put (41 ∷ 42 ∷ 43 ∷ []) t'
put-Delivered_example =
    put-Delivered fresh unset memory bsp 1 40 1000 5 3 no_actions-IsDelivery
      (omega (arith, no_actions-nprocs)) (rw (no_actions-nprocs, no_actions-rows) (omega arith))
      one_registered-IsRegister one_registered-IsPacked registered

-- Three bytes from offset 5 of that area.
get-Requested_example :
    (t' : RequestTable) × (get (λ _. request) bsp 1 1000 5 40 3
      ≡ ok (record bsp { request_table = t' }))
    × ((q : ℕ)
        → q < 2
        → contents t' q
          ≡ (if q == 1 then record { size = 3; offset = 5; src = 2000; dst = 40 } ∷ [] else []))
    × Covers t'
get-Requested_example =
    get-Requested (λ _. request) bsp 1 1000 5 40 3 no_requests-IsValid (omega arith) (omega arith)
      (omega arith) (omega arith) (omega arith) no_requests-Covers one_registered-IsRegister
      one_registered-IsPacked registered
