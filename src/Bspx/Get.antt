-- ===== src/Bspx/Get.antt =====
-- A get queues a request at its source.
use bsponmpi.Base.{
  ℕ, ◌+◌, ◌^◌, ◌<◌, ◌≤◌, ◌≡◌, refl, arith, ok, Array, u32, [], ◌∷◌, ◌++◌, ◌==◌, if◌then◌else◌,
}
use bsponmpi.Exptable.{contents}
use bsponmpi.Exptable.Layout.{IsValid}
use bsponmpi.Exptable.Push.{CanGrow}
use bsponmpi.Memreg
use bsponmpi.Memreg.Pack.{IsRegister, IsPacked}
use bsponmpi.Memreg.Memoized.{memoized_find-eq-find}
use bsponmpi.Reqtable
use bsponmpi.Reqtable.{ReqElement, RequestTable}
use bsponmpi.Reqtable.Sizes.{Covers, push-contents, push-Covers}
use bsponmpi.Private.{BspObject}
use bsponmpi.Bspx.{get}

-- On a packed memory register and a valid request table with room to grow, a get of at most 2^31 -
-- 8 bytes at an offset below 2^31 from an address that the local processor has registered, where
-- the announced size stays below 2^32, returns; it appends to the requests to the source one for
-- the address the source registered in that row, leaves the requests to the others as they are, and
-- keeps the announced sizes at least as large as the replies.
pub get-Requested :
    (fresh : Array ReqElement) (bsp : BspObject) (pid src offset dst nbytes : ℕ) {a : ℕ}
    → IsValid bsp.request_table
    → CanGrow bsp.request_table
    → pid < bsp.request_table.nprocs
    → nbytes + 8 ≤ 2 ^ 31
    → offset < 2 ^ 31
    → bsp.request_table.info.data_sizes pid + (nbytes + 16) < 2 ^ 32
    → Covers bsp.request_table
    → IsRegister bsp.memory_register
    → IsPacked bsp.memory_register
    → Memreg.find bsp.memory_register bsp.memory_register.info.memoized_src_proc pid src ≡ ok a
    → (t' : RequestTable) × (get fresh bsp pid src offset dst nbytes
        ≡ ok (record bsp { request_table = t' }))
      × ((q : ℕ)
          → q < bsp.request_table.nprocs
          → contents t' q ≡ (
              if q == pid
              then contents bsp.request_table q
                ++ record { size = nbytes; offset = offset; src = a; dst = dst } ∷ []
              else contents bsp.request_table q))
      × Covers t'
unfolding get
get-Requested fresh bsp pid src offset dst nbytes {a} v grow hp small near sizes c r p found =
    let memo = memoized_find-eq-find bsp.memory_register r p pid src found in
    let exact : u32 nbytes ≡ nbytes = omega arith in
    let same_offset : u32 offset ≡ offset = omega arith in
    let request : ReqElement = record { size = nbytes; offset = offset; src = a; dst = dst } in
    (
      Reqtable.push fresh bsp.request_table pid request,
      rw (memo, exact, same_offset) refl,
      push-contents fresh bsp.request_table v grow pid hp request small sizes,
      push-Covers fresh bsp.request_table v grow pid hp request small sizes c,
    )
