-- ===== src/Reqtable/Sizes.antt =====
-- The announced reply sizes, and the answer to a single request.
use bsponmpi.Base.{
  ℕ, ◌+◌, ◌^◌, ◌≤◌, ◌<◌, ◌≡◌, ◌∙◌, refl, ap, arith, Array, List, [], ◌∷◌, ◌++◌, u32, update, ◌==◌,
  if◌then◌else◌,
}
use bsponmpi.Exptable.{contents}
use bsponmpi.Exptable.Layout.{IsValid}
use bsponmpi.Exptable.Push
use bsponmpi.Exptable.Push.{CanGrow, contents-push, info-push}
use bsponmpi.Delivtable.{object_size}
use bsponmpi.Delivtable.Extent.{object_size-le}
use bsponmpi.Reqtable.{ReqElement, ReqInfo, RequestTable, push, new_info_at_push}

-- The slots that the replies to some requests take in a DeliveryTable.
unfoldable pub reply_slots : List ReqElement → ℕ
reply_slots [] = 0
reply_slots (r ∷ l) = object_size r.size + reply_slots l

reply_slots-append : (l m : List ReqElement) → reply_slots (l ++ m) ≡ reply_slots l + reply_slots m
unfolding reply_slots
reply_slots-append [] m = omega arith
reply_slots-append (r ∷ l) m = omega (arith, reply_slots-append l m)

-- The announced sizes cover the replies.
abbrev pub Covers : RequestTable → Type 0
Covers t = (p : ℕ) → p < t.nprocs → reply_slots (contents t p) ≤ t.info.data_sizes p

module _ (fresh : Array ReqElement) (t : RequestTable) (v : IsValid t) (grow : CanGrow t) (proc : ℕ)
    (hp : proc < t.nprocs) (element : ReqElement) (short : element.size + 8 ≤ 2 ^ 31)
    (small : t.info.data_sizes proc + (element.size + 16) < 2 ^ 32) where
  abbrev counted : RequestTable
  counted = record t {
    info = record {
      data_sizes =
          update t.info.data_sizes proc (u32 (t.info.data_sizes proc + (element.size + 16)));
    };
  }

  counted-IsValid : IsValid counted
  counted-IsValid = record {
    has_rows = v.has_rows;
    has_size = v.has_size;
    fits = v.fits;
    within = v.within;
  }

  pub nprocs-push : (push fresh t proc element).nprocs ≡ t.nprocs
  unfolding push
  nprocs-push = Push.nprocs-push fresh counted counted-IsValid grow proc hp new_info_at_push element

  same_info : (push fresh t proc element).info ≡ counted.info
  unfolding push new_info_at_push
  same_info = info-push fresh counted proc new_info_at_push element (λ i r n. refl)

  -- A push appends the request to its column.
  pub push-contents :
      (q : ℕ)
      → q < t.nprocs
      → contents (push fresh t proc element) q
        ≡ (if q == proc then contents t q ++ element ∷ [] else contents t q)
  unfolding push
  push-contents q h =
      contents-push fresh counted counted-IsValid grow proc hp new_info_at_push element q h

  slots-push :
      (q : ℕ)
      → q < t.nprocs
      → reply_slots (contents (push fresh t proc element) q)
        ≡ (if q == proc then object_size element.size else 0) + reply_slots (contents t q)
  unfolding reply_slots
  slots-push q h =
      ap reply_slots (push-contents q h)
      ∙ ground (arith, reply_slots-append (contents t q) (element ∷ []))

  -- On a valid request table that can double, where the announced size stays below 2^32, pushing a
  -- request of at most 2^31 - 8 bytes keeps the announced reply sizes, which count bytes, at least
  -- as large as the number of slots that the replies take in a delivery table.
  pub push-Covers : Covers t → Covers (push fresh t proc element)
  push-Covers c p h =
      let q = rw nprocs-push at h in
      let sizes = ap (λ (x : ReqInfo). x.data_sizes p) same_info in
      ground (arith, slots-push p q, c p q, sizes, object_size-le element.size short)
