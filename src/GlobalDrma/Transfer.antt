-- ===== src/GlobalDrma/Transfer.antt =====
-- A transfer is split into one piece for each processor that it touches.
use mathlib.Core.Path.{subst}
use native.Mathlib.Decide.{ℕ_discrete}
use bsponmpi.Base.{
  ℕ, zero, suc, ◌+◌, ◌-◌, ◌*◌, ◌/◌, ◌%◌, ◌^◌, ◌≤◌, ◌<◌, ◌≡◌, ◌∙◌, refl, ap, arith, fun_ext, Run, ok,
  ◌>>=◌, List, [], ◌∷◌, ltb, ◌==◌, Bool-cases, inl, inr, false, if◌then◌else◌,
}
use bsponmpi.Exptable.Layout.{mul_mono, div_le}
use bsponmpi.Private.{BspObject, GlobalArray}
use bsponmpi.Base.{Array}
use bsponmpi.Delivtable.{Slot, DelivElement}
use bsponmpi.Reqtable.{ReqElement}
use bsponmpi.Bspx.{get, put, hpget, hpput}
use bsponmpi.GlobalDrma.{
  Piece, transfer_loop, transfer, first_proc, first_idx, global_get, global_put, global_hpget,
  global_hpput,
}

-- The pieces one after the other.
unfoldable pub in_order :
    (Piece → BspObject → Run BspObject) → List Piece → BspObject → Run BspObject
in_order op [] bsp = ok bsp
in_order op (p ∷ l) bsp = op p bsp >>= in_order op l

-- The pieces are, in their order, the bytes from `offset` on of an array of which each processor
-- holds `local` bytes, and from the local address on. None is empty or crosses a slice.
abbrev pub Covers : ℕ → ℕ → ℕ → ℕ → List Piece → Type 0
Covers local offset address size [] = size ≡ 0
Covers local offset address size (p ∷ l) =
    (p.proc * local + p.idx ≡ offset)
    × (p.address ≡ address)
    × (0 < p.nbytes)
    × (p.nbytes ≤ size)
    × (p.idx + p.nbytes ≤ local)
    × Covers local (offset + p.nbytes) (address + p.nbytes) (size - p.nbytes) l

module _ (local : ℕ) (some_local : 0 < local) (small : local < 2 ^ 64) where
  -- Without bytes to move, the loop ends at once.
  loop_done :
      (op : Piece → BspObject → Run BspObject) (fuel proc idx address size : ℕ) (bsp : BspObject)
      → size ≡ 0
      → transfer_loop fuel op local proc idx address size bsp ≡ ok bsp
  unfolding transfer_loop
  loop_done op zero proc idx address size bsp e = ground arith
  loop_done op (suc fuel) proc idx address size bsp e = ground arith

  -- A round that moves `n` bytes.
  loop_step :
      (op : Piece → BspObject → Run BspObject) (fuel proc idx address size n : ℕ) (bsp : BspObject)
      → 0 < size
      → idx < local
      → n ≡ (if ltb (local - idx) size then local - idx else size)
      → transfer_loop (suc fuel) op local proc idx address size bsp ≡ (
          op (record { proc = proc; idx = idx; address = address; nbytes = n }) bsp
          >>= transfer_loop fuel op local (proc + 1) 0 (address + n) (size - n))
  unfolding transfer_loop
  loop_step op fuel proc idx address size n bsp hs hi e =
      let more : (size == 0) ≡ false = ground arith in
      let exact : (local + 2 ^ 64 - idx) % 2 ^ 64 ≡ local - idx = omega arith in
      rw (more, exact, e) refl

  loop_lem :
      (fuel proc idx address size : ℕ)
      → idx < local
      → size ≤ fuel
      → (l : List Piece) × ((op : Piece → BspObject → Run BspObject) (bsp : BspObject)
          → transfer_loop fuel op local proc idx address size bsp ≡ in_order op l bsp)
        × Covers local (proc * local + idx) address size l
  unfolding transfer_loop in_order
  loop_lem zero proc idx address size hi hs = ([], λ op bsp. ground arith, omega arith)
  loop_lem (suc fuel) proc idx address size hi hs = elim (ℕ_discrete size 0) [
    | yes e ↦ ([], λ op bsp. ground arith, e)
    | no ne ↦ elim (Bool-cases (ltb (local - idx) size)) [
      | inl e ↦
          let p : Piece = record {
            proc = proc;
            idx = idx;
            address = address;
            nbytes = local - idx;
          } in
          let start : (proc + 1) * local + 0 ≡ proc * local + idx + (local - idx) = omega arith in
          let (l, run, covers) =
            loop_lem fuel (proc + 1) 0 (address + (local - idx)) (size - (local - idx)) some_local
              (omega arith) in
          (
            p ∷ l,
            λ op bsp.
                loop_step op fuel proc idx address size (local - idx) bsp (omega arith) hi
                  (ground arith)
                ∙ ap (◌>>=◌ (op p bsp)) (fun_ext (run op)),
            (refl, refl, omega arith, ground arith, omega arith, rw start at covers),
          )
      | inr e ↦
          let p : Piece = record { proc = proc; idx = idx; address = address; nbytes = size } in
          (
            p ∷ [],
            λ op bsp.
                loop_step op fuel proc idx address size size bsp (omega arith) hi (ground arith)
                ∙ ap (◌>>=◌ (op p bsp)) (
                    fun_ext (λ b.
                      loop_done op fuel (proc + 1) 0 (address + size) (size - size) b
                        (omega arith))),
            (refl, refl, omega arith, omega arith, ground arith, omega arith),
          )
    ]
  ]

module _ (bsp : BspObject) (handle offset address size : ℕ) where
  abbrev array : GlobalArray
  array = bsp.global_arrays handle

  -- The transfer, where the processor that the code computes holds the first byte.
  pub transfer_lem :
      let owner = offset * bsp.nprocs / array.array_size in
      0 < array.array_size
      → array.local_size < 2 ^ 64
      → offset * bsp.nprocs < 2 ^ 64
      → offset < 2 ^ 64
      → owner * array.local_size ≤ offset
      → offset < owner * array.local_size + array.local_size
      → (l : List Piece) × ((op : Piece → BspObject → Run BspObject)
          → transfer op bsp handle offset address size ≡ in_order op l bsp)
        × Covers array.local_size offset address size l
  unfolding transfer
  transfer_lem some_array small fits word low high =
      let proc : first_proc bsp handle offset ≡ offset * bsp.nprocs / array.array_size =
        ap (λ n. n / array.array_size) (omega arith) in
      let base = ap (λ n. n * array.local_size) proc in
      let idx : first_proc bsp handle offset * array.local_size + first_idx bsp handle offset
          ≡ offset =
        omega (arith, base) in
      let (l, run, covers) =
        loop_lem array.local_size (omega arith) small size (first_proc bsp handle offset)
          (first_idx bsp handle offset) address size (omega (arith, base)) (omega arith) in
      let not_empty : (array.array_size == 0) ≡ false = ground arith in
      (
        l,
        λ op. rw not_empty (run op bsp),
        subst (λ o. Covers array.local_size o address size l) idx covers,
      )

  -- If the slices make up the whole array, the code computes the right processor.
  owner_lem :
      let owner = offset * bsp.nprocs / array.array_size in
      array.array_size ≡ bsp.nprocs * array.local_size
      → 0 < array.array_size
      → (owner * array.local_size ≤ offset) × (offset < owner * array.local_size + array.local_size)
  owner_lem even some_array =
      let owner = offset * bsp.nprocs / array.array_size in
      let base = owner * array.local_size in
      let d = div_le array.array_size (offset * bsp.nprocs) some_array in
      let total : owner * array.array_size ≡ bsp.nprocs * base =
        ap (λ n. owner * n) even ∙ omega arith in
      elim (ℕ_discrete (base - offset) 0) [
        | no above ↦ absurd (
            omega
              (arith, d, total, mul_mono bsp.nprocs (offset + 1) base (omega arith), some_procs))
        | yes low ↦ elim (ℕ_discrete (base + array.local_size - offset) 0) [
          | yes past ↦ absurd (
              omega (
                arith,
                d,
                even,
                total,
                mul_mono bsp.nprocs (base + array.local_size) offset (omega arith),
              ))
          | no high ↦ omega arith
        ]
      ]
    where
      some_procs : 0 < bsp.nprocs
      some_procs = elim (ℕ_discrete bsp.nprocs 0) [
        | yes e ↦ absurd (omega (arith, even, some_array, ap (λ n. n * array.local_size) e))
        | no ne ↦ omega arith
      ]

-- On an array that is not empty and that slices of one size, below 2^64, make up, and an offset
-- below 2^64 whose product with the number of processors is below 2^64, the loops of the four
-- transfers end and do one list of pieces, each with its operation, in the order of the list: the
-- pieces are not empty, make up the range from the offset on and the local bytes one after the
-- other, and none crosses the end of a slice.
pub transfers_lem :
    (bsp : BspObject) (handle offset address size : ℕ)
    → let array = bsp.global_arrays handle in
      let part = array.local_slice in
      array.array_size ≡ bsp.nprocs * array.local_size
      → 0 < array.array_size
      → array.local_size < 2 ^ 64
      → offset * bsp.nprocs < 2 ^ 64
      → offset < 2 ^ 64
      → (l : List Piece) × Covers array.local_size offset address size l
        × ((fresh : Array ReqElement)
            → global_get fresh bsp handle offset address size
              ≡ in_order (λ p b. get fresh b p.proc part p.idx p.address p.nbytes) l bsp)
        × ((fresh : Array Slot) (stale : DelivElement) (memory : Array ℕ)
            → global_put fresh stale memory bsp address handle offset size
              ≡ in_order
                  (λ p b. put fresh stale memory b p.proc p.address part p.idx p.nbytes)
                  l
                  bsp)
        × ((fresh : Array ReqElement)
            → global_hpget fresh bsp handle offset address size
              ≡ in_order (λ p b. hpget fresh b p.proc part p.idx p.address p.nbytes) l bsp)
        × ((fresh : Array Slot) (stale : DelivElement) (memory : Array ℕ)
            → global_hpput fresh stale memory bsp address handle offset size
              ≡ in_order
                  (λ p b. hpput fresh stale memory b p.proc p.address part p.idx p.nbytes)
                  l
                  bsp)
unfolding global_get global_put global_hpget global_hpput
transfers_lem bsp handle offset address size even some_array small fits short =
    let (low, high) = owner_lem bsp handle offset address size even some_array in
    let (l, run, covers) =
      transfer_lem bsp handle offset address size some_array small fits short low high in
    (
      l,
      covers,
      λ fresh. run _,
      λ fresh stale memory. run _,
      λ fresh. run _,
      λ fresh stale memory. run _,
    )
