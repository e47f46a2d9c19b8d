-- ===== src/CommSeq/Delivers.antt =====
-- The communicator of one processor delivers what the processor sends.
use native.Mathlib.Nat.{mul-div_cancel}
use bsponmpi.Base.{
  ℕ, ◌+◌, ◌-◌, ◌*◌, ◌/◌, ◌^◌, ◌<◌, ◌≡◌, ◌∙◌, refl, sym, ap, arith, u32, memcpy, int_lt, widen,
  widen_lem, if◌then◌else◌,
}
use bsponmpi.CommSeq.{alltoallv}
use bsponmpi.Exptable.{ExpandableTable, cell, set_offsets}
use bsponmpi.Exptable.Comm.{Delivers, sends, set_offsets-shape, set_offsets-at}

-- The one processor receives what it sends.
pub alltoallv-Delivers :
    {A I : Type 0} (slot_size : ℕ) (send recv : ExpandableTable A I)
    → recv.nprocs ≡ 1
    → 0 < slot_size
    → send.slot_size ≡ slot_size
    → send.used_slot_count 0 * slot_size < 2 ^ 31
    → Delivers 1 slot_size (sends send recv (alltoallv slot_size)) send.used_slot_count (cell send)
unfolding alltoallv
alltoallv-Delivers {A} {I} slot_size send recv one some_size size small block bytes offset rows
      fits_all exact p i hp hi =
    let zero_bytes : 0 ≡ 0 * slot_size = omega arith in
    let (b, o, u) = exact 0 (omega arith) in
    let first : p ≡ 0 = omega arith in
    let (o', b') = set_offsets-at send 1 0 (omega arith) in
    let none_before : (z : ℕ) → z ≡ 0 → widen z / slot_size ≡ 0 = λ z e.
      ap (λ x. widen x / slot_size) e
      ∙ ap (λ x. x / slot_size) zero_bytes
      ∙ mul-div_cancel 0 some_size in
    let there : widen (offset 0) / slot_size ≡ 0 = none_before (offset 0) (omega (arith, o)) in
    let sent : (set_offsets recv.nprocs send).bytes 0 ≡ send.used_slot_count 0 * slot_size =
      ap (λ n. (set_offsets n send).bytes 0) one
      ∙ b'
      ∙ ap (λ z. u32 (send.used_slot_count 0 * z)) size
      ∙ omega (arith, small) in
    let column_start : u32 (0 * send.rows) ≡ 0 = omega arith in
    let no_bytes : 0 * send.slot_size ≡ 0 = omega arith in
    let at_start : u32 (u32 (0 * send.rows) * send.slot_size) ≡ 0 =
      rw (column_start, no_bytes) refl in
    let from : widen ((set_offsets recv.nprocs send).offset 0) / slot_size ≡ 0 =
      none_before _ (ap (λ n. (set_offsets n send).offset 0) one ∙ o' ∙ at_start) in
    let same =
      ap (λ (t : ExpandableTable A I). t.data_block) (set_offsets-shape send recv.nprocs) in
    let total = send.used_slot_count 0 * slot_size in
    let both : (if int_lt total total then total else total) ≡ total = ground arith in
    let wide : widen total ≡ total = widen_lem total small in
    let slots = mul-div_cancel (send.used_slot_count 0) some_size in
    let at : 0 * rows + i ≡ i = omega arith in
    let cell_at : u32 (0 * send.rows) + i ≡ 0 + (i - 0) = omega (arith, column_start) in
    let inside : i < send.used_slot_count 0 = rw first at hi in
    let copied : memcpy block 0 send.data_block 0 (send.used_slot_count 0) i
        ≡ send.data_block (0 + (i - 0)) =
      ground arith in
    rw (first, b, there, sent, from, same, both, wide, slots, at)
      (copied ∙ ap send.data_block (sym cell_at))
