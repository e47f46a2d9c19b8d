-- ===== src/Fold.antt =====
-- include/bsp_fold.h: bsp_fold, the reduction of a block of bytes over the processors.
-- `op` is the operation of the caller, from the bytes of its two operands to those of the result, and
-- `allgather` stands for MPI_Allgather: from the block and the number of bytes it makes the blocks of
-- all processors. `procs` is bsp_nprocs (); `dst` is what the result block holds before.
pub mod Result
mod Tests
use bsponmpi.Base.{
  ℕ, zero, suc, ◌+◌, ◌-◌, ◌*◌, Array, memcpy, slice, u32, widen, List, ltb, if◌then◌else◌,
}
use bsponmpi.Execute.Actions.{write_list}

-- `alldata + nbytes * j`: the product of two `int` wraps and is added as a signed number. (A place
-- before the block is one just below 2^64.)
abbrev pub block_at : ℕ → ℕ → ℕ
block_at nbytes j = widen (u32 (nbytes * j))

-- The first rounds of the loop: the blocks of all processors, and the result block.
unfoldable pub fold_loop :
    ℕ → (List ℕ → List ℕ → List ℕ) → ℕ → Array ℕ → Array ℕ → Array ℕ × Array ℕ
unfolding write_list
fold_loop zero op nbytes alldata dst = (alldata, dst)
fold_loop (suc j) op nbytes alldata dst =
    let (before, d) = fold_loop j op nbytes alldata dst in
    let d' = write_list d 0 (
      op (slice before (block_at nbytes j) nbytes)
        (slice before (block_at nbytes (j + 1)) nbytes)) in
    (memcpy before (block_at nbytes (j + 1)) d' 0 (widen nbytes), d')

unfoldable pub fold :
    (List ℕ → List ℕ → List ℕ) → (Array ℕ → ℕ → Array ℕ) → ℕ → Array ℕ → Array ℕ → ℕ → Array ℕ
unfolding fold_loop
fold op allgather procs src dst nbytes =
    if ltb 1 procs
    then (fold_loop (procs - 1) op nbytes (allgather src nbytes) dst).1
    else memcpy dst 0 src 0 (widen nbytes)
