-- ===== src/CommSeq.antt =====
-- src/bsp_comm_seq.c: the communicator of one processor.
-- The counts of the first exchange are in words of four bytes, the size of the elements of the index;
-- a block of the second one is an array of slots of `slot_size` bytes, and counts and offsets are in
-- bytes, as in the source, and multiples of that size. They are `int`, kept as patterns of 32 bits:
-- they are compared as signed numbers, and a negative one becomes a number of bytes or a distance
-- just below 2^64. BSP_ABORT_SEQ ends the program; the clock is left out.
pub mod Delivers
mod Tests
use bsponmpi.Base.{ℕ, ◌/◌, Array, memcpy, int_lt, widen, if◌then◌else◌}

-- BSP_INIT_SEQ: the number of processors and the rank.
abbrev pub init : ℕ × ℕ
init = (1, 0)

unfoldable pub alltoall : Array ℕ → ℕ → Array ℕ → ℕ → Array ℕ
alltoall sendbuf sendcount recvbuf recvcount = memcpy recvbuf 0 sendbuf 0 (recvcount / 4)

unfoldable pub alltoallv :
    {A : Type 0} → ℕ → Array A → Array ℕ → Array ℕ → Array A → Array ℕ → Array ℕ → Array A
alltoallv slot_size sendbuf sendcounts sendoffsets recvbuf recvcounts recvoffsets =
    let copy_size = if int_lt (recvcounts 0) (sendcounts 0) then recvcounts 0 else sendcounts 0 in
    memcpy recvbuf (widen (recvoffsets 0) / slot_size) sendbuf (widen (sendoffsets 0) / slot_size)
      (widen copy_size / slot_size)
