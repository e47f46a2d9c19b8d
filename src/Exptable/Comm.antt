-- ===== src/Exptable/Comm.antt =====
-- expandableTable_comm, against a communicator of which only the delivery is known.
use native.Mathlib.Decide.{ℕ_discrete}
use bsponmpi.Base.{
  ℕ, zero, suc, ◌+◌, ◌*◌, ◌^◌, ◌≤◌, ◌<◌, ◌≡◌, ◌∙◌, refl, ap, arith, u32, Array, update_self,
  update_ne,
}
use bsponmpi.Exptable.{ExpandableTable, column, cell, set_offsets, comm}
use bsponmpi.Exptable.Layout.{IsValid, mul_mono, row_bound, column_lem, slots_fit}

module _ {A I : Type 0} (t : ExpandableTable A I) where
  -- Setting the offsets changes nothing else.
  pub set_offsets-shape :
      (n : ℕ)
      → set_offsets n t
        ≡ record t { offset = (set_offsets n t).offset; bytes = (set_offsets n t).bytes }
  unfolding set_offsets
  set_offsets-shape zero = refl
  set_offsets-shape (suc n) =
      ap
        (λ (s : ExpandableTable A I). record s {
          offset = (set_offsets (suc n) t).offset;
          bytes = (set_offsets (suc n) t).bytes;
        })
        (set_offsets-shape n)

  pub set_offsets-at :
      (n p : ℕ)
      → p < n
      → ((set_offsets n t).offset p ≡ u32 (u32 (p * t.rows) * t.slot_size))
        × ((set_offsets n t).bytes p ≡ u32 (t.used_slot_count p * t.slot_size))
  unfolding set_offsets
  set_offsets-at zero p h = absurd (omega arith)
  set_offsets-at (suc n) p h = elim (ℕ_discrete p n) [
    | yes e ↦
        rw e (update_self (set_offsets n t).offset n _, update_self (set_offsets n t).bytes n _)
    | no ne ↦
        let before = set_offsets-at n p (omega arith) in
        (
          update_ne (set_offsets n t).offset n _ p ne ∙ before.0,
          update_ne (set_offsets n t).bytes n _ p ne ∙ before.1,
        )
  ]

-- What a communicator does for the receiver, if the whole table has less than 2^31 bytes, so that
-- counts and offsets fit `int`: from processor `p` arrive the slots `at p`, as many as
-- the byte count says, at the offset. `f` is the communicator at the data, counts and offsets sent.
abbrev pub Delivers :
    {A : Type 0}
    → ℕ
    → ℕ
    → (Array A → Array ℕ → Array ℕ → Array A)
    → Array ℕ
    → (ℕ → Array A)
    → Type 0
Delivers {A} n slot_size f used at =
    (block : Array A) (bytes offset : Array ℕ) (rows : ℕ)
    → n * rows * slot_size < 2 ^ 31
    → ((p : ℕ)
        → p < n
        → (bytes p ≡ used p * slot_size) × (offset p ≡ p * rows * slot_size) × (used p ≤ rows))
    → (p i : ℕ) → p < n
    → i < used p
    → f block bytes offset (p * rows + i) ≡ at p i

-- What is communicated.
abbrev pub sends :
    {A I : Type 0}
    → ExpandableTable A I
    → ExpandableTable A I
    → (Array A → Array ℕ → Array ℕ → Array A → Array ℕ → Array ℕ → Array A)
    → Array A
    → Array ℕ
    → Array ℕ
    → Array A
sends send recv communicator =
    let s = set_offsets recv.nprocs send in communicator s.data_block s.bytes s.offset

module _ {A I : Type 0} (send recv : ExpandableTable A I)
    (communicator : Array A → Array ℕ → Array ℕ → Array A → Array ℕ → Array ℕ → Array A)
    (v : IsValid recv) (at : ℕ → Array A)
    (delivers : Delivers recv.nprocs recv.slot_size
      (sends send recv communicator)
      recv.used_slot_count
      at) where
  abbrev r : ExpandableTable A I
  r = (comm send recv communicator).1

  -- The counts and offsets fit `int`.
  exact :
      (q : ℕ)
      → q < recv.nprocs
      → ((set_offsets recv.nprocs recv).offset q ≡ q * recv.rows * recv.slot_size)
        × ((set_offsets recv.nprocs recv).bytes q ≡ recv.used_slot_count q * recv.slot_size)
  exact q hq =
      let (offset, bytes) = set_offsets-at recv recv.nprocs q hq in
      let total = recv.nprocs * recv.rows in
      let first = row_bound recv.nprocs recv.rows q 0 hq (omega arith) in
      let last = row_bound recv.nprocs recv.rows q (recv.used_slot_count q) hq (v.within q hq) in
      let low : q * recv.rows * recv.slot_size ≤ total * recv.slot_size =
        omega (arith, mul_mono recv.slot_size (q * recv.rows) total (omega (arith, first))) in
      let high : recv.used_slot_count q * recv.slot_size ≤ total * recv.slot_size =
        omega
          (arith, mul_mono recv.slot_size (recv.used_slot_count q) total (omega (arith, last))) in
      let short : u32 (q * recv.rows) ≡ q * recv.rows =
        column_lem recv.nprocs recv.rows q (omega (arith, slots_fit recv v)) hq in
      (
        offset ∙ ap (λ c. u32 (c * recv.slot_size)) short ∙ omega (arith, v.fits, low),
        bytes ∙ omega (arith, v.fits, high),
      )

  -- For a valid receiving table and a communicator that puts `at p` at the
  -- offset of each processor `p`, as many slots as the byte count says, the used slots of each
  -- column of the receiving table hold `at p` after the communication; only its block, offsets and
  -- byte counts change.
  pub comm-received :
      (r ≡ record recv { offset = r.offset; bytes = r.bytes; data_block = r.data_block })
      × ((p i : ℕ) → p < recv.nprocs → i < recv.used_slot_count p → cell r p i ≡ at p i)
  unfolding comm
  comm-received = (
    ap
        (λ (s : ExpandableTable A I). record s {
          data_block = (comm send recv communicator).1.data_block;
        })
        (set_offsets-shape recv recv.nprocs),
    λ p i hp hi.
        ap (λ c. (comm send recv communicator).1.data_block (c + i))
          (ap (λ (s : ExpandableTable A I). column s.rows p) (set_offsets-shape recv recv.nprocs)
            ∙ column_lem recv.nprocs recv.rows p (omega (arith, slots_fit recv v)) hp)
        ∙ delivers _ _ _ recv.rows v.fits
            (λ q hq. let (offset, bytes) = exact q hq in (bytes, offset, v.within q hq)) p i hp hi,
  )
