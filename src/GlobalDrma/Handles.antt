-- ===== src/GlobalDrma/Handles.antt =====
-- Handles of global arrays: which are in use, and what alloc and free do to them.
use native.Mathlib.Decide.{ℕ_discrete}
use bsponmpi.Base.{
  ℕ, zero, suc, ◌+◌, ◌%◌, ◌≤◌, ◌<◌, ◌≡◌, ◌≢◌, ◌∙◌, ◌⊎◌, refl, ap, arith, Bool, true, false, not,
  ◌&&◌, ◌||◌, ok, fault, Array, update_self, update_ne, ltb, ◌==◌, if◌then◌else◌, inl, inr,
  Bool-cases,
}
use bsponmpi.Delivtable.{Slot, DelivElement}
use bsponmpi.Private.{BspObject, GlobalArray}
use bsponmpi.Bspx.{pop_reg}
use bsponmpi.GlobalDrma.{
  max_global_arrays, alloc_size, find_handle, next_handle, alloc_at, global_alloc, global_free,
}

-- A handle is in use when it has a slice and, before the first round is over, was given out.
abbrev pub is_live : BspObject → ℕ → Bool
is_live bsp k =
    not ((bsp.global_arrays k).local_slice == 0)
    && (not (bsp.global_overflow == 0) || ltb k bsp.global_array_last)

-- The test of `is_live` on the parts of an object.
abbrev live : ℕ → ℕ → ℕ → ℕ → Bool
live slice over last k = not (slice == 0) && (not (over == 0) || ltb k last)

module _ (over : ℕ) where
  abbrev over_after : ℕ → ℕ
  over_after h = if (h + 1) % max_global_arrays == 0 then 1 else over

  live_here :
      (slice h : ℕ)
      → 0 < slice
      → h < max_global_arrays
      → live slice (over_after h) ((h + 1) % max_global_arrays) h ≡ true
  live_here slice h some_slice small = elim (ℕ_discrete h 127) [
    | yes e ↦ rw e (ground arith)
    | no ne ↦ let step : (h + 1) % max_global_arrays ≡ h + 1 = omega arith in rw step (ground arith)
  ]

  live_there :
      (slice h k last : ℕ)
      → h < max_global_arrays
      → k < max_global_arrays
      → k ≢ h
      → (over ≡ 0 → h ≡ last)
      → live slice (over_after h) ((h + 1) % max_global_arrays) k ≡ live slice over last k
  live_there slice h k last small low ne first = elim (ℕ_discrete h 127) [
    | yes e ↦ elim (ℕ_discrete over 0) [
      | yes z ↦
          let f = first z in
          let inside : ltb k last ≡ true = ground arith in rw (e, inside) (ground arith)
      | no nz ↦ let used : (over == 0) ≡ false = ground arith in rw (e, used) (ground arith)
    ]
    | no far ↦
        let step : (h + 1) % max_global_arrays ≡ h + 1 = omega arith in
        elim (ℕ_discrete over 0) [
          | yes z ↦
              let f = first z in
              let same : ltb k (h + 1) ≡ ltb k last = ground arith in
              rw (step, z, same) (ground arith)
          | no nz ↦ let used : (over == 0) ≡ false = ground arith in rw (step, used) (ground arith)
        ]
  ]

  live_used : (slice k last : ℕ) → over ≢ 0 → slice ≢ 0 → live slice over last k ≡ true
  live_used slice k last some_over some_slice = ground arith

find_lem :
    (arrays : Array GlobalArray) (fuel count last : ℕ)
    → count ≤ last
    → max_global_arrays < fuel + last
    → last ≤ max_global_arrays
    → ((h : ℕ) × (find_handle fuel count last arrays ≡ ok h)
        × (last ≤ h)
        × (h < max_global_arrays)
        × ((arrays h).local_slice ≡ 0))
      ⊎ ((find_handle fuel count last arrays ≡ fault)
          × ((k : ℕ) → last ≤ k → k < max_global_arrays → (arrays k).local_slice ≢ 0))
unfolding find_handle
find_lem arrays zero count last few more below = absurd (omega arith)
find_lem arrays (suc fuel) count last few more below =
    elim (Bool-cases (ltb last max_global_arrays)) [
      | inr past ↦ inr (rw past refl, λ k h h'. absurd (ground arith))
      | inl inside ↦ elim (ℕ_discrete (arrays last).local_slice 0) [
        | yes free ↦ inl (last, ground arith, omega arith, ground arith, free)
        | no used ↦
            let go : find_handle (suc fuel) count last arrays
                ≡ find_handle fuel (count + 1) (last + 1) arrays =
              ground arith in
            elim (find_lem arrays fuel (count + 1) (last + 1) (omega arith) (omega arith)
              (ground arith)) [
                | inl (h, at, low, high, free) ↦ inl (h, go ∙ at, omega arith, high, free)
                | inr (at, full) ↦ inr (
                  go ∙ at,
                  λ k low high. elim (ℕ_discrete k last) [
                    | yes e ↦ rw e used
                    | no ne ↦ full k (omega arith) high
                  ],
                )
              ]
      ]
    ]

module _ (fresh : Array Slot) (stale : DelivElement) (bsp : BspObject) (array_size slice : ℕ) where
  -- What alloc does once it has a handle.
  abbrev pub IsAllocated : ℕ → BspObject → Type 0
  IsAllocated h bsp' =
      (h < max_global_arrays)
      × (is_live bsp h ≡ false)
      × (is_live bsp' h ≡ true)
      × (bsp'.global_arrays h ≡ record {
        array_size = array_size;
        local_slice = slice;
        local_size = alloc_size bsp array_size;
      })
      × ((k : ℕ)
          → k < max_global_arrays
          → k ≢ h
          → (is_live bsp' k ≡ is_live bsp k) × (bsp'.global_arrays k ≡ bsp.global_arrays k))
      × (bsp'.global_array_last < max_global_arrays)

  module _ (some_slice : 0 < slice) where
    allocated :
        (h : ℕ)
        → h < max_global_arrays
        → (bsp.global_overflow ≡ 0 → h ≡ bsp.global_array_last)
        → (bsp.global_overflow ≢ 0 → (bsp.global_arrays h).local_slice ≡ 0)
        → IsAllocated h (alloc_at fresh stale bsp array_size slice h).1
    unfolding alloc_at
    allocated h small first later =
        let entry : GlobalArray = record {
          array_size = array_size;
          local_slice = slice;
          local_size = alloc_size bsp array_size;
        } in
        let arrays = bsp.global_arrays in
        let here = update_self arrays h entry in
        let same = ap (λ e. e.local_slice) here in
        (
          small,
          elim (ℕ_discrete bsp.global_overflow 0) [
            | yes e ↦ let f = first e in ground arith
            | no ne ↦ let f = later ne in ground arith
          ],
          rw same (live_here bsp.global_overflow slice h some_slice small),
          here,
          λ k low ne. (
            let other = ap (λ e. e.local_slice) (update_ne arrays h entry k ne) in
                rw other (
                  live_there bsp.global_overflow (arrays k).local_slice h k bsp.global_array_last
                    small low ne first),
            update_ne arrays h entry k ne,
          ),
          omega arith,
        )

  -- With the next handle inside the array of handles and a slice that is not NULL, the allocation
  -- either returns a handle that was not in use, is in use now and has the size and slice, without
  -- a change to any other handle, or it leaves the array of handles, and then the first round is
  -- over and every handle from the next one on is in use: it neither aborts nor finds a handle that
  -- was freed before that one.
  pub alloc_lem :
      0 < slice
      → bsp.global_array_last < max_global_arrays
      → ((h : ℕ) × (bsp' : BspObject) × (global_alloc fresh stale bsp array_size slice
            ≡ ok (h, bsp'))
          × IsAllocated h bsp')
        ⊎ ((global_alloc fresh stale bsp array_size slice ≡ fault)
            × (bsp.global_overflow ≢ 0)
            × ((k : ℕ) → bsp.global_array_last ≤ k → k < max_global_arrays → is_live bsp k ≡ true))
  unfolding global_alloc next_handle
  alloc_lem some_slice small = elim (ℕ_discrete bsp.global_overflow 0) [
    | yes e ↦
        let h = bsp.global_array_last in
        inl (
          h,
          (alloc_at fresh stale bsp array_size slice h).1,
          rw e refl,
          allocated some_slice h small (λ _. refl) (λ ne. absurd (ne e)),
        )
    | no ne ↦
        let over : (bsp.global_overflow == 0) ≡ false = ground arith in
        elim (find_lem bsp.global_arrays (max_global_arrays + 2) 0 bsp.global_array_last
          (omega arith) (omega arith) (omega arith)) [
            | inl (h, at, low, high, free) ↦ inl (
              h,
              (alloc_at fresh stale bsp array_size slice h).1,
              rw (over, at) refl,
              allocated some_slice h high (λ e. absurd (ne e)) (λ _. free),
            )
            | inr (at, full) ↦ inr (
              rw (over, at) refl,
              ne,
              λ k low high.
                  live_used bsp.global_overflow (bsp.global_arrays k).local_slice k
                    bsp.global_array_last ne (full k low high),
            )
          ]
  ]

-- Freeing a handle takes it out of use and changes no other.
free_lem :
    (fresh : Array Slot) (stale : DelivElement) (bsp : BspObject) (h : ℕ)
    → let bsp' = global_free fresh stale bsp h in
      (is_live bsp' h ≡ false)
      × ((k : ℕ)
          → k ≢ h
          → (is_live bsp' k ≡ is_live bsp k) × (bsp'.global_arrays k ≡ bsp.global_arrays k))
      × (bsp'.delivery_table
          ≡ (pop_reg fresh stale bsp (bsp.global_arrays h).local_slice).delivery_table)
unfolding global_free pop_reg
free_lem fresh stale bsp h =
    let freed : GlobalArray = record (bsp.global_arrays h) { local_slice = 0 } in
    let same = ap (λ e. e.local_slice) (update_self bsp.global_arrays h freed) in
    (
      rw same refl,
      λ k ne.
          let other = update_ne bsp.global_arrays h freed k ne in
          (rw (ap (λ e. e.local_slice) other) refl, other),
      refl,
    )
