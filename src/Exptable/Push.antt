-- ===== src/Exptable/Push.antt =====
-- `fixedElSizeTable_push` appends to one column and leaves the others alone.
use bsponmpi.Base.{
  ℕ, suc, ◌+◌, ◌*◌, ◌^◌, ◌<◌, ◌≡◌, ◌≢◌, ◌∙◌, refl, ap, arith, u32, Array, slice_ext, slice-suc,
  ◌==◌, if◌then◌else◌, [], ◌∷◌, ◌++◌, Bool-cases, inl, inr, update_self, update_ne, eq_if,
}
use native.Mathlib.Decide.{ℕ_discrete}
use bsponmpi.Exptable.{
  ExpandableTable, column, cell, expand, make_room, store, push, push_index, contents, by_bytes,
}
use bsponmpi.Exptable.Layout.{
  IsValid, row_bound, column_lem, columns_apart, slots_fit, by_bytes_lem,
}
use bsponmpi.Exptable.Expand.{
  expand-contents, expand-IsValid, expand-rows, expand-nprocs, expand-used, expand-size,
}

-- The table can double its rows, should it have to, and its size in bytes still fits `int`.
abbrev pub CanGrow : {A I : Type 0} → ExpandableTable A I → Type 0
CanGrow t = t.nprocs * (t.rows + t.rows) * t.slot_size < 2 ^ 31

-- What `push` finds after making room: a valid table of the same contents with a free slot.
pub record HasRoom {A I : Type 0} (t t' : ExpandableTable A I) (proc : ℕ) : Type 0 where
  pub valid : IsValid t'
  pub nprocs : t'.nprocs ≡ t.nprocs
  pub size : t'.slot_size ≡ t.slot_size
  pub used : t'.used_slot_count ≡ t.used_slot_count
  pub free : t.used_slot_count proc < t'.rows
  pub same : (p : ℕ) → p < t.nprocs → contents t' p ≡ contents t p

module _ {A I : Type 0} (fresh : Array A) (t : ExpandableTable A I) (v : IsValid t)
    (grow : CanGrow t) (proc : ℕ) (hp : proc < t.nprocs) where
  expand-HasRoom :
      (info : I) → t.used_slot_count proc ≡ t.rows → HasRoom t (expand fresh t t.rows info) proc
  expand-HasRoom info e =
      let some_proc : 0 < t.nprocs = omega arith in
      record {
        valid = expand-IsValid t v t.rows grow some_proc fresh info;
        nprocs = expand-nprocs fresh t t.rows info;
        size = expand-size fresh t t.rows info;
        used = expand-used fresh t t.rows info;
        free = omega (arith, expand-rows t v t.rows grow some_proc fresh info, v.has_rows);
        same = λ p h. expand-contents t v t.rows grow some_proc fresh info p h;
      }

  pub make_room-HasRoom :
      (changeinfo : I → ℕ → ℕ → I) → HasRoom t (make_room fresh t proc changeinfo) proc
  unfolding make_room
  make_room-HasRoom changeinfo = elim (Bool-cases (t.used_slot_count proc == t.rows)) [
    | inl e ↦ rw e (expand-HasRoom _ (ground arith))
    | inr e ↦ rw e (record {
      valid = v;
      nprocs = refl;
      size = refl;
      used = refl;
      free = ground (arith, v.within proc hp);
      same = λ p h. refl;
    })
  ]

-- The slots that a push into a table with room leaves behind.
module _ {A I : Type 0} (t : ExpandableTable A I) (v : IsValid t) (proc : ℕ) (hp : proc < t.nprocs)
    (free : t.used_slot_count proc < t.rows) where
  pub push_index_lem : push_index t proc ≡ column t.rows proc + t.used_slot_count proc
  push_index_lem =
      let slots = slots_fit t v in
      let start = column_lem t.nprocs t.rows proc (omega (arith, slots)) hp in
      let inside = row_bound t.nprocs t.rows proc (suc (t.used_slot_count proc)) hp free in
      let exact : u32 (t.used_slot_count proc + column t.rows proc)
          ≡ column t.rows proc + t.used_slot_count proc =
        omega (arith, slots, start, inside) in
      ap (λ n. by_bytes n t.slot_size) exact
      ∙ by_bytes_lem (column t.rows proc + t.used_slot_count proc) t.slot_size (t.nprocs * t.rows)
          v.has_size v.fits (omega (arith, start, inside))

  pub push_index_in_block : push_index t proc < t.nprocs * t.rows
  push_index_in_block = omega (
    arith,
    push_index_lem,
    row_bound t.nprocs t.rows proc (suc (t.used_slot_count proc)) hp free,
    column_lem t.nprocs t.rows proc (omega (arith, slots_fit t v)) hp,
  )

  used_cell-ne-push_index :
      (q i : ℕ) → q < t.nprocs → i < t.used_slot_count q → column t.rows q + i ≢ push_index t proc
  used_cell-ne-push_index q i hq hi = elim (ℕ_discrete q proc) [
    | yes e ↦ rw e (omega (arith, push_index_lem, ap t.used_slot_count e))
    | no ne ↦ omega (
      arith,
      push_index_lem,
      v.within q hq,
      column_lem t.nprocs t.rows q (omega (arith, slots_fit t v)) hq,
      column_lem t.nprocs t.rows proc (omega (arith, slots_fit t v)) hp,
      columns_apart t.rows q proc i (t.used_slot_count proc) (omega (arith, v.within q hq)) free ne,
    )
  ]

  next_count : u32 (t.used_slot_count proc + 1) ≡ suc (t.used_slot_count proc)
  next_count = omega (arith, slots_fit t v, row_bound t.nprocs t.rows proc t.rows hp (omega arith))

  module _ (x : A) where
    kept :
        (q i : ℕ) → q < t.nprocs → i < t.used_slot_count q → cell (store t proc x) q i ≡ cell t q i
    unfolding store
    kept q i hq hi = update_ne t.data_block _ x _ (used_cell-ne-push_index q i hq hi)

    store_here : contents (store t proc x) proc ≡ contents t proc ++ x ∷ []
    unfolding store
    store_here =
        rw
          (
            update_self t.used_slot_count proc _,
            next_count,
            slice-suc,
            ← push_index_lem,
            update_self t.data_block _ x,
          )
          (ap (λ l. l ++ x ∷ []) (slice_ext _ _ _ _ _ (λ i hi. kept proc i hp hi)))

    store_there : (q : ℕ) → q < t.nprocs → q ≢ proc → contents (store t proc x) q ≡ contents t q
    unfolding store
    store_there q hq ne =
        rw (update_ne t.used_slot_count proc _ q ne) (slice_ext _ _ _ _ _ (λ i hi. kept q i hq hi))

    contents-store :
        (q : ℕ)
        → q < t.nprocs
        → contents (store t proc x) q ≡ (if q == proc then contents t q ++ x ∷ [] else contents t q)
    contents-store q hq =
        eq_if (q == proc) (λ e. let same : q ≡ proc = ground arith in rw same store_here)
          (λ e. store_there q hq (ground arith))

    store-IsValid : IsValid (store t proc x)
    unfolding store
    store-IsValid = record {
      has_rows = v.has_rows;
      has_size = v.has_size;
      fits = v.fits;
      within = λ p h. ground (arith, v.within p h, next_count);
    }

module _ {A I : Type 0} (fresh : Array A) (t : ExpandableTable A I) (v : IsValid t)
    (grow : CanGrow t) (proc : ℕ) (hp : proc < t.nprocs) (changeinfo : I → ℕ → ℕ → I) (x : A) where
  abbrev roomy : ExpandableTable A I
  roomy = make_room fresh t proc changeinfo

  abbrev has_room : HasRoom t roomy proc
  has_room = make_room-HasRoom fresh t v grow proc hp changeinfo

  still_free : roomy.used_slot_count proc < roomy.rows
  still_free = rw has_room.used has_room.free

  -- Pushing a fixed size element onto a valid table that can double and stay below 2^31 bytes
  -- appends it to its column and leaves the other columns as they are, whether or not the table had
  -- to grow.
  pub contents-push :
      (q : ℕ)
      → q < t.nprocs
      → contents (push fresh t proc changeinfo x) q
        ≡ (if q == proc then contents t q ++ x ∷ [] else contents t q)
  unfolding push
  contents-push q hq =
      let r = has_room in
      rw (← r.same q hq)
        (contents-store roomy r.valid proc (rw r.nprocs hp) still_free x q (rw r.nprocs hq))

  -- A push of a fixed size element keeps a valid table that can double valid: its size fits
  -- `unsigned int` and no column is overfull.
  pub push-IsValid : IsValid (push fresh t proc changeinfo x)
  unfolding push
  push-IsValid = let r = has_room in store-IsValid roomy r.valid proc (rw r.nprocs hp) still_free x

  -- On a valid table that can double and stay below 2^31 bytes, the slot that a push of a fixed
  -- size element writes lies in the block that the table owns by then.
  pub push-in_bounds : push_index roomy proc < roomy.nprocs * roomy.rows
  push-in_bounds =
      let r = has_room in push_index_in_block roomy r.valid proc (rw r.nprocs hp) still_free

  pub nprocs-push : (push fresh t proc changeinfo x).nprocs ≡ t.nprocs
  unfolding push store
  nprocs-push = has_room.nprocs

  pub size-push : (push fresh t proc changeinfo x).slot_size ≡ t.slot_size
  unfolding push store
  size-push = has_room.size

-- A callback that changes nothing leaves the info alone.
pub info-push :
    {A I : Type 0} (fresh : Array A) (t : ExpandableTable A I) (proc : ℕ)
    (changeinfo : I → ℕ → ℕ → I) (x : A)
    → ((i : I) (r n : ℕ) → changeinfo i r n ≡ i)
    → (push fresh t proc changeinfo x).info ≡ t.info
unfolding push store make_room expand
info-push fresh t proc changeinfo x h = elim (Bool-cases (t.used_slot_count proc == t.rows)) [
  | inl e ↦ rw e (h t.info t.rows _)
  | inr e ↦ rw e refl
]
