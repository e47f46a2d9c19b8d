-- ===== src/Delivtable/Rows.antt =====
-- deliveryTable_push: how far a push lets the table grow, and the fill marks.
use bsponmpi.Base.{
  ℕ, ◌+◌, ◌*◌, ◌-◌, ◌^◌, ◌≤◌, ◌<◌, ◌≡◌, ◌≢◌, ◌∙◌, refl, ap, arith, Bool-cases, ◌⊎◌, inl, inr, Array,
  update_self, update_ne, max_of, ltb,
}
use bsponmpi.Exptable.Layout.{mul_mono}
use bsponmpi.Delivtable.Extent.{object_slots, object_size_lem}
use bsponmpi.Delivtable.{
  Slot, DelivElement, DeliveryTable, ItemType, aligned_size, make_room, append, push,
}
use bsponmpi.Delivtable.Column.{IsDelivery}
use bsponmpi.Delivtable.Room.{CanGrow, expand-shape, grow_small, make_room_lem}

-- The rows and fill marks of a push.
module _ (fresh : Array Slot) (t : DeliveryTable) (d : IsDelivery t) (proc : ℕ)
    (hp : proc < t.nprocs) (element : DelivElement) (type : ItemType)
    (grow : CanGrow t element.size) where
  abbrev needed : ℕ
  needed = t.used_slot_count proc + object_slots element.size

  roomy_shape :
      let roomy = make_room fresh t proc element.size in
      ((roomy.rows ≡ t.rows) ⊎ (roomy.rows ≤ 2 * needed))
      × (roomy.used_slot_count ≡ t.used_slot_count)
  roomy_shape =
      let more = max_of t.rows (object_slots element.size - (t.rows - t.used_slot_count proc)) in
      let fits : t.nprocs * (more + t.rows) * aligned_size < 2 ^ 31 = omega (
        arith,
        grow,
        mul_mono t.nprocs (more + t.rows) (t.rows + (t.rows + object_slots element.size))
            (ground arith),
      ) in
      let room = make_room_lem fresh t d proc element.size hp grow in
      elim (Bool-cases (ltb (t.rows - t.used_slot_count proc) (object_slots element.size))) [
        | inl e ↦
            let (r, _, u, _) = expand-shape fresh t d more fits (omega (arith, hp)) in
            rw (room, e) (inr (ground (arith, r, e, d.valid.within proc hp)), u)
        | inr e ↦ rw (room, e) (inl refl, refl)
      ]

  pub pushed_shape :
      let t' = (push fresh t proc element type).1 in
      ((t'.rows ≡ t.rows) ⊎ (t'.rows ≤ 2 * needed))
      × (needed < 2 ^ 32 → t'.used_slot_count proc ≡ needed)
      × ((q : ℕ) → q ≢ proc → t'.used_slot_count q ≡ t.used_slot_count q)
  unfolding push append
  pushed_shape =
      let (rows, used) = roomy_shape in
      let exact =
        object_size_lem element.size (omega (arith, grow_small t proc element.size hp grow)) in
      let at = λ (q : ℕ). ap (λ (u : Array ℕ). u q) used in
      (
        rows,
        λ small.
            update_self (make_room fresh t proc element.size).used_slot_count proc _
            ∙ omega (arith, small, exact, at proc),
        λ q ne. update_ne (make_room fresh t proc element.size).used_slot_count proc _ q ne ∙ at q,
      )
