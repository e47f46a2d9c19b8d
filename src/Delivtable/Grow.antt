-- ===== src/Delivtable/Grow.antt =====
-- The column of a new object stays in order, and its queue grows by the object.
use bsponmpi.Base.{
  ℕ, ◌-◌, ◌≤◌, ◌<◌, ◌≡◌, ◌≢◌, ◌⊎◌, inl, inr, ◌∙◌, sym, ap, ap₂, arith, [], ◌∷◌, ◌++◌,
}
use native.Mathlib.Decide.{ℕ_discrete}
use bsponmpi.Delivtable.Extent.{object_slots}
use bsponmpi.Delivtable.{
  DelivElement, DeliveryTable, ItemType, start_of, count_of, end_of, index_size,
}
use bsponmpi.Delivtable.Chain.{
  hop, positions, IsChain, IsChain-kept, IsChain-grown, hop_kept, hop_start', hop-start'_new,
  positions_grown, positions_kept,
}
use bsponmpi.Delivtable.Index.{ItemType-discrete}
use bsponmpi.Delivtable.Column.{
  next_in, extent_in, action_at, actions_at, place, queue, IsColumn, actions_ext, actions_at-append,
  action_at_ext,
}
use bsponmpi.Delivtable.Extends.{Appended}

module _ (t t' : DeliveryTable) (proc : ℕ) (element : DelivElement) (type : ItemType)
    (c : IsColumn t proc) (a : Appended t t' proc element type) where
  abbrev used : ℕ
  used = t.used_slot_count proc

  long : (p : ℕ) → 0 < extent_in t proc p
  long p = omega arith

  more : used ≤ t'.used_slot_count proc
  more = omega (arith, a.used_now)

  same_extent : (p : ℕ) → index_size ≤ p → p < used → extent_in t' proc p ≡ extent_in t proc p
  same_extent p l h = ap object_slots (a.size_old p h)

  in_used : (other : ItemType) (i : ℕ) → i < count_of t proc other → place t proc other i < used
  in_used other i h = omega (arith, (c.chain other).inside i h)

  -- The lists of the other types were not relinked.
  kept :
      (other : ItemType)
      → other ≢ type
      → (i : ℕ) → i < count_of t proc other
      → next_in t' proc (place t proc other i) ≡ next_in t proc (place t proc other i)
  kept other ne i h = elim (ℕ_discrete (count_of t proc type) 0) [
    | yes e ↦ a.next_empty _ (in_used other i h) e
    | no some_of_type ↦
        let k = count_of t proc type - 1 in
        a.next_other _ (in_used other i h) (λ e.
          c.apart other type i k ne h (omega arith) (e ∙ sym ((c.chain type).last k (omega arith))))
  ]

  others :
      (p : ℕ)
      → index_size ≤ p
      → p < used
      → p ≢ end_of t proc type
      → next_in t' proc p ≡ next_in t proc p
  others p l h ne = a.next_other p h ne

  IsChain-other :
      (other : ItemType)
      → other ≢ type
      → IsChain
          (next_in t' proc)
          (extent_in t' proc)
          index_size
          (t'.used_slot_count proc)
          (start_of t' proc other)
          (count_of t' proc other)
          (end_of t' proc other)
  IsChain-other other ne =
      rw (a.start_other other ne, a.count_other other ne, a.end_other other ne)
        (IsChain-kept (c.chain other) (next_in t' proc) (extent_in t' proc)
          (t'.used_slot_count proc) long more same_extent (kept other ne))

  IsChain-self :
      IsChain
        (next_in t' proc)
        (extent_in t' proc)
        index_size
        (t'.used_slot_count proc)
        (start_of t' proc type)
        (count_of t' proc type)
        (end_of t' proc type)
  IsChain-self =
      rw (a.start_self, a.count_self, a.end_self)
        (IsChain-grown (c.chain type) (next_in t' proc) (extent_in t' proc)
          (t'.used_slot_count proc) long more same_extent others a.next_end c.low
          (omega (arith, a.used_now, ap (λ (x : DelivElement). object_slots x.size) a.tag_new)))

  place_other :
      (other : ItemType)
      → other ≢ type
      → (i : ℕ) → i < count_of t proc other
      → place t' proc other i ≡ place t proc other i
  place_other other ne i h =
      ap (λ s. hop (next_in t' proc) s i) (a.start_other other ne)
      ∙ hop_kept (c.chain other) (next_in t' proc) (extent_in t' proc) (t'.used_slot_count proc)
          long more same_extent (kept other ne) i h

  place_old : (i : ℕ) → i < count_of t proc type → place t' proc type i ≡ place t proc type i
  place_old i h =
      ap (λ s. hop (next_in t' proc) s i) a.start_self
      ∙ hop_start' (c.chain type) (next_in t' proc) (extent_in t' proc) (t'.used_slot_count proc)
          long more same_extent others a.next_end i h

  place_new : place t' proc type (count_of t proc type) ≡ used
  place_new =
      ap (λ s. hop (next_in t' proc) s (count_of t proc type)) a.start_self
      ∙ hop-start'_new (c.chain type) (next_in t' proc) (extent_in t' proc)
          (t'.used_slot_count proc) long more same_extent others a.next_end

  -- An object of the new list is one of the old list or the new object.
  place_self :
      (i : ℕ)
      → i < count_of t' proc type
      → ((i < count_of t proc type) × (place t' proc type i ≡ place t proc type i))
        ⊎ (place t' proc type i ≡ used)
  place_self i h = elim (ℕ_discrete i (count_of t proc type)) [
    | yes e ↦ inr (ap (place t' proc type) e ∙ place_new)
    | no ne ↦
        let q : i < count_of t proc type = omega (arith, a.count_self) in inl (q, place_old i q)
  ]

  self_apart :
      (other : ItemType) (i j : ℕ)
      → other ≢ type
      → i < count_of t' proc type
      → j < count_of t' proc other
      → place t' proc type i ≢ place t' proc other j
  self_apart other i j ne hi hj =
      let q : j < count_of t proc other = omega (arith, a.count_other other ne) in
      rw (place_other other ne j q) (elim (place_self i hi) [
        | inl (p, e) ↦ rw e (c.apart type other i j (λ s. ne (sym s)) p q)
        | inr e ↦ rw e (omega (arith, in_used other j q))
      ])

  -- The column stays in order.
  pub grown-IsColumn : IsColumn t' proc
  grown-IsColumn = record {
    points = a.points;
    low = omega (arith, c.low, more);
    chain = λ other. elim (ItemType-discrete other type) [
      | yes e ↦ rw e IsChain-self
      | no ne ↦ IsChain-other other ne
    ];
    apart = λ x y i j ne hi hj. elim (ItemType-discrete x type) [
      | yes e ↦ rw e (self_apart y i j (λ s. ne (e ∙ sym s)) (rw e at hi) hj)
      | no nx ↦ elim (ItemType-discrete y type) [
        | yes e ↦
            let h = self_apart x j i nx (rw e at hj) hi in
            λ (s : place t' proc x i ≡ place t' proc y j).
              h (sym (s ∙ ap (λ z. place t' proc z j) e))
        | no ny ↦
            let qi : i < count_of t proc x = omega (arith, a.count_other x nx) in
            let qj : j < count_of t proc y = omega (arith, a.count_other y ny) in
            rw (place_other x nx i qi, place_other y ny j qj) (c.apart x y i j ne qi qj)
      ]
    ];
  }

  old_action :
      (other : ItemType) (i : ℕ)
      → i < count_of t proc other
      → action_at t' proc (place t proc other i) ≡ action_at t proc (place t proc other i)
  old_action other i h =
      action_at_ext t t' proc (place t proc other i) (a.size_old _ (in_used other i h))
        (a.info_old _ (in_used other i h))
        (λ j l u. a.bytes_old j (omega (arith, (c.chain other).inside i h)))

  -- The queues of the other types are unchanged.
  pub queue_other : (other : ItemType) → other ≢ type → queue t' proc other ≡ queue t proc other
  queue_other other ne =
      ap (actions_at t' proc) (
        ap₂ (λ s n. positions (next_in t' proc) s n) (a.start_other other ne)
          (a.count_other other ne)
        ∙ positions_kept (c.chain other) (next_in t' proc) (extent_in t' proc)
            (t'.used_slot_count proc) long more same_extent (kept other ne))
      ∙ actions_ext t t' proc (next_in t proc) (start_of t proc other) (count_of t proc other)
          (old_action other)

  -- The queue of the new object's type ends with it.
  pub queue_self : queue t' proc type ≡ queue t proc type ++ action_at t' proc used ∷ []
  queue_self =
      ap (actions_at t' proc) (
        ap₂ (λ s n. positions (next_in t' proc) s n) a.start_self a.count_self
        ∙ positions_grown (c.chain type) (next_in t' proc) (extent_in t' proc)
            (t'.used_slot_count proc) long more same_extent others a.next_end)
      ∙ actions_at-append t' proc
          (positions (next_in t proc) (start_of t proc type) (count_of t proc type)) (used ∷ [])
      ∙ ap (λ l. l ++ action_at t' proc used ∷ [])
          (actions_ext t t' proc (next_in t proc) (start_of t proc type) (count_of t proc type)
            (old_action type))
