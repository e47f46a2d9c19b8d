-- ===== src/Delivtable/Push.antt =====
-- deliveryTable_push as a whole: room is made, then the object is added.
use bsponmpi.Base.{
  ℕ, ◌+◌, ◌*◌, ◌<◌, ◌≡◌, ◌∙◌, refl, sym, ap, ap₂, Array, slice, [], ◌∷◌, ◌++◌, ◌&&◌, ◌==◌,
  if◌then◌else◌,
}
use bsponmpi.Exptable.{column}
use bsponmpi.Delivtable.{
  byte, Slot, DelivElement, DeliveryTable, ItemType, code, tag_size, make_room, append, push,
}
use bsponmpi.Delivtable.Column.{queue, IsDelivery}
use bsponmpi.Delivtable.Append.{append-Extends}
use bsponmpi.Delivtable.Extends.{Extends}
use bsponmpi.Delivtable.Queue.{extended-IsDelivery, queue-extended}
use bsponmpi.Delivtable.Room.{CanGrow, HasRoom, make_room-HasRoom}

module _ (fresh : Array Slot) (t : DeliveryTable) (d : IsDelivery t) (proc : ℕ)
    (hp : proc < t.nprocs) (element : DelivElement) (type : ItemType)
    (grow : CanGrow t element.size) where
  -- The table between the two steps.
  abbrev pub roomy : DeliveryTable
  roomy = make_room fresh t proc element.size

  pub has_room : HasRoom t roomy proc element.size
  has_room = make_room-HasRoom fresh t d proc element.size hp grow

  roomy_proc : proc < roomy.nprocs
  roomy_proc = rw has_room.nprocs hp

  pub push-Extends : Extends roomy (push fresh t proc element type).1 proc element type
  unfolding push
  push-Extends =
      append-Extends roomy has_room.delivery proc roomy_proc element type
        (rw has_room.used has_room.free)

  -- The returned pointer is the slot behind the tag of the new object.
  pub push-pointer :
      (push fresh t proc element type).0
      ≡ column roomy.rows proc + t.used_slot_count proc + tag_size
  unfolding push
  push-pointer = ap (λ (u : Array ℕ). column roomy.rows proc + u proc + tag_size) has_room.used

  -- Any table that extends the roomy one has the queues of `t` and the new action.
  module _ (t' : DeliveryTable) (e : Extends roomy t' proc element type) where
    pub after-IsDelivery : IsDelivery t' × (t'.nprocs ≡ t.nprocs)
    after-IsDelivery = (
      extended-IsDelivery roomy t' has_room.delivery proc roomy_proc element type e,
      e.nprocs ∙ has_room.nprocs,
    )

    pub queue-after :
        (q : ℕ) (other : ItemType)
        → q < t.nprocs
        → queue t' q other ≡ (
            if (q == proc) && (code other == code type)
            then queue t q other
              ++ record {
                size = element.size;
                info = element.info;
                payload =
                    slice
                      (byte t'.data_block)
                      (8 * (column t'.rows proc + t.used_slot_count proc + tag_size))
                      element.size;
              }
                ∷ []
            else queue t q other)
    queue-after q other hq =
        queue-extended roomy t' has_room.delivery proc roomy_proc element type e q other
          (rw has_room.nprocs hq)
        ∙ ap₂
            (λ l (u : Array ℕ).
              if (q == proc) && (code other == code type)
              then l
                ++ record {
                  size = element.size;
                  info = element.info;
                  payload =
                      slice (byte t'.data_block) (8 * (column t'.rows proc + u proc + tag_size))
                        element.size;
                }
                  ∷ []
              else l)
            (has_room.same q other hq) has_room.used

  -- With room to grow below 2^31 bytes, a push keeps a delivery table in order: its index, its six
  -- linked lists per column and its fill marks agree.
  pub push-IsDelivery : IsDelivery (push fresh t proc element type).1
  push-IsDelivery = (after-IsDelivery (push fresh t proc element type).1 push-Extends).0

  pub rows-push : (push fresh t proc element type).1.rows ≡ roomy.rows
  unfolding push append
  rows-push = refl

  -- On a table in order with room to grow below 2^31 bytes, a push appends one action to the queue
  -- of its type in its column and leaves all other queues of the table as they are, whether or not
  -- the table had to grow; its payload is what the returned pointer points to.
  pub queue-push :
      (q : ℕ) (other : ItemType)
      → q < t.nprocs
      → let (pointer, t') = push fresh t proc element type in
        queue t' q other ≡ (
          if (q == proc) && (code other == code type)
          then queue t q other
            ++ record {
              size = element.size;
              info = element.info;
              payload = slice (byte t'.data_block) (8 * pointer) element.size;
            }
              ∷ []
          else queue t q other)
  queue-push q other hq =
      let t' = (push fresh t proc element type).1 in
      queue-after t' push-Extends q other hq
      ∙ ap
          (λ a.
            if (q == proc) && (code other == code type)
            then queue t q other
              ++ record {
                size = element.size;
                info = element.info;
                payload = slice (byte t'.data_block) (8 * a) element.size;
              }
                ∷ []
            else queue t q other)
          (ap (λ r. column r proc + t.used_slot_count proc + tag_size) rows-push ∙ sym push-pointer)
