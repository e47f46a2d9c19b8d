-- ===== src/Delivtable/Deliver.antt =====
-- A push followed by the copy of the payload, in one part or in two.
use bsponmpi.Base.{
  ℕ, ◌+◌, ◌-◌, ◌*◌, ◌≤◌, ◌<◌, ◌≡◌, ◌∙◌, refl, sym, ap, ap₂, arith, Array, slice, slice_ext,
  slice_split, ltb, leb, List, [], ◌∷◌, ◌++◌, ◌&&◌, ◌==◌, if◌then◌else◌,
}
use bsponmpi.Exptable.{column}
use bsponmpi.Delivtable.{
  Slot, DelivElement, DeliveryTable, ItemType, code, byte, tag_size, fill, push,
}
use bsponmpi.Delivtable.Column.{queue, IsDelivery}
use bsponmpi.Delivtable.Extends.{Extends}
use bsponmpi.Delivtable.Fill.{copied-Extends, byte-fill}
use bsponmpi.Delivtable.Room.{CanGrow}
use bsponmpi.Delivtable.Push.{
  roomy, has_room, push-Extends, push-pointer, rows-push, after-IsDelivery, queue-after, queue-push,
}

-- `t'` is in order, and has the queues of `t` but for one action more, the element with the
-- content, in the queue of its type in column `proc`.
abbrev pub Delivered : DeliveryTable → ℕ → DelivElement → ItemType → List ℕ → DeliveryTable → Type 0
Delivered t proc element type content t' =
    IsDelivery t'
    × (t'.nprocs ≡ t.nprocs)
    × ((q : ℕ) (other : ItemType)
        → q < t.nprocs
        → queue t' q other ≡ (
            if (q == proc) && (code other == code type)
            then queue t q other
              ++ record { size = element.size; info = element.info; payload = content } ∷ []
            else queue t q other))

module _ (fresh : Array Slot) (t : DeliveryTable) (d : IsDelivery t) (proc : ℕ)
    (hp : proc < t.nprocs) (element : DelivElement) (type : ItemType)
    (grow : CanGrow t element.size) where
  abbrev pushed : DeliveryTable
  pushed = (push fresh t proc element type).1

  abbrev pointer : ℕ
  pointer = (push fresh t proc element type).0

  abbrev mid : DeliveryTable
  mid = roomy fresh t d proc hp element type grow

  room_used : mid.used_slot_count proc ≡ t.used_slot_count proc
  room_used = ap (λ (u : Array ℕ). u proc) (has_room fresh t d proc hp element type grow).used

  -- Any table of the same rows has the payload at the returned pointer.
  pointer_lem :
      (t' : DeliveryTable)
      → t'.rows ≡ pushed.rows
      → pointer ≡ column t'.rows proc + mid.used_slot_count proc + tag_size
  pointer_lem t' r =
      push-pointer fresh t d proc hp element type grow
      ∙ ap₂ (λ n k. column n proc + k + tag_size)
          (sym (r ∙ rows-push fresh t d proc hp element type grow)) (sym room_used)

  module _ (t' : DeliveryTable) (e : Extends mid t' proc element type) (r : t'.rows ≡ pushed.rows)
      (memory : Array ℕ) (src low nbytes : ℕ) (inside : low + nbytes ≤ element.size) where
    abbrev part : DeliveryTable
    part = fill t' (8 * pointer + low) memory src nbytes

    pub part-Extends : Extends mid part proc element type
    part-Extends = rw (pointer_lem t' r) (
        copied-Extends mid t' (has_room fresh t d proc hp element type grow).delivery proc
          (rw (has_room fresh t d proc hp element type grow).nprocs hp) element type e memory src
          low nbytes inside)

    pub part-rows : part.rows ≡ pushed.rows
    unfolding fill
    part-rows = r

  pub delivered :
      (t' : DeliveryTable) (content : List ℕ)
      → Extends mid t' proc element type
      → t'.rows ≡ pushed.rows
      → slice (byte t'.data_block) (8 * pointer) element.size ≡ content
      → Delivered t proc element type content t'
  delivered t' content e r p =
      let (ordered, same_nprocs) = after-IsDelivery fresh t d proc hp element type grow t' e in
      let at = pointer_lem t' r ∙ ap (λ k. column t'.rows proc + k + tag_size) room_used in
      (
        ordered,
        same_nprocs,
        λ q other hq.
            queue-after fresh t d proc hp element type grow t' e q other hq
            ∙ ap
                (λ l.
                  if (q == proc) && (code other == code type)
                  then queue t q other
                    ++ record { size = element.size; info = element.info; payload = l } ∷ []
                  else queue t q other)
                (ap (λ a. slice (byte t'.data_block) (8 * a) element.size) (sym at) ∙ p),
      )

  module _ (memory : Array ℕ) where
    -- The table after a copy to the returned pointer.
    abbrev begun : ℕ → ℕ → DeliveryTable
    begun src nbytes = fill pushed (8 * pointer) memory src nbytes

    begun-Extends :
        (src nbytes : ℕ)
        → nbytes ≤ element.size
        → Extends mid (begun src nbytes) proc element type × ((begun src nbytes).rows ≡ pushed.rows)
    begun-Extends src nbytes h =
        let start : 8 * pointer + 0 ≡ 8 * pointer = omega arith in
        let e = push-Extends fresh t d proc hp element type grow in
        (
          rw start at (part-Extends pushed e refl memory src 0 nbytes (omega arith)),
          rw start at (part-rows pushed e refl memory src 0 nbytes (omega arith)),
        )

    begun-byte :
        (src nbytes k : ℕ)
        → k < nbytes
        → byte (begun src nbytes).data_block (8 * pointer + k) ≡ memory (src + k)
    begun-byte src nbytes k h =
        byte-fill pushed (8 * pointer) memory src nbytes (8 * pointer + k) ∙ ground arith

    -- One copy of the whole payload delivers it as it is in the memory.
    pub fill-Delivered :
        (src nbytes : ℕ)
        → element.size ≡ nbytes
        → Delivered t proc element type (slice memory src nbytes) (begun src nbytes)
    fill-Delivered src nbytes size =
        let (e, r) = begun-Extends src nbytes (omega arith) in
        delivered (begun src nbytes) (slice memory src nbytes) e r (
          ap (slice (byte (begun src nbytes).data_block) (8 * pointer)) size
          ∙ slice_ext _ _ _ _ nbytes (λ k h. begun-byte src nbytes k h))

    -- Two copies, of a tag and of a payload behind it, deliver the one after the other.
    module _ (tag tag_nbytes src nbytes : ℕ) (size : element.size ≡ tag_nbytes + nbytes) where
      abbrev both : DeliveryTable
      both = fill (begun tag tag_nbytes) (8 * pointer + tag_nbytes) memory src nbytes

      both-byte :
          (k : ℕ)
          → byte both.data_block (8 * pointer + k) ≡ (
              if leb (8 * pointer + tag_nbytes) (8 * pointer + k)
                && ltb (8 * pointer + k) (8 * pointer + tag_nbytes + nbytes)
              then memory (src + (8 * pointer + k - (8 * pointer + tag_nbytes)))
              else byte (begun tag tag_nbytes).data_block (8 * pointer + k))
      both-byte k =
          byte-fill (begun tag tag_nbytes) (8 * pointer + tag_nbytes) memory src nbytes
            (8 * pointer + k)

      both-tag :
          (k : ℕ) → k < tag_nbytes → byte both.data_block (8 * pointer + k) ≡ memory (tag + k)
      both-tag k h = both-byte k ∙ ground (arith, begun-byte tag tag_nbytes k h)

      both-payload :
          (k : ℕ)
          → k < nbytes
          → byte both.data_block (8 * pointer + tag_nbytes + k) ≡ memory (src + k)
      both-payload k h =
          byte-fill (begun tag tag_nbytes) (8 * pointer + tag_nbytes) memory src nbytes
            (8 * pointer + tag_nbytes + k)
          ∙ ground arith

      pub fill_twice-Delivered :
          Delivered t proc element type
            (slice memory tag tag_nbytes ++ slice memory src nbytes)
            both
      fill_twice-Delivered =
          let (e, r) = begun-Extends tag tag_nbytes (omega arith) in
          delivered both (slice memory tag tag_nbytes ++ slice memory src nbytes)
            (part-Extends (begun tag tag_nbytes) e r memory src tag_nbytes nbytes (omega arith))
            (part-rows (begun tag tag_nbytes) e r memory src tag_nbytes nbytes (omega arith))
            (ap (slice (byte both.data_block) (8 * pointer)) size
              ∙ slice_split (byte both.data_block) (8 * pointer) tag_nbytes nbytes
              ∙ ap₂ ◌++◌ (slice_ext _ _ _ _ tag_nbytes both-tag)
                  (slice_ext _ _ _ _ nbytes both-payload))

-- A push of an element without a payload delivers just the element.
pub push-Delivered :
    (fresh : Array Slot) (t : DeliveryTable) (d : IsDelivery t) (proc : ℕ) (hp : proc < t.nprocs)
    (element : DelivElement) (type : ItemType) (grow : CanGrow t element.size)
    → element.size ≡ 0
    → Delivered t proc element type [] (push fresh t proc element type).1
push-Delivered fresh t d proc hp element type grow none =
    let (pointer, t') = push fresh t proc element type in
    let (ordered, same) =
      after-IsDelivery fresh t d proc hp element type grow t'
        (push-Extends fresh t d proc hp element type grow) in
    (
      ordered,
      same,
      λ q other hq.
          queue-push fresh t d proc hp element type grow q other hq
          ∙ ap
              (λ l.
                if (q == proc) && (code other == code type)
                then queue t q other
                  ++ record { size = element.size; info = element.info; payload = l } ∷ []
                else queue t q other)
              (ap (slice (byte t'.data_block) (8 * pointer)) none),
    )
