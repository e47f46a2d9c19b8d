-- ===== src/Delivtable/Parts.antt =====
-- A push followed by the copy of a payload in three parts, the middle one first.
use bsponmpi.Base.{
  ℕ, ◌+◌, ◌-◌, ◌*◌, ◌≤◌, ◌<◌, ◌≡◌, ◌∙◌, refl, ap, ap₂, arith, Array, slice, slice_ext, slice_split,
  ltb, leb, ◌++◌, ◌&&◌, if◌then◌else◌,
}
use bsponmpi.Delivtable.{DelivElement, Slot, DeliveryTable, ItemType, byte, fill, push}
use bsponmpi.Delivtable.Column.{IsDelivery}
use bsponmpi.Delivtable.Extends.{Extends}
use bsponmpi.Delivtable.Fill.{byte-fill}
use bsponmpi.Delivtable.Room.{CanGrow}
use bsponmpi.Delivtable.Push.{roomy, push-Extends}
use bsponmpi.Delivtable.Deliver.{Delivered, part-Extends, part-rows, delivered}

module _ (fresh : Array Slot) (t : DeliveryTable) (d : IsDelivery t) (proc : ℕ)
    (hp : proc < t.nprocs) (element : DelivElement) (type : ItemType)
    (grow : CanGrow t element.size) (first second third : Array ℕ) (tag payload m n k : ℕ)
    (size : element.size ≡ m + (n + k)) where
  abbrev pushed : DeliveryTable
  pushed = (push fresh t proc element type).1

  abbrev pointer : ℕ
  pointer = (push fresh t proc element type).0

  abbrev one : DeliveryTable
  one = fill pushed (8 * pointer + m) second 0 n

  abbrev two : DeliveryTable
  two = fill one (8 * pointer) first tag m

  abbrev three : DeliveryTable
  three = fill two (8 * pointer + (n + m)) third payload k

  abbrev IsExtended : DeliveryTable → Type 0
  IsExtended t' =
      Extends (roomy fresh t d proc hp element type grow) t' proc element type
      × (t'.rows ≡ pushed.rows)

  -- A copy inside the payload keeps the table extended.
  copied :
      (t' : DeliveryTable)
      → IsExtended t'
      → (memory : Array ℕ) (src low nbytes : ℕ) → low + nbytes ≤ element.size
      → IsExtended (fill t' (8 * pointer + low) memory src nbytes)
  copied t' (e, r) memory src low nbytes inside = (
    part-Extends fresh t d proc hp element type grow t' e r memory src low nbytes inside,
    part-rows fresh t d proc hp element type grow t' e r memory src low nbytes inside,
  )

  two-IsExtended : IsExtended two
  two-IsExtended =
      let start : 8 * pointer + 0 ≡ 8 * pointer = omega arith in
      rw start at (
        copied one
          (copied pushed (push-Extends fresh t d proc hp element type grow, refl) second 0 m n
            (omega (arith, size)))
          first tag 0 m (omega (arith, size)))

  three-IsExtended : IsExtended three
  three-IsExtended = copied two two-IsExtended third payload (n + m) k (omega (arith, size))

  abbrev bytes : Array ℕ
  bytes = byte three.data_block

  three-byte :
      (a : ℕ)
      → bytes a ≡ (
          if leb (8 * pointer + (n + m)) a && ltb a (8 * pointer + (n + m) + k)
          then third (payload + (a - (8 * pointer + (n + m))))
          else byte two.data_block a)
  three-byte a = byte-fill two (8 * pointer + (n + m)) third payload k a

  two-byte :
      (a : ℕ)
      → byte two.data_block a ≡ (
          if leb (8 * pointer) a && ltb a (8 * pointer + m)
          then first (tag + (a - 8 * pointer))
          else byte one.data_block a)
  two-byte a = byte-fill one (8 * pointer) first tag m a

  one-byte :
      (a : ℕ)
      → byte one.data_block a ≡ (
          if leb (8 * pointer + m) a && ltb a (8 * pointer + m + n)
          then second (0 + (a - (8 * pointer + m)))
          else byte pushed.data_block a)
  one-byte a = byte-fill pushed (8 * pointer + m) second 0 n a

  head_lem : (i : ℕ) → i < m → bytes (8 * pointer + i) ≡ first (tag + i)
  head_lem i h = three-byte _ ∙ ground (arith, two-byte (8 * pointer + i))

  middle_lem : (i : ℕ) → i < n → bytes (8 * pointer + m + i) ≡ second (0 + i)
  middle_lem i h =
      three-byte _ ∙ ground (arith, two-byte (8 * pointer + m + i), one-byte (8 * pointer + m + i))

  tail_lem : (i : ℕ) → i < k → bytes (8 * pointer + m + n + i) ≡ third (payload + i)
  tail_lem i h = three-byte _ ∙ ground arith

  -- The parts are delivered one after the other.
  pub fill_three-Delivered :
      Delivered t proc element type
        (slice first tag m ++ (slice second 0 n ++ slice third payload k))
        three
  fill_three-Delivered =
      delivered fresh t d proc hp element type grow three
        (slice first tag m ++ (slice second 0 n ++ slice third payload k)) three-IsExtended.0
        three-IsExtended.1
        (ap (slice bytes (8 * pointer)) size
          ∙ slice_split bytes (8 * pointer) m (n + k)
          ∙ ap₂ ◌++◌ (slice_ext _ _ _ _ m head_lem) (
              slice_split bytes (8 * pointer + m) n k
              ∙ ap₂ ◌++◌ (slice_ext _ _ _ _ n middle_lem) (slice_ext _ _ _ _ k tail_lem)))
