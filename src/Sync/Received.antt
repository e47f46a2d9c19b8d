-- ===== src/Sync/Received.antt =====
-- The delivery table that arrives: in order, with the queues of what was sent.
use mathlib.Core.Path.{subst}
use native.Mathlib.Decide.{ℕ_discrete}
use bsponmpi.Base.{
  ℕ, zero, suc, ◌+◌, ◌*◌, ◌^◌, ◌≤◌, ◌<◌, ◌≡◌, ◌∙◌, refl, sym, ap, ap₂, arith, Array, update_self,
  update_ne, max_of, ltb, Bool-cases, inl, inr, if◌then◌else◌,
}
use bsponmpi.Exptable.{comm, cell}
use bsponmpi.Exptable.Layout.{IsValid, mul_mono}
use bsponmpi.Exptable.Comm.{Delivers, sends, comm-received}
use bsponmpi.Delivtable.{Slot, DeliveryTable, ItemType, aligned_size, reset, expand}
use bsponmpi.Delivtable.Index.{PointsTo}
use bsponmpi.Delivtable.Column.{queue, IsDelivery, SameColumn, same-IsColumn, same_queue}
use bsponmpi.Delivtable.Clear.{reset-IsDelivery, reset-size}
use bsponmpi.Delivtable.Room.{expand-IsDelivery, expand-shape}
use bsponmpi.Reqtable.{RequestTable}
use bsponmpi.Sync.{CommFn, expected, max_rows, set_delivery_counts, room_for_deliveries}

module _ (requests : RequestTable) (recv_index : Array ℕ) where
  max_rows-covers :
      (n p : ℕ) → p < n → expected requests recv_index p ≤ max_rows n requests recv_index
  unfolding max_rows
  max_rows-covers zero p h = absurd (omega arith)
  max_rows-covers (suc n) p h = elim (ℕ_discrete p n) [
    | yes e ↦ rw e (ground arith)
    | no ne ↦ let before = max_rows-covers n p (omega arith) in ground arith
  ]

  max_rows-le :
      (n bound : ℕ)
      → ((p : ℕ) → p < n → expected requests recv_index p ≤ bound)
      → max_rows n requests recv_index ≤ bound
  unfolding max_rows
  max_rows-le zero bound h = omega arith
  max_rows-le (suc n) bound h =
      let before = max_rows-le n bound (λ p q. h p (omega arith)) in
      let here = h n (omega arith) in ground arith

  counts-shape :
      (n : ℕ) (t : DeliveryTable)
      → set_delivery_counts n requests recv_index t ≡ record t {
        used_slot_count = (set_delivery_counts n requests recv_index t).used_slot_count;
      }
  unfolding set_delivery_counts
  counts-shape zero t = refl
  counts-shape (suc n) t =
      ap
        (λ (s : DeliveryTable). record s {
          used_slot_count = (set_delivery_counts (suc n) requests recv_index t).used_slot_count;
        })
        (counts-shape n t)

  counts-at :
      (n : ℕ) (t : DeliveryTable) (p : ℕ)
      → p < n
      → (set_delivery_counts n requests recv_index t).used_slot_count p
        ≡ expected requests recv_index p
  unfolding set_delivery_counts
  counts-at zero t p h = absurd (omega arith)
  counts-at (suc n) t p h = elim (ℕ_discrete p n) [
    | yes e ↦ rw e (update_self (set_delivery_counts n requests recv_index t).used_slot_count n _)
    | no ne ↦
        update_ne (set_delivery_counts n requests recv_index t).used_slot_count n _ p ne
        ∙ counts-at n t p (omega arith)
  ]

  module _ (fresh : Array Slot) (n : ℕ) (received incoming : DeliveryTable)
      (count : received.nprocs ≡ n) (d : IsDelivery received) (i : IsDelivery incoming)
      (one : 0 < n) (same : incoming.nprocs ≡ n)
      (announced : (p : ℕ) → p < n → expected requests recv_index p ≡ incoming.used_slot_count p)
      (room : n * (received.rows + incoming.rows) * aligned_size < 2 ^ 31) where
    -- A table that is ready to receive.
    record IsReady (t : DeliveryTable) : Type 0 where
      nprocs : t.nprocs ≡ n
      size : t.slot_size ≡ aligned_size
      rows : t.rows ≤ received.rows + incoming.rows
      enough : (p : ℕ) → p < n → incoming.used_slot_count p ≤ t.rows
      delivery : IsDelivery t

    abbrev most : ℕ
    most = max_rows n requests recv_index

    most_le : most ≤ incoming.rows
    most_le =
        max_rows-le n incoming.rows
          (λ p h. omega (arith, announced p h, i.valid.within p (omega arith)))

    abbrev cleared : DeliveryTable
    cleared = reset received

    abbrev grown : DeliveryTable
    grown = expand fresh cleared (max_of cleared.rows most)

    grown-IsReady : cleared.rows < most → IsReady grown
    grown-IsReady more =
        let (ordered, _, nprocs', rows) = reset-IsDelivery received d (omega (arith, count)) in
        let nprocs = nprocs' ∙ count in
        let whole : max_of cleared.rows most + cleared.rows ≤ received.rows + incoming.rows =
          ground (arith, rows, most_le) in
        let fits =
          mul_mono n (max_of cleared.rows most + cleared.rows) (received.rows + incoming.rows)
            whole in
        let some_column : 0 < cleared.nprocs = omega (arith, nprocs) in
        let small : cleared.nprocs * (max_of cleared.rows most + cleared.rows) * aligned_size
            < 2 ^ 31 =
          rw nprocs (omega (arith, fits, room)) in
        let (rows', nprocs2, used', size') =
          expand-shape fresh cleared ordered (max_of cleared.rows most) small some_column in
        record {
          nprocs = nprocs2 ∙ nprocs;
          size = size' ∙ reset-size received ∙ d.aligned;
          rows = omega (arith, rows', whole);
          enough = λ p h. ground (arith, rows', announced p h, max_rows-covers n p h);
          delivery =
              expand-IsDelivery fresh cleared ordered (max_of cleared.rows most) small some_column;
        }

    prepared-IsReady : IsReady (if ltb cleared.rows most then grown else cleared)
    prepared-IsReady = elim (Bool-cases (ltb cleared.rows most)) [
      | inl e ↦ rw e (grown-IsReady (ground arith))
      | inr e ↦
          let (ordered, _, nprocs', rows) = reset-IsDelivery received d (omega (arith, count)) in
          let nprocs = nprocs' ∙ count in
          rw e (record {
            nprocs = nprocs;
            size = reset-size received ∙ d.aligned;
            rows = omega (arith, rows);
            enough = λ p h. ground (arith, announced p h, max_rows-covers n p h);
            delivery = ordered;
          })
    ]

    abbrev table : DeliveryTable
    table = room_for_deliveries fresh requests recv_index n received

    -- The received table before the exchange.
    record IsWaiting (t : DeliveryTable) : Type 0 where
      nprocs : t.nprocs ≡ n
      size : t.slot_size ≡ aligned_size
      rows : t.rows ≤ received.rows + incoming.rows
      used : (p : ℕ) → p < n → t.used_slot_count p ≡ incoming.used_slot_count p
      points : (p : ℕ) → p < n → PointsTo t p
      valid : IsValid t

    waiting-IsWaiting :
        (t : DeliveryTable) → IsReady t → IsWaiting (set_delivery_counts n requests recv_index t)
    waiting-IsWaiting t v =
        let used = λ (p : ℕ) (h : p < n). counts-at n t p h ∙ announced p h in
        rw (counts-shape n t) (record {
          nprocs = v.nprocs;
          size = v.size;
          rows = v.rows;
          used = used;
          points = λ p h.
              let q : p < t.nprocs = omega (arith, h, v.nprocs) in
              let points = (v.delivery.columns p q).points in
              record { start = points.start; count = points.count; end_ = points.end_ };
          valid = record {
            has_rows = v.delivery.valid.has_rows;
            has_size = v.delivery.valid.has_size;
            fits = v.delivery.valid.fits;
            within = λ p h.
                let q : p < n = omega (arith, h, v.nprocs) in omega (arith, used p q, v.enough p q);
          };
        })

    table-IsWaiting : IsWaiting table
    unfolding room_for_deliveries
    table-IsWaiting = waiting-IsWaiting _ prepared-IsReady

    pub table_nprocs : table.nprocs ≡ n
    table_nprocs = table-IsWaiting.nprocs

    module _ (sent : DeliveryTable) (communicator : CommFn Slot)
        (delivers : Delivers n aligned_size
          (sends sent table communicator)
          incoming.used_slot_count
          (cell incoming)) where
      abbrev arrived : DeliveryTable
      arrived = (comm sent table communicator).1

      abbrev w : IsWaiting table
      w = table-IsWaiting

      whole :
          Delivers table.nprocs table.slot_size
            (sends sent table communicator)
            table.used_slot_count
            (cell incoming)
      whole block bytes offset rows small fits p j hp hj =
          let q : p < n = omega (arith, hp, w.nprocs) in
          delivers block bytes offset rows (rw (w.nprocs, w.size) at small)
            (λ k hk.
              let (b, o, u) = fits k (omega (arith, hk, w.nprocs)) in
              (
                b ∙ ap₂ ◌*◌ (w.used k hk) w.size,
                o ∙ ap (λ z. k * rows * z) w.size,
                omega (arith, u, w.used k hk),
              ))
            p j q (omega (arith, hj, w.used p q))

      got :
          (arrived ≡ record table {
            offset = arrived.offset;
            bytes = arrived.bytes;
            data_block = arrived.data_block;
          })
          × ((p j : ℕ)
              → p < table.nprocs
              → j < table.used_slot_count p
              → cell arrived p j ≡ cell incoming p j)
      got = comm-received sent table communicator w.valid (cell incoming) whole

      same_nprocs : arrived.nprocs ≡ n
      same_nprocs = ap (λ (t : DeliveryTable). t.nprocs) got.0 ∙ w.nprocs

      arrived-SameColumn : (p : ℕ) → p < n → SameColumn incoming arrived p
      arrived-SameColumn p h = record {
        used = ap (λ (t : DeliveryTable). t.used_slot_count p) got.0 ∙ w.used p h;
        cells = λ j hj. got.1 p j (omega (arith, h, w.nprocs)) (omega (arith, hj, w.used p h));
        points =
            let points = w.points p h in
            subst (λ t. PointsTo t p) (sym got.0)
              (record { start = points.start; count = points.count; end_ = points.end_ });
      }

      arrived-IsValid : IsValid arrived
      arrived-IsValid =
          let v = w.valid in
          subst IsValid (sym got.0) (record {
            has_rows = v.has_rows;
            has_size = v.has_size;
            fits = v.fits;
            within = v.within;
          })

      pub received_lem :
          IsDelivery arrived
          × (arrived.nprocs ≡ n)
          × ((p : ℕ) (type : ItemType) → p < n → queue arrived p type ≡ queue incoming p type)
      received_lem = (
        record {
          valid = arrived-IsValid;
          aligned = ap (λ (t : DeliveryTable). t.slot_size) got.0 ∙ w.size;
          columns = λ p h.
              let q : p < n = omega (arith, h, same_nprocs) in
              same-IsColumn incoming arrived p (i.columns p (omega (arith, q, same)))
                (arrived-SameColumn p q);
        },
        same_nprocs,
        λ p type h.
            same_queue incoming arrived p (i.columns p (omega (arith, h, same)))
              (arrived-SameColumn p h) type,
      )
