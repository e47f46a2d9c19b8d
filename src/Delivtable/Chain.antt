-- ===== src/Delivtable/Chain.antt =====
-- Linked lists by relative `next` fields, as the index of a column describes them.
use native.Mathlib.Decide.{ℕ_discrete}
use bsponmpi.Base.{
  ℕ, zero, suc, ◌+◌, ◌-◌, ◌≤◌, ◌<◌, ◌≡◌, ◌≢◌, ◌∙◌, refl, sym, ap, ap₂, arith, Array, List, ◌⊎◌, inl,
  inr, ◌==◌, if◌then◌else◌, [], ◌∷◌, ◌++◌, length,
}

-- Where `i` steps of `pointer += element->next` lead from `s`.
unfoldable pub hop : Array ℕ → ℕ → ℕ → ℕ
hop next s zero = s
hop next s (suc i) = hop next (s + next s) i

-- The elements that a loop of `n` rounds visits.
unfoldable pub positions : Array ℕ → ℕ → ℕ → List ℕ
positions next s zero = []
positions next s (suc n) = s ∷ positions next (s + next s) n

pub length-positions : (next : Array ℕ) (s n : ℕ) → length (positions next s n) ≡ n
unfolding positions
length-positions next s zero = refl
length-positions next s (suc n) = ap suc (length-positions next (s + next s) n)

pub hop-suc : (next : Array ℕ) (s i : ℕ) → hop next s (suc i) ≡ hop next s i + next (hop next s i)
unfolding hop
hop-suc next s zero = refl
hop-suc next s (suc i) = hop-suc next (s + next s) i

pub positions-suc :
    (next : Array ℕ) (s n : ℕ) → positions next s (suc n) ≡ positions next s n ++ hop next s n ∷ []
unfolding positions hop
positions-suc next s zero = refl
positions-suc next s (suc n) = ap (◌∷◌ s) (positions-suc next (s + next s) n)

-- Only the `next` fields of the elements before the last one matter.
pub hop_ext :
    (next next' : Array ℕ) (s n : ℕ)
    → ((i : ℕ) → i < n → next' (hop next s i) ≡ next (hop next s i))
    → (i : ℕ) → i ≤ n
    → hop next' s i ≡ hop next s i
unfolding hop
hop_ext next next' s n h zero le = refl
hop_ext next next' s n h (suc i) le =
    hop-suc next' s i
    ∙ ap (λ p. p + next' p) (hop_ext next next' s n h i (omega arith))
    ∙ ap (λ d. hop next s i + d) (h i le)
    ∙ sym (hop-suc next s i)

pub positions_ext :
    (next next' : Array ℕ) (s n : ℕ)
    → ((i : ℕ) → suc i < n → next' (hop next s i) ≡ next (hop next s i))
    → positions next' s n ≡ positions next s n
unfolding positions hop
positions_ext next next' s zero h = refl
positions_ext next next' s (suc zero) h = refl
positions_ext next next' s (suc (suc n)) h = ap (◌∷◌ s) (
    ap (λ d. positions next' (s + d) (suc n)) (h 0 (omega arith))
    ∙ positions_ext next next' (s + next s) (suc n) (λ i p. h (suc i) (omega arith)))

-- The list of `count` elements from `start` to `end` lies behind the index and below `used`, an
-- element at `p` takes `extent p` slots, and the elements stand in the order of the list.
pub record IsChain (next extent : Array ℕ) (low used start count end_ : ℕ) : Type 0 where
  pub above : (i : ℕ) → i < count → low ≤ hop next start i
  pub inside : (i : ℕ) → i < count → hop next start i + extent (hop next start i) ≤ used
  pub last : (i : ℕ) → suc i ≡ count → hop next start i ≡ end_
  pub rising : (i j : ℕ) → i < j → j < count → hop next start i < hop next start j

-- A list is no longer than its column.
pub count-le :
    {next extent : Array ℕ} {low used start count end_ : ℕ}
    → IsChain next extent low used start count end_
    → (i : ℕ) → i < count
    → low + i ≤ hop next start i
count-le c zero h = omega (arith, c.above 0 h)
count-le c (suc i) h = omega (arith, count-le c i (omega arith), c.rising i (suc i) (omega arith) h)

pub IsChain-empty :
    (next extent : Array ℕ) (low used start end_ : ℕ) → IsChain next extent low used start 0 end_
IsChain-empty next extent low used start end_ = record {
  above = λ i p. absurd (omega arith);
  inside = λ i p. absurd (omega arith);
  last = λ i p. absurd (omega arith);
  rising = λ i j p q. absurd (omega arith);
}

module _ {next extent : Array ℕ} {low used start count end_ : ℕ}
    (c : IsChain next extent low used start count end_) (next' extent' : Array ℕ) (used' : ℕ)
    (long : (p : ℕ) → 0 < extent p) (more : used ≤ used')
    (same_extent : (p : ℕ) → low ≤ p → p < used → extent' p ≡ extent p) where
  below : (i : ℕ) → i < count → hop next start i < used
  below i p = omega (arith, c.inside i p, long (hop next start i))

  -- A list is a list in the new column if its elements stand where they stood.
  same_hops :
      ((i : ℕ) → i < count → hop next' start i ≡ hop next start i)
      → IsChain next' extent' low used' start count end_
  same_hops h = record {
    above = λ i p. rw (h i p) (c.above i p);
    inside = λ i p.
        rw (h i p)
          (omega (arith, c.inside i p, same_extent (hop next start i) (c.above i p) (below i p)));
    last = λ i p. h i (omega arith) ∙ c.last i p;
    rising = λ i j p q. rw (h i (omega arith), h j q) (c.rising i j p q);
  }

  -- A list none of whose elements was relinked is unchanged.
  module _ (kept : (i : ℕ) → i < count → next' (hop next start i) ≡ next (hop next start i)) where
    pub hop_kept : (i : ℕ) → i < count → hop next' start i ≡ hop next start i
    hop_kept i p = hop_ext next next' start count kept i (omega arith)

    pub positions_kept : positions next' start count ≡ positions next start count
    positions_kept = positions_ext next next' start count (λ i p. kept i (omega arith))

    pub IsChain-kept : IsChain next' extent' low used' start count end_
    IsChain-kept = same_hops hop_kept

  -- A list whose last element was linked to `used` goes on there.
  module _ (others : (p : ℕ) → low ≤ p → p < used → p ≢ end_ → next' p ≡ next p)
      (linked : 0 < count → next' end_ ≡ used - end_) where
    grown_before : (i : ℕ) → suc i < count → next' (hop next start i) ≡ next (hop next start i)
    grown_before i p = others (hop next start i) (c.above i (omega arith)) (below i (omega arith)) (
        omega (
          arith,
          c.rising i (count - 1) (omega arith) (omega arith),
          c.last (count - 1) (omega arith),
        ))

    pub hop_grown : (i : ℕ) → i < count → hop next' start i ≡ hop next start i
    hop_grown i p =
        hop_ext next next' start (count - 1) (λ j q. grown_before j (omega arith)) i (omega arith)

    hop_new_at : (k : ℕ) → suc k ≡ count → hop next' start (suc k) ≡ used
    hop_new_at k e =
        let at_end : hop next' start k ≡ end_ = hop_grown k (omega arith) ∙ c.last k e in
        hop-suc next' start k
        ∙ ap (λ p. p + next' p) at_end
        ∙ omega (arith, linked (omega arith), c.last k e, below k (omega arith))

    pub hop_new : 0 < count → hop next' start count ≡ used
    hop_new p =
        let e : suc (count - 1) ≡ count = omega arith in
        ap (hop next' start) (sym e) ∙ hop_new_at (count - 1) e

    -- The first element of the list after the new one was added.
    abbrev start' : ℕ
    start' = if count == 0 then used else start

    pub hop_start' : (i : ℕ) → i < count → hop next' start' i ≡ hop next start i
    hop_start' i p =
        let old : start' ≡ start = ground arith in ap (λ s. hop next' s i) old ∙ hop_grown i p

    pub hop-start'_new : hop next' start' count ≡ used
    unfolding hop
    hop-start'_new = elim (ℕ_discrete count 0) [
      | yes e ↦ rw e refl
      | no ne ↦
          let old : start' ≡ start = ground arith in
          ap (λ s. hop next' s count) old ∙ hop_new (omega arith)
    ]

    -- Adding an element appends its place to the places that a loop over the list visits.
    pub positions_grown :
        positions next' start' (suc count) ≡ positions next start count ++ used ∷ []
    unfolding positions
    positions_grown = elim (ℕ_discrete count 0) [
      | yes e ↦ rw e refl
      | no ne ↦
          let old : start' ≡ start = ground arith in
          ap (λ s. positions next' s (suc count)) old
          ∙ positions-suc next' start count
          ∙ ap₂ (λ l p. l ++ p ∷ []) (positions_ext next next' start count grown_before)
              (hop_new (omega arith))
    ]

    hop_place :
        (i : ℕ)
        → i < suc count
        → ((i < count) × (hop next' start' i ≡ hop next start i))
          ⊎ ((i ≡ count) × (hop next' start' i ≡ used))
    hop_place i p = elim (ℕ_discrete i count) [
      | yes e ↦ inr (e, ap (hop next' start') e ∙ hop-start'_new)
      | no ne ↦ inl (omega arith, hop_start' i (omega arith))
    ]

    pub IsChain-grown :
        low ≤ used
        → used + extent' used ≤ used'
        → IsChain next' extent' low used' start' (suc count) used
    IsChain-grown l u = record {
      above = λ i p. elim (hop_place i p) [ inl (q, e) ↦ rw e (c.above i q) | inr (q, e) ↦ rw e l ];
      inside = λ i p. elim (hop_place i p) [
        | inl (q, e) ↦
            rw e (
              omega (arith, c.inside i q, same_extent (hop next start i) (c.above i q) (below i q)))
        | inr (q, e) ↦ rw e u
      ];
      last = λ i p. ap (hop next' start') (omega arith) ∙ hop-start'_new;
      rising = λ i j p q. elim (hop_place j q) [
        | inl (r, e) ↦ rw (e, hop_start' i (omega arith)) (c.rising i j p r)
        | inr (r, e) ↦ rw (e, hop_start' i (omega arith)) (below i (omega arith))
      ];
    }
