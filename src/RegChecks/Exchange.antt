-- ===== src/RegChecks/Exchange.antt =====
-- src/bsp_cpp/bsp_contextimpl_memreg.cpp: the exchange of the requests before they are checked.
-- Each node sends the requests of all its processes to every node: `count` of them for each of the
-- `ppn` processes that a node can have.
use native.Mathlib.Decide.{ℕ_discrete}
use native.Mathlib.Nat.{mul_assoc}
use bsponmpi.Base.{
  ℕ, zero, suc, ◌+◌, ◌*◌, ◌≤◌, ◌<◌, ◌≡◌, ◌≢◌, ◌∙◌, refl, ap, arith, ◌⊎◌, inl, inr, Array, update,
  update_self, update_ne, slice, List, [], ◌∷◌,
}
use bsponmpi.Exptable.Layout.{mul_mono, columns_apart}
use bsponmpi.TaskMapper.{TaskMapper, global_to_node, global_to_local}
use bsponmpi.RegChecks.{RegRequest, request_at}

-- The loop over the nodes below `nodes`, for one request.
unfoldable pub put_request : ℕ → ℕ → ℕ → ℕ → RegRequest → Array RegRequest → Array RegRequest
put_request zero count ppn at r vs = vs
put_request (suc p) count ppn at r vs =
    update (put_request p count ppn at r vs) (at + p * count * ppn) r

-- The loop that takes the requests of a process from its queue.
unfoldable pub put_requests : List RegRequest → ℕ → ℕ → ℕ → ℕ → Array RegRequest → Array RegRequest
unfolding put_request
put_requests [] nodes count ppn at vs = vs
put_requests (r ∷ l) nodes count ppn at vs =
    put_requests l nodes count ppn (at + 1) (put_request nodes count ppn at r vs)

-- The loop over the processes of the node below `lps`, with their queues.
unfoldable pub fill_requests :
    ℕ → Array (List RegRequest) → ℕ → ℕ → ℕ → Array RegRequest → Array RegRequest
unfolding put_requests
fill_requests zero queues nodes count ppn vs = vs
fill_requests (suc lp) queues nodes count ppn vs =
    put_requests (queues lp) nodes count ppn (lp * count)
      (fill_requests lp queues nodes count ppn vs)

module _ (nodes count ppn : ℕ) where
  -- Place `c` of the part for node `p`.
  abbrev place : ℕ → ℕ → ℕ
  place p c = c + p * count * ppn

  places_apart : (p q c a : ℕ) → c < count * ppn → a < count * ppn → c ≢ a → place p c ≢ place q a
  places_apart p q c a hc ha ne =
      let at_p = mul_assoc p count ppn in
      let at_q = mul_assoc q count ppn in
      elim (ℕ_discrete p q) [
        | yes e ↦ rw e (ground arith)
        | no other ↦ ground (arith, at_p, at_q, columns_apart (count * ppn) p q c a hc ha other)
      ]

  put_request-hit :
      (n : ℕ) (at : ℕ) (r : RegRequest) (vs : Array RegRequest) (p : ℕ)
      → p < n
      → put_request n count ppn at r vs (place p at) ≡ r
  unfolding put_request
  put_request-hit zero at r vs p h = absurd (omega (arith, h))
  put_request-hit (suc n) at r vs p h = elim (ℕ_discrete (place p at) (place n at)) [
    | yes e ↦
        ap (update (put_request n count ppn at r vs) (place n at) r) e
        ∙ update_self (put_request n count ppn at r vs) (place n at) r
    | no ne ↦
        update_ne (put_request n count ppn at r vs) (place n at) r (place p at) ne
        ∙ put_request-hit n at r vs p (ground (arith, ne))
  ]

  put_request-miss :
      (n : ℕ) (at : ℕ) (r : RegRequest) (vs : Array RegRequest) (p c : ℕ)
      → c < count * ppn
      → at < count * ppn
      → c ≢ at
      → put_request n count ppn at r vs (place p c) ≡ vs (place p c)
  unfolding put_request
  put_request-miss zero at r vs p c hc ha ne = refl
  put_request-miss (suc n) at r vs p c hc ha ne =
      update_ne (put_request n count ppn at r vs) (place n at) r (place p c)
        (places_apart p n c at hc ha ne)
      ∙ put_request-miss n at r vs p c hc ha ne

  -- The requests `a (s)`, …, `a (s + n - 1)`, put from place `at` on.
  put_requests-miss :
      (a : Array RegRequest) (s n at : ℕ) (vs : Array RegRequest) (p c : ℕ)
      → at + n ≤ count * ppn
      → c < count * ppn
      → (c < at) ⊎ (at + n ≤ c)
      → put_requests (slice a s n) nodes count ppn at vs (place p c) ≡ vs (place p c)
  unfolding put_requests
  put_requests-miss a s zero at vs p c room hc out = refl
  put_requests-miss a s (suc n) at vs p c room hc out =
      put_requests-miss a (suc s) n (at + 1) (put_request nodes count ppn at (a s) vs) p c
        (omega (arith, room)) hc (beyond out)
      ∙ put_request-miss nodes at (a s) vs p c hc (omega (arith, room)) (ground (arith, out))
    where
      beyond : (c < at) ⊎ (at + suc n ≤ c) → (c < at + 1) ⊎ (at + 1 + n ≤ c)
      beyond (inl h) = inl (omega (arith, h))
      beyond (inr h) = inr (omega (arith, h))

  put_requests-hit :
      (a : Array RegRequest) (s n at : ℕ) (vs : Array RegRequest) (p k : ℕ)
      → at + n ≤ count * ppn
      → k < n
      → p < nodes
      → put_requests (slice a s n) nodes count ppn at vs (place p (at + k)) ≡ a (s + k)
  unfolding put_requests
  put_requests-hit a s zero at vs p k room hk hp = absurd (omega (arith, hk))
  put_requests-hit a s (suc n) at vs p zero room hk hp =
      let here : at + 0 ≡ at = omega arith in
      let first : s + 0 ≡ s = omega arith in
      rw (here, first)
        (put_requests-miss a (suc s) n (at + 1) (put_request nodes count ppn at (a s) vs) p at
            (omega (arith, room)) (omega (arith, room)) (inl (omega arith))
          ∙ put_request-hit nodes at (a s) vs p hp)
  put_requests-hit a s (suc n) at vs p (suc k) room hk hp =
      let next : at + suc k ≡ at + 1 + k = omega arith in
      let then : s + suc k ≡ suc s + k = omega arith in
      rw (next, then)
        (put_requests-hit a (suc s) n (at + 1) (put_request nodes count ppn at (a s) vs) p k
          (omega (arith, room)) (omega (arith, hk)) hp)

  module _ (requests : ℕ → Array RegRequest) (queues : Array (List RegRequest))
      (vs : Array RegRequest) where
    fill_requests_lem :
        (m : ℕ)
        → m ≤ ppn
        → ((lp : ℕ) → lp < m → queues lp ≡ slice (requests lp) 0 count)
        → (lp k p : ℕ) → lp < m
        → k < count
        → p < nodes
        → fill_requests m queues nodes count ppn vs (place p (lp * count + k)) ≡ requests lp k
    unfolding fill_requests
    fill_requests_lem zero room q lp k p hlp hk hp = absurd (omega (arith, hlp))
    fill_requests_lem (suc m) room q lp k p hlp hk hp =
        let before = fill_requests m queues nodes count ppn vs in
        let own = q m (omega arith) in
        let fits : m * count + count ≤ count * ppn =
          grind (arith, mul_mono count (suc m) ppn room) in
        ap (λ l. put_requests l nodes count ppn (m * count) before (place p (lp * count + k))) own
        ∙ elim (ℕ_discrete lp m) [
          | yes e ↦ rw e (
              put_requests-hit (requests m) 0 count (m * count) before p k fits hk hp
              ∙ ap (requests m) (omega arith))
          | no ne ↦
              let below : lp * count + count ≤ m * count =
                grind (arith, mul_mono count (suc lp) m (omega (arith, hlp, ne))) in
              put_requests-miss (requests m) 0 count (m * count) before p (lp * count + k) fits
                (omega (arith, below, fits, hk)) (inl (omega (arith, below, hk)))
              ∙ fill_requests_lem m (omega (arith, room)) (λ i h. q i (omega (arith, h))) lp k p
                  (omega (arith, hlp, ne)) hk hp
        ]

-- After the exchange, the request of a process that the checks read is the one that it made.
pub exchange_lem :
    (mapper : TaskMapper) (nodes me count ppn : ℕ) (requests : ℕ → ℕ → Array RegRequest)
    (here : Array ℕ) (queues : ℕ → Array (List RegRequest)) (fresh : ℕ → Array RegRequest)
    (received : Array RegRequest)
    → ((n lp : ℕ) → n < nodes → lp < here n → queues n lp ≡ slice (requests n lp) 0 count)
    → ((n : ℕ) → n < nodes → here n ≤ ppn)
    → me < nodes
    → ((n c : ℕ)
        → n < nodes
        → c < count * ppn
        → received (n * count * ppn + c)
          ≡ fill_requests (here n) (queues n) nodes count ppn (fresh n) (me * count * ppn + c))
    → (req gp : ℕ) → req < count
    → global_to_node mapper gp < nodes
    → global_to_local mapper gp < here (global_to_node mapper gp)
    → request_at mapper received ppn count req gp
      ≡ requests (global_to_node mapper gp) (global_to_local mapper gp) req
unfolding request_at
exchange_lem mapper nodes me count ppn requests here queues fresh received queued few hme delivered
      req gp hreq hn hlp =
    let n = global_to_node mapper gp in
    let lp = global_to_local mapper gp in
    let fits : lp * count + count ≤ count * ppn =
      grind (arith, mul_mono count (suc lp) ppn (omega (arith, hlp, few n hn))) in
    ap received (omega arith)
    ∙ delivered n (lp * count + req) hn (omega (arith, fits, hreq))
    ∙ ap (fill_requests (here n) (queues n) nodes count ppn (fresh n)) (omega arith)
    ∙ fill_requests_lem nodes count ppn (requests n) (queues n) (fresh n) (here n) (few n hn)
        (λ i h. queued n i hn h) lp req me hlp hreq hme
