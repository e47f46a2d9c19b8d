-- ===== src/Fold/Result.antt =====
-- What bsp_fold returns.
use bsponmpi.Base.{
  ℕ, zero, suc, ◌+◌, ◌-◌, ◌*◌, ◌^◌, ◌≤◌, ◌<◌, ◌≡◌, ◌∙◌, refl, sym, ap, ap₂, arith, Array, update,
  update_self, update_ne, memcpy, slice, slice_ext, length, length-slice, List, [], ◌∷◌, ltb,
  Bool-cases, inl, inr, u32, widen, widen_lem,
}
use mathlib.Core.Path.{subst}
use bsponmpi.Exptable.Layout.{memcpy-at, memcpy-above, mul_mono}
use bsponmpi.Execute.Actions.{write_list}
use bsponmpi.Fold.{fold_loop, fold, block_at}

write_list-below :
    (memory : Array ℕ) (d : ℕ) (l : List ℕ) (k : ℕ) → k < d → write_list memory d l k ≡ memory k
unfolding write_list
write_list-below memory d [] k h = refl
write_list-below memory d (x ∷ l) k h =
    write_list-below (update memory d x) (d + 1) l k (omega arith)
    ∙ update_ne memory d x k (omega arith)

-- What is written is read again.
slice-write_list :
    (memory : Array ℕ) (d : ℕ) (l : List ℕ) → slice (write_list memory d l) d (length l) ≡ l
unfolding write_list
slice-write_list memory d [] = refl
slice-write_list memory d (x ∷ l) =
    let next : d + 1 ≡ suc d = omega arith in
    ap₂ ◌∷◌
      (write_list-below (update memory d x) (d + 1) l d (omega arith) ∙ update_self memory d x)
      (ap (λ k. slice (write_list memory d (x ∷ l)) k (length l)) (sym next)
        ∙ slice-write_list (update memory d x) (d + 1) l)

module _ (op : List ℕ → List ℕ → List ℕ) (block : ℕ → List ℕ) where
  -- The blocks up to that of processor `j`, combined from the left.
  unfoldable pub folded : ℕ → List ℕ
  folded zero = block 0
  folded (suc j) = op (folded j) (block (suc j))

  module _ (nbytes : ℕ)
      (sized : (l r : List ℕ) → length l ≡ nbytes → length r ≡ nbytes → length (op l r) ≡ nbytes)
      (alldata dst : Array ℕ) (procs : ℕ) (short : nbytes < 2 ^ 31) (fits : nbytes * procs < 2 ^ 31)
      (gathered : (p : ℕ) → p < procs → slice alldata (nbytes * p) nbytes ≡ block p) where
    at : (p : ℕ) → p < procs → block_at nbytes p ≡ nbytes * p
    at p h =
        let small = mul_mono nbytes p procs (omega (arith, h)) in
        let exact : u32 (nbytes * p) ≡ nbytes * p = omega (arith, small, fits) in
        ap widen exact ∙ widen_lem (nbytes * p) (omega (arith, small, fits))

    -- A round with numbers that do not wrap.
    abbrev next_round : ℕ → Array ℕ → Array ℕ → Array ℕ × Array ℕ
    next_round j before d =
        let d' =
          write_list d 0
            (op (slice before (nbytes * j) nbytes) (slice before (nbytes * (j + 1)) nbytes)) in
        (memcpy before (nbytes * (j + 1)) d' 0 nbytes, d')

    round_lem :
        (j : ℕ)
        → suc j < procs
        → let (before, d) = fold_loop j op nbytes alldata dst in
          fold_loop (suc j) op nbytes alldata dst ≡ next_round j before d
    unfolding fold_loop
    round_lem j h =
        rw (at j (omega (arith, h)), at (j + 1) (omega (arith, h)), widen_lem nbytes short) refl

    -- The state after `j` rounds.
    record IsFolded (j : ℕ) (before d : Array ℕ) : Type 0 where
      here : slice before (nbytes * j) nbytes ≡ folded j
      ahead : (p : ℕ) → j < p → p < procs → slice before (nbytes * p) nbytes ≡ block p
      result : 0 < j → slice d 0 nbytes ≡ folded j

    loop-IsFolded :
        (j : ℕ)
        → j < procs
        → let (before, d) = fold_loop j op nbytes alldata dst in IsFolded j before d
    unfolding fold_loop folded
    loop-IsFolded zero h = record {
      here = gathered 0 h;
      ahead = λ p l h'. gathered p h';
      result = λ l. absurd (omega arith);
    }
    loop-IsFolded (suc j) h =
        subst (λ s. IsFolded (suc j) s.0 s.1) (sym (round_lem j h))
          (let v = loop-IsFolded j (omega arith) in
            let (before, d) = fold_loop j op nbytes alldata dst in
            let here = slice before (nbytes * j) nbytes in
            let there = slice before (nbytes * (j + 1)) nbytes in
            let d' = write_list d 0 (op here there) in
            let next : j + 1 ≡ suc j = omega arith in
            let size =
              sized here there (length-slice before _ nbytes) (length-slice before _ nbytes) in
            let written : slice d' 0 nbytes ≡ op here there =
              ap (slice d' 0) (sym size) ∙ slice-write_list d 0 (op here there) in
            let value : op here there ≡ folded (suc j) =
              ap₂ op v.here (
                ap (λ n. slice before (nbytes * n) nbytes) next
                ∙ v.ahead (suc j) (omega arith) h) in
            record {
              here =
                  ap (λ n. slice (memcpy before (nbytes * (j + 1)) d' 0 nbytes) (nbytes * n) nbytes)
                    (sym next)
                  ∙ slice_ext (memcpy before (nbytes * (j + 1)) d' 0 nbytes) d' (nbytes * (j + 1)) 0
                      nbytes (λ k hk. memcpy-at before d' (nbytes * (j + 1)) 0 nbytes k hk)
                  ∙ written
                  ∙ value;
              ahead = λ p l h'.
                  slice_ext _ before (nbytes * p) (nbytes * p) nbytes (λ k hk.
                    memcpy-above before d' (nbytes * (j + 1)) 0 nbytes (nbytes * p + k)
                      (omega (arith, mul_mono nbytes (j + 2) p (omega arith))))
                  ∙ v.ahead p (omega arith) h';
              result = λ l. written ∙ value;
            })

-- For an operation that makes blocks of `nbytes` bytes of such blocks, where the bytes of one block
-- and those of all processors are less than 2^31, if the gathered data has the block of processor
-- `p` at its place for every processor, and a processor that is alone has its own block, the fold
-- leaves in the result block the blocks of all processors combined from the left in the order of
-- their ranks.
pub fold_lem :
    (op : List ℕ → List ℕ → List ℕ) (allgather : Array ℕ → ℕ → Array ℕ) (procs : ℕ)
    (src dst : Array ℕ) (nbytes : ℕ) (block : ℕ → List ℕ)
    → ((l r : List ℕ) → length l ≡ nbytes → length r ≡ nbytes → length (op l r) ≡ nbytes)
    → nbytes < 2 ^ 31
    → nbytes * procs < 2 ^ 31
    → ((p : ℕ) → p < procs → slice (allgather src nbytes) (nbytes * p) nbytes ≡ block p)
    → (procs ≤ 1 → slice src 0 nbytes ≡ block 0)
    → slice (fold op allgather procs src dst nbytes) 0 nbytes ≡ folded op block (procs - 1)
unfolding fold folded
fold_lem op allgather procs src dst nbytes block sized short fits gathered own =
    elim (Bool-cases (ltb 1 procs)) [
      | inl e ↦
          let v =
            loop-IsFolded op block nbytes sized (allgather src nbytes) dst procs short fits gathered
              (procs - 1) (ground arith) in
          rw e (v.result (ground arith))
      | inr e ↦
          let one : procs - 1 ≡ 0 = ground arith in
          rw (e, one, widen_lem nbytes short)
            (slice_ext _ src 0 0 nbytes (λ k hk. memcpy-at dst src 0 0 nbytes k hk)
              ∙ own (ground arith))
    ]
