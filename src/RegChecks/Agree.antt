-- ===== src/RegChecks/Agree.antt =====
-- The checks of a round pass if and only if all requests agree.
use mathlib.Core.Path.{subst}
use native.Mathlib.Decide.{ℕ_discrete}
use bsponmpi.Base.{
  ℕ, zero, suc, ◌-◌, ◌<◌, ◌≡◌, ◌∙◌, ◌⊎◌, inl, inr, refl, ap, arith, Bool, true, false, ◌&&◌,
  Bool-cases, none, some, Array, update, update_self, update_ne, ◌==◌, if◌then◌else◌,
}
use bsponmpi.TaskMapper.{TaskMapper}
use bsponmpi.RegChecks.{
  RegRequest, RegError, sequence_mismatch, size_mismatch, push_pop_mismatch, Checked, done, throws,
  ◌>>>◌, unset, Round, same_kind, check_serial, check_size, check_kind, check_one, check_all,
  request_at, check_round,
}

abbrev pub agrees : RegRequest → RegRequest → Bool
agrees a b = (a.serial == b.serial) && ((a.size == b.size) && same_kind b.is_push a.is_push)

-- The first of the three checks that fails.
abbrev pub mismatch : RegRequest → RegRequest → RegError
mismatch a b =
    if a.serial == b.serial
    then if a.size == b.size then push_pop_mismatch else size_mismatch
    else sequence_mismatch

same_kind_self : (b : Bool) → same_kind b b ≡ true
same_kind_self true = refl
same_kind_self false = refl

module _ (requests : Array RegRequest) where
  abbrev a : RegRequest
  a = requests 0

  -- The variables after the processes below `n` agreed.
  pub record IsAgreed (n : ℕ) (s : Round) : Type 0 where
    pub serial : s.serial ≡ a.serial
    pub size : s.size ≡ a.size
    pub kind : s.push_or_pop ≡ some a.is_push
    pub pointers : (p : ℕ) → p < n → s.pointers p ≡ (requests p).address

  module _ (no_serial : a.serial < unset) (no_size : a.size < unset) where
    module _ (n : ℕ) (s : Round) (v : IsAgreed n s) where
      abbrev r : RegRequest
      r = requests n

      serial_lem :
          check_serial r s ≡ (if a.serial == r.serial then done s else throws sequence_mismatch)
      unfolding check_serial
      serial_lem =
          let set : (s.serial == unset) ≡ false = ground (arith, v.serial) in
          rw (set, v.serial) refl

      size_lem : check_size r s ≡ (if a.size == r.size then done s else throws size_mismatch)
      unfolding check_size
      size_lem =
          let set : (s.size == unset) ≡ false = ground (arith, v.size) in rw (set, v.size) refl

      kind_lem :
          check_kind r s
          ≡ (if same_kind r.is_push a.is_push then done s else throws push_pop_mismatch)
      unfolding check_kind
      kind_lem = rw v.kind refl

      abbrev saved : Round
      saved = record s { pointers = update s.pointers n r.address }

      saved-IsAgreed : IsAgreed (suc n) saved
      saved-IsAgreed = record {
        serial = v.serial;
        size = v.size;
        kind = v.kind;
        pointers = λ p h. elim (ℕ_discrete p n) [
          | yes e ↦ rw e (update_self s.pointers n _)
          | no ne ↦ update_ne s.pointers n _ p ne ∙ v.pointers p (omega arith)
        ];
      }

      abbrev save : Round → Checked Round
      save s' = done (record s' { pointers = update s'.pointers n r.address })

      -- The three checks, of which the first that fails decides.
      one_lem : check_one n r s ≡ (if agrees a r then done saved else throws (mismatch a r))
      unfolding check_one
      one_lem = elim (Bool-cases (a.serial == r.serial)) [
        | inr e ↦
            ap (λ c. c >>> check_size r >>> check_kind r >>> save) (rw e at serial_lem) ∙ rw e refl
        | inl e ↦
            ap (λ c. c >>> check_size r >>> check_kind r >>> save) (rw e at serial_lem)
            ∙ elim (Bool-cases (a.size == r.size)) [
              | inr f ↦ ap (λ c. c >>> check_kind r >>> save) (rw f at size_lem) ∙ rw (e, f) refl
              | inl f ↦
                  ap (λ c. c >>> check_kind r >>> save) (rw f at size_lem)
                  ∙ ap (λ c. c >>> save) kind_lem
                  ∙ elim (Bool-cases (same_kind r.is_push a.is_push)) [
                    | inl g ↦ rw (e, f, g) refl
                    | inr g ↦ rw (e, f, g) refl
                  ]
            ]
      ]

    -- The first `n` requests agree with the first of all, and the checks of them pass.
    abbrev Passes : ℕ → Round → Type 0
    Passes n start =
        ((p : ℕ) → p < n → agrees a (requests p) ≡ true)
        × (s : Round) × (check_all n requests start ≡ done s)
        × IsAgreed n s

    -- Process `q` is the first that does not agree, and the checks fail on it.
    abbrev Fails : ℕ → Round → Type 0
    Fails n start =
        (q : ℕ) × (q < n)
        × (agrees a (requests q) ≡ false)
        × ((p : ℕ) → p < q → agrees a (requests p) ≡ true)
        × (check_all n requests start ≡ throws (mismatch a (requests q)))

    later : (n : ℕ) (start : Round) → Passes n start → Passes (suc n) start ⊎ Fails (suc n) start
    unfolding check_all
    later n start (before, s, run, v) = elim (Bool-cases (agrees a (requests n))) [
      | inl e ↦ inl (
        λ p h. elim (ℕ_discrete p n) [ yes same ↦ rw same e | no ne ↦ before p (omega arith) ],
        saved n s v,
        ap (λ c. c >>> check_one n (requests n)) run ∙ (rw e at (one_lem n s v)),
        saved-IsAgreed n s v,
      )
      | inr e ↦ inr (
        n,
        omega arith,
        e,
        before,
        ap (λ c. c >>> check_one n (requests n)) run ∙ (rw e at (one_lem n s v)),
      )
    ]

    all_lem : (n : ℕ) (start : Round) → Passes 1 start → Passes (suc n) start ⊎ Fails (suc n) start
    unfolding check_all
    all_lem zero start h = inl h
    all_lem (suc n) start h = elim (all_lem n start h) [
      | inl passes ↦ later (suc n) start passes
      | inr (q, low, wrong, before, run) ↦
          inr (
            q,
            omega arith,
            wrong,
            before,
            ap (λ c. c >>> check_one (suc n) (requests (suc n))) run,
          )
    ]

    -- The first request sets the variables.
    first_lem :
        (fresh : Array ℕ)
        → Passes 1 (record { serial = unset; size = unset; push_or_pop = none; pointers = fresh })
    unfolding check_all check_one check_serial check_size check_kind
    first_lem fresh = (
      λ p h.
          let only : p ≡ 0 = omega arith in
          let kind = same_kind_self a.is_push in rw only (ground (arith, kind)),
      record {
        serial = a.serial;
        size = a.size;
        push_or_pop = some a.is_push;
        pointers = update fresh 0 a.address;
      },
      refl,
      record {
        serial = refl;
        size = refl;
        kind = refl;
        pointers = λ p h. let only : p ≡ 0 = omega arith in rw only (update_self fresh 0 a.address);
      },
    )

-- In a round of requests of at least one process, whose first request has a size and a serial
-- number that are not the largest `size_t`, either all requests agree with the first in serial
-- number, size and kind, and the checks pass with its values and with the address of each process;
-- or there is a first process whose request does not agree, and the checks throw the error of the
-- first of the three that differs.
pub round_lem :
    (mapper : TaskMapper) (received : Array RegRequest) (ppn count req : ℕ) (fresh : Array ℕ)
    → let requests = request_at mapper received ppn count req in
      let outcome = check_round mapper received ppn count req fresh in
      0 < mapper.processors
      → (requests 0).serial < unset
      → (requests 0).size < unset
      → (((p : ℕ) → p < mapper.processors → agrees (requests 0) (requests p) ≡ true)
          × (s : Round) × (outcome ≡ done s)
          × IsAgreed requests mapper.processors s)
        ⊎ ((q : ℕ) × (q < mapper.processors)
            × (agrees (requests 0) (requests q) ≡ false)
            × ((p : ℕ) → p < q → agrees (requests 0) (requests p) ≡ true)
            × (outcome ≡ throws (mismatch (requests 0) (requests q))))
unfolding check_round
round_lem mapper received ppn count req fresh some_process no_serial no_size =
    let requests = request_at mapper received ppn count req in
    let all : suc (mapper.processors - 1) ≡ mapper.processors = omega arith in
    let start : Round = record {
      serial = unset;
      size = unset;
      push_or_pop = none;
      pointers = fresh;
    } in
    subst
      (λ n. Passes requests no_serial no_size n start ⊎ Fails requests no_serial no_size n start)
      all
      (all_lem requests no_serial no_size (mapper.processors - 1) start
        (first_lem requests no_serial no_size fresh))
