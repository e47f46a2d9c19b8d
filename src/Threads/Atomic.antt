-- ===== src/Threads/Atomic.antt =====
-- Threads that run their operations between lock and unlock.
use mathlib.Core.Path.{subst}
use native.Mathlib.Decide.{ℕ_discrete}
use bsponmpi.Base.{
  ℕ, ◌≡◌, ◌≢◌, ◌∙◌, refl, sym, ap, arith, Bool, true, false, Option, none, some, Array, update,
  update_self, update_ne, List, [], ◌∷◌, ◌++◌, append-nil, ◌==◌,
}
use bsponmpi.Threads.{
  Op, Instr, ts_lock, ts_unlock, run, look, Thread, System, start, Step, take, leave, load, store,
  view, Reach, here, later, run_all,
}

-- The thread has the lock.
abbrev pub holds : Option ℕ → ℕ → Bool
holds none i = false
holds (some j) i = j == i

pub holds-some : (lock : Option ℕ) (i : ℕ) → holds lock i ≡ true → lock ≡ some i
holds-some none i h = absurd (ground arith)
holds-some (some j) i h = ap some (ground arith)

not_other : (i j : ℕ) → j ≢ i → holds (some i) j ≡ false
not_other i j ne = ground arith

pub own_holds : (i : ℕ) → holds (some i) i ≡ true
own_holds i = ground arith

no_both : {b c : Bool} → b ≡ c → b ≡ true → c ≡ false → ⊥
no_both e t f = ground (arith, e, t, f)

module _ {W : Type 0} where
  -- A program that locks before its operations and unlocks behind them, from outside or inside.
  abbrev pub IsGuarded : Bool → List (Instr W) → Type 0
  IsGuarded false [] = Unit
  IsGuarded false (ts_lock ∷ l) = IsGuarded true l
  IsGuarded false (ts_unlock ∷ l) = ⊥
  IsGuarded false (run op ∷ l) = ⊥
  IsGuarded false (look f ∷ l) = IsGuarded false l
  IsGuarded true [] = ⊥
  IsGuarded true (ts_lock ∷ l) = ⊥
  IsGuarded true (ts_unlock ∷ l) = IsGuarded false l
  IsGuarded true (run op ∷ l) = IsGuarded true l
  IsGuarded true (look f ∷ l) = IsGuarded true l

  -- What a guarded program needs for its first instruction.
  unlock_inside : (b : Bool) (l : List (Instr W)) → IsGuarded b (ts_unlock ∷ l) → b ≡ true
  unlock_inside true l g = refl
  unlock_inside false l g = absurd g

  run_inside : (b : Bool) (op : Op W) (l : List (Instr W)) → IsGuarded b (run op ∷ l) → b ≡ true
  run_inside true op l g = refl
  run_inside false op l g = absurd g

  look_anywhere :
      (b : Bool) (f : W → List ℕ) (l : List (Instr W)) → IsGuarded b (look f ∷ l) → IsGuarded b l
  look_anywhere true f l g = g
  look_anywhere false f l g = g

  abbrev runs : List (Instr W) → Bool
  runs [] = false
  runs (ts_lock ∷ l) = false
  runs (ts_unlock ∷ l) = false
  runs (run op ∷ l) = true
  runs (look f ∷ l) = false

  -- What holds of each thread: a loaded state is the present one, and the thread has the lock.
  pub record IsFresh (lock : Option ℕ) (state : W) (i : ℕ) (t : Thread W) : Type 0 where
    pub guarded : IsGuarded (holds lock i) t.todo
    pub fresh :
        (w : W) → t.loaded ≡ some w → (w ≡ state) × (holds lock i ≡ true) × (runs t.todo ≡ true)

  pub record Inv (first : W) (ops : List (Op W)) (s : System W) : Type 0 where
    pub state : s.state ≡ run_all ops first
    pub each : (i : ℕ) → IsFresh s.lock s.state i (s.threads i)

  run_all-append : (l m : List (Op W)) (w : W) → run_all (l ++ m) w ≡ run_all m (run_all l w)
  unfolding run_all
  run_all-append [] m w = refl
  run_all-append (op ∷ l) m w = run_all-append l m (op w).0

  -- A thread without the lock is not affected by what the others do.
  outside_lem :
      (lock lock' : Option ℕ) (state state' : W) (j : ℕ) (t : Thread W)
      → holds lock j ≡ false
      → holds lock' j ≡ false
      → IsFresh lock state j t
      → IsFresh lock' state' j t
  outside_lem lock lock' state state' j t out out' v = record {
    guarded = subst (λ b. IsGuarded b t.todo) (out ∙ sym out') v.guarded;
    fresh = λ w e. absurd (no_both out (v.fresh w e).1);
  }
    where
      no_both : {b : Bool} → b ≡ false → b ≡ true → ⊥
      no_both f t = ground (arith, f, t)

  -- Changing thread `i`.
  changed_lem :
      (threads : Array (Thread W)) (i : ℕ) (t : Thread W) (lock : Option ℕ) (state : W)
      → IsFresh lock state i t
      → ((j : ℕ) → j ≢ i → IsFresh lock state j (threads j))
      → (j : ℕ) → IsFresh lock state j (update threads i t j)
  changed_lem threads i t lock state own others j = elim (ℕ_discrete j i) [
    | yes same ↦
        subst (λ k. IsFresh lock state k (update threads i t k)) (sym same)
          (subst (IsFresh lock state i) (sym (update_self threads i t)) own)
    | no ne ↦ subst (IsFresh lock state j) (sym (update_ne threads i t j ne)) (others j ne)
  ]

  at : {b b' : Bool} {l l' : List (Instr W)} → b ≡ b' → l ≡ l' → IsGuarded b l → IsGuarded b' l'
  at {b} {b'} {l} e q g = subst (IsGuarded b') q (subst (λ c. IsGuarded c l) e g)

  -- The lock and the state of a thread that is between lock and unlock.
  module _ (s : System W) (i : ℕ) (inside : holds s.lock i ≡ true)
      (each : (j : ℕ) → IsFresh s.lock s.state j (s.threads j)) where
    mine : s.lock ≡ some i
    mine = holds-some s.lock i inside

    -- The other threads do not see a change of the state, nor the lock given back.
    others :
        (lock : Option ℕ) (state : W) (j : ℕ)
        → j ≢ i
        → holds lock j ≡ false
        → IsFresh lock state j (s.threads j)
    others lock state j ne out =
        outside_lem s.lock lock s.state state j (s.threads j)
          (ap (λ l. holds l j) mine ∙ not_other i j ne) out (each j)

  pub Step-Inv :
      (first : W) (ops : List (Op W)) (s : System W) (i : ℕ) (more : List (Op W)) (u : System W)
      → Inv first ops s
      → Step s i more u
      → Inv first (ops ++ more) u
  unfolding run_all
  Step-Inv first ops s i _ _ v (take {rest} e free) = record {
    state = v.state ∙ ap (λ l. run_all l first) (sym (append-nil ops));
    each =
        changed_lem s.threads i _ (some i) s.state
          (record {
            guarded = at {l = rest} (sym (own_holds i)) refl (
                at {b' = false} {l' = ts_lock ∷ rest} (ap (λ l. holds l i) free) e
                  (v.each i).guarded);
            fresh =
                λ w q. absurd (no_both refl ((v.each i).fresh w q).1 (ap (λ l. holds l i) free));
          })
          (λ j ne.
            outside_lem s.lock (some i) s.state s.state j (s.threads j) (ap (λ l. holds l j) free)
              (not_other i j ne) (v.each j));
  }
  Step-Inv first ops s i _ _ v (leave {rest} e) = record {
    state = v.state ∙ ap (λ l. run_all l first) (sym (append-nil ops));
    each =
        changed_lem s.threads i _ none s.state
          (record {
            guarded = at {b' = true} {l' = ts_unlock ∷ rest} inside e (v.each i).guarded;
            fresh = λ w q. absurd (no_both (ap runs e) ((v.each i).fresh w q).2 refl);
          })
          (λ j ne. others s i inside v.each none s.state j ne refl);
  }
    where
      inside : holds s.lock i ≡ true
      inside = unlock_inside (holds s.lock i) rest (at refl e (v.each i).guarded)
  Step-Inv first ops s i _ _ v (load {op} {rest} e unread) = record {
    state = v.state ∙ ap (λ l. run_all l first) (sym (append-nil ops));
    each =
        changed_lem s.threads i _ s.lock s.state
          (record {
            guarded = (v.each i).guarded;
            fresh = λ w q. (
              ground (arith, q),
              run_inside (holds s.lock i) op rest (at refl e (v.each i).guarded),
              ap runs e,
            );
          })
          (λ j ne. v.each j);
  }
  Step-Inv first ops s i _ _ v (store {op} {rest} {w} e got) = record {
    state =
        ap (λ x. (op x).0) (((v.each i).fresh w got).0 ∙ v.state)
        ∙ sym (run_all-append ops (op ∷ []) first);
    each =
        changed_lem s.threads i _ s.lock (op w).0
          (record {
            guarded =
                at {b = true} {b' = holds s.lock i} {l = rest} {l' = rest} (sym inside) refl
                  (at {b' = true} {l' = run op ∷ rest} inside e (v.each i).guarded);
            fresh = λ x q. absurd (ground (arith, q));
          })
          (λ j ne.
            others s i inside v.each s.lock (op w).0 j ne
              (ap (λ l. holds l j) (mine s i inside v.each) ∙ not_other i j ne));
  }
    where
      inside : holds s.lock i ≡ true
      inside = ((v.each i).fresh w got).1
  Step-Inv first ops s i _ _ v (view {f} {rest} e) = record {
    state = v.state ∙ ap (λ l. run_all l first) (sym (append-nil ops));
    each =
        changed_lem s.threads i _ s.lock s.state
          (record {
            guarded =
                look_anywhere (holds s.lock i) f rest
                  (at {l' = look f ∷ rest} refl e (v.each i).guarded);
            fresh = λ w q. absurd (no_both (ap runs e) ((v.each i).fresh w q).2 refl);
          })
          (λ j ne. v.each j);
  }

  pub start-Inv :
      (first : W) (programs : ℕ → List (Instr W))
      → ((i : ℕ) → IsGuarded false (programs i))
      → Inv first [] (start first programs)
  unfolding run_all
  start-Inv first programs guarded = record {
    state = refl;
    each = λ i. record { guarded = guarded i; fresh = λ w e. absurd (ground (arith, e)) };
  }

  pub Reach-Inv :
      (first : W) (programs : ℕ → List (Instr W)) (ops : List (Op W)) (s : System W)
      → ((i : ℕ) → IsGuarded false (programs i))
      → Reach (start first programs) ops s
      → Inv first ops s
  Reach-Inv first programs _ _ guarded here = start-Inv first programs guarded
  Reach-Inv first programs _ _ guarded (later {t} {u} {ops} {more} i r step) =
      Step-Inv first ops t i more u (Reach-Inv first programs ops t guarded r) step
