-- ===== src/Threads/Safety.antt =====
-- What guarded threads are promised: no update is lost, and some thread can always go on.
use mathlib.Core.Path.{subst}
use bsponmpi.Base.{
  ◌==◌, if◌then◌else◌, ℕ, ◌≡◌, ◌≢◌, refl, true, false, Option, none, some, List, [], ◌∷◌,
}
use bsponmpi.Threads.{
  Op, Instr, ts_lock, ts_unlock, run, look, System, start, Step, unlocked, take, leave, load, store,
  view, Reach, here, later, run_all,
}
use bsponmpi.Threads.Atomic.{holds, holds-some, own_holds, IsGuarded, Inv, Reach-Inv}

module _ {W : Type 0} (first : W) (programs : ℕ → List (Instr W)) (ops : List (Op W)) (s : System W)
    (guarded : (i : ℕ) → IsGuarded false (programs i))
    (r : Reach (start first programs) ops s) where
  inv : Inv first ops s
  inv = Reach-Inv first programs ops s guarded r

  -- The state is what the completed operations make of the first one in their order, and only the
  -- thread that has the lock has loaded it.
  pub atomic_lem :
      (s.state ≡ run_all ops first)
      × ((i : ℕ) (w : W) → (s.threads i).loaded ≡ some w → (w ≡ s.state) × (s.lock ≡ some i))
  atomic_lem = (
    inv.state,
    λ i w e. let (same, inside, _) = (inv.each i).fresh w e in (same, holds-some s.lock i inside),
  )

  abbrev Move : Type 0
  Move = (j : ℕ) × (more : List (Op W)) × (u : System W) × Step s j more u

  inside_can : (j : ℕ) (l : List (Instr W)) → (s.threads j).todo ≡ l → IsGuarded true l → Move
  inside_can j [] e g = absurd g
  inside_can j (ts_lock ∷ l) e g = absurd g
  inside_can j (ts_unlock ∷ l) e g = (j, [], _, leave e)
  inside_can j (look f ∷ l) e g = (j, [], _, view e)
  inside_can j (run op ∷ l) e g = by_loaded (s.threads j).loaded refl
    where
      by_loaded : (o : Option W) → (s.threads j).loaded ≡ o → Move
      by_loaded none q = (j, [], _, load e q)
      by_loaded (some w) q = (j, op ∷ [], _, store e q)

  outside_can :
      (i : ℕ) (l : List (Instr W))
      → (s.threads i).todo ≡ l
      → l ≢ []
      → s.lock ≡ none
      → IsGuarded false l
      → Move
  outside_can i [] e some_left free g = absurd (some_left refl)
  outside_can i (ts_lock ∷ l) e some_left free g = (i, [], _, take e free)
  outside_can i (ts_unlock ∷ l) e some_left free g = absurd g
  outside_can i (run op ∷ l) e some_left free g = absurd g
  outside_can i (look f ∷ l) e some_left free g = (i, [], _, view e)

  -- While a thread has something left to do, some thread can take a step.
  pub progress_lem :
      (i : ℕ)
      → (s.threads i).todo ≢ []
      → (j : ℕ) × (more : List (Op W)) × (u : System W) × Step s j more u
  progress_lem i some_left = by_lock s.lock refl
    where
      guarded_at :
          (j : ℕ) (lock : Option ℕ) → s.lock ≡ lock → IsGuarded (holds lock j) (s.threads j).todo
      guarded_at j lock e =
          subst (λ o. IsGuarded (holds o j) (s.threads j).todo) e (inv.each j).guarded

      by_lock : (lock : Option ℕ) → s.lock ≡ lock → Move
      by_lock none e = outside_can i (s.threads i).todo refl some_left e (guarded_at i none e)
      by_lock (some j) e =
          inside_can j (s.threads j).todo refl
            (subst (λ b. IsGuarded b (s.threads j).todo) (own_holds j) (guarded_at j (some j) e))

-- Two calls that are not locked can both complete with the first state, so that what the first of
-- them stored is lost.
pub lost_lem :
    {W : Type 0} (first : W) (op op' : Op W)
    → (s : System W) × Reach
        (start first (λ i. if i == 0 then unlocked op else unlocked op'))
        (op ∷ op' ∷ [])
        s
      × (s.state ≡ (op' first).0)
      × ((s.threads 0).answers ≡ (op first).1 ∷ [])
      × ((s.threads 1).answers ≡ (op' first).1 ∷ [])
lost_lem first op op' = (
  _,
  later 1 (later 0 (later 1 (later 0 here (load refl refl)) (load refl refl)) (store refl refl))
      (store refl refl),
  refl,
  refl,
  refl,
)
