-- ===== src/Base/Blocks.antt =====
-- C arrays and allocated blocks as functions of the index. What a fresh block holds is an argument
-- of the operation that allocates it.
use Prim.Native.Nat.{ℕ, zero, suc, ◌+◌, ◌-◌, ◌<◌, ◌≤◌}
use mathlib.Core.Path.{◌≡◌, refl, ap, ap₂, ◌∙◌}
use mathlib.Core.Logic.{◌≢◌}
use mathlib.Core.Bool.{◌&&◌}
use mathlib.Core.List.{List, [], ◌∷◌, ◌++◌}
use native.Mathlib.Omega.{arith}
use bsponmpi.Base.Lists.{length, drop}
use bsponmpi.Base.Tests.{ltb, leb, ◌==◌, if◌then◌else◌}

abbrev pub Array : Type 0 → Type 0
Array A = ℕ → A

module _ {A : Type 0} where
  -- `a[i] = v`
  abbrev pub update : Array A → ℕ → A → Array A
  update a i v k = if k == i then v else a k

  -- `memcpy(a + d, b + s, n)`, counted in elements
  abbrev pub memcpy : Array A → ℕ → Array A → ℕ → ℕ → Array A
  memcpy a d b s n k = if leb d k && ltb k (d + n) then b (s + (k - d)) else a k

  -- `memset(a + d, v, n)`, counted in elements
  abbrev pub memset : Array A → ℕ → A → ℕ → Array A
  memset a d v n k = if leb d k && ltb k (d + n) then v else a k

  -- the elements `a[s .. s + n)`
  abbrev pub slice : Array A → ℕ → ℕ → List A
  slice a s zero = []
  slice a s (suc n) = a s ∷ slice a (suc s) n

  pub slice_ext :
      (a b : Array A) (s t n : ℕ)
      → ((k : ℕ) → k < n → a (s + k) ≡ b (t + k))
      → slice a s n ≡ slice b t n
  slice_ext a b s t zero h = refl
  slice_ext a b s t (suc n) h =
      ap₂ ◌∷◌ (ground (arith, h 0))
        (slice_ext a b (suc s) (suc t) n (λ k p. grind (arith, h (suc k))))

  pub slice-suc : (a : Array A) (s n : ℕ) → slice a s (suc n) ≡ slice a s n ++ a (s + n) ∷ []
  slice-suc a s zero = ground arith
  slice-suc a s (suc n) = ap₂ ◌∷◌ refl (grind (arith, slice-suc a (suc s) n))

  pub update_self : (a : Array A) (i : ℕ) (v : A) → update a i v i ≡ v
  update_self a i v = ground arith

  pub update_ne : (a : Array A) (i : ℕ) (v : A) (k : ℕ) → k ≢ i → update a i v k ≡ a k
  update_ne a i v k h = ground arith

  pub slice_split : (a : Array A) (s m n : ℕ) → slice a s (m + n) ≡ slice a s m ++ slice a (s + m) n
  slice_split a s zero n =
      let none_left : zero + n ≡ n = omega arith in
      let same : s + zero ≡ s = omega arith in rw (none_left, same)
  slice_split a s (suc m) n =
      let size : suc m + n ≡ suc (m + n) = omega arith in
      let next : suc s + m ≡ s + suc m = omega arith in
      rw size (
        ap (◌∷◌ (a s))
          (slice_split a (suc s) m n ∙ ap (λ k. slice a (suc s) m ++ slice a k n) next))

  pub length-slice : (a : Array A) (s n : ℕ) → length (slice a s n) ≡ n
  length-slice a s zero = refl
  length-slice a s (suc n) = ap suc (length-slice a (suc s) n)

  pub drop-slice :
      (m : ℕ) (a : Array A) (s n : ℕ) → m ≤ n → drop m (slice a s n) ≡ slice a (s + m) (n - m)
  drop-slice zero a s n h = ap₂ (slice a) (omega arith) (omega arith)
  drop-slice (suc m) a s zero h = absurd (omega arith)
  drop-slice (suc m) a s (suc n) h =
      let e : suc s + m ≡ s + suc m = omega arith in
      let f : n - m ≡ suc n - suc m = omega arith in
      drop-slice m a (suc s) n (omega arith) ∙ ap₂ (slice a) e f
