-- ===== src/Base/Outcome.antt =====
-- How a call ends: it returns, it calls `bsp_intern_abort` with an error number, or it leaves the
-- block that it may access (undefined behaviour in C).
use Prim.Native.Nat.{ℕ}

pub data Run (A : Type 0) : Type 0 where
  ok : A → Run A
  abort : ℕ → Run A
  fault : Run A

infixl 5 ◌>>=◌
abbrev pub ◌>>=◌ : {A B : Type 0} → Run A → (A → Run B) → Run B
ok a >>= f = f a
abort e >>= f = abort e
fault >>= f = fault
