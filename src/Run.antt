-- ===== src/Run.antt =====
-- Results of code that may dereference a null pointer, or whose loop may outlast its fuel.
use hmalloc.Common.{Option, none, some}

pub data Run (A : Type 0) : Type 0 where
  done : A → Run A
  fault : Run A
  running : Run A

infixl 5 ◌>>=◌
abbrev pub ◌>>=◌ : {A B : Type 0} → Run A → (A → Run B) → Run B
done a >>= f = f a
fault >>= f = fault
running >>= f = running

-- A loop of the layers below that returned nothing was still running.
abbrev pub lift : {A : Type 0} → Option A → Run A
lift none = running
lift (some a) = done a
