-- ===== src/Base/Run.antt =====
-- Runs of C++ code that may fail: an exception, or behaviour that the language does not define.
use bhcpp_hptool_kit.Base.{◌≡◌}

-- `undefined` is a read of storage that holds no object, or an access out of range or through a
-- null pointer; `diverges` is a loop that does not end.
pub data Fault : Type 0 where
  out_of_range invalid_argument runtime_error undefined diverges : Fault

pub data Run {ℓ} (A : Type ℓ) : Type ℓ where
  fault : Fault → Run A
  ok : A → Run A

-- The run ends normally, in a value that satisfies `P`.
abbrev pub Returns {ℓ κ} : {A : Type ℓ} → Run A → (A → Type κ) → Type (ℓ ⊔ κ)
Returns {A} run P = (value : A) × (run ≡ ok value) × P value

infixl 5 ◌>>=◌
abbrev pub ◌>>=◌ {ℓ κ} : {A : Type ℓ} {B : Type κ} → Run A → (A → Run B) → Run B
fault reason >>= next = fault reason
ok value >>= next = next value

-- A run after a run: the value of the first is known only by what it satisfies.
pub Returns-bind {ℓ κ μ ν} :
    {A : Type ℓ} {B : Type κ} {P : A → Type μ} {Q : B → Type ν} {m : Run A} {f : A → Run B}
    → Returns m P
    → ((a : A) → P a → Returns (f a) Q)
    → Returns (m >>= f) Q
Returns-bind (a, e, p) k = let (b, run, q) = k a p in (b, rw e run, q)

pub Returns_mono {ℓ μ ν} :
    {A : Type ℓ} {P : A → Type μ} {Q : A → Type ν} {m : Run A}
    → Returns m P
    → ((a : A) → P a → Q a)
    → Returns m Q
Returns_mono (a, e, p) k = (a, e, k a p)
