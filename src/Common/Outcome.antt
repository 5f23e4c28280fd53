-- ===== src/Common/Outcome.antt =====
-- A request's outcome. An exception leaves the request's session uncommitted, so it carries no state.
use mathlib.Core.Bool.{Bool, true, false}
use mathlib.Core.Path.{◌≡◌, refl}

-- the exceptions, by their classes; `several_rows` is raised by `one_or_none`
pub data Fault : Type 0 where
  permission_error value_error assertion_error several_rows : Fault

pub data Outcome {κ} (V : Type κ) : Type κ where
  raised : Fault → Outcome V
  ok : V → Outcome V

-- the statements after one that may raise
infixl 5 ◌>>=◌
abbrev pub ◌>>=◌ {κ μ} :
    {V : Type κ} {W : Type μ} (first : Outcome V) (rest : V → Outcome W) → Outcome W
(raised fault) >>= rest = raised fault
(ok value) >>= rest = rest value

-- a check before the statements that follow it
infixl 5 ◌>>◌
abbrev pub ◌>>◌ {μ} : {W : Type μ} (check : Outcome (Unit {0})) (rest : Outcome W) → Outcome W
check >> rest = check >>= (λ passed. rest)

-- `if not test: raise fault`
abbrev pub require : Bool → Fault → Outcome (Unit {0})
require false fault = raised fault
require true fault = ok tt

-- statements that end without an exception: the first one did, and so did the others on its value
pub >>=-eq-ok {κ μ} :
    {V : Type κ} {W : Type μ} (first : Outcome V) (rest : V → Outcome W) {b : W}
    (run : first >>= rest ≡ ok b)
    → (value : V) × (first ≡ ok value) × (rest value ≡ ok b)
>>=-eq-ok (raised fault) rest run = cc
>>=-eq-ok (ok value) rest run = (value, refl, run)
