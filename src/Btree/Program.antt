-- ===== src/Btree/Program.antt =====
-- Steps of the tree's operations: each works on a state and ends with a value, with a negative
-- errno, or halts the kernel (BUG_ON, panic).
use kdbs.Common.{◌≡◌, ap, Errno, Result, ok, err, Bool, true}

pub data Outcome (A : Type 0) : Type 0 where
  done : A → Outcome A
  failed : Errno → Outcome A
  halted : Outcome A

abbrev pub Program : Type 0 → Type 0 → Type 0
Program S A = S → S × Outcome A

infixl 5 ◌>>=◌ ◌>>◌
-- What comes after a step, given how the step ended: the rest runs only after a value.
abbrev pub continue : {S A B : Type 0} → (A → Program S B) → S × Outcome A → S × Outcome B
continue rest (s, done a) = rest a s
continue rest (s, failed e) = (s, failed e)
continue rest (s, halted) = (s, halted)

abbrev pub ◌>>=◌ : {S A B : Type 0} → Program S A → (A → Program S B) → Program S B
◌>>=◌ step rest s = continue rest (step s)

abbrev pub ◌>>◌ : {S A B : Type 0} → Program S A → Program S B → Program S B
step >> rest = step >>= λ _. rest

abbrev pub give : {S A : Type 0} → A → Program S A
give a s = (s, done a)

abbrev pub fail : {S A : Type 0} → Errno → Program S A
fail e s = (s, failed e)

abbrev pub halt : {S A : Type 0} → Program S A
halt s = (s, halted)

-- A change of the state that cannot fail.
abbrev pub change : {S : Type 0} → (S → S) → Program S Bool
change f s = (f s, done true)

abbrev pub ask : {S A : Type 0} → (S → A) → Program S A
ask f s = (s, done (f s))

abbrev pub attempt : {S A : Type 0} → (S → S × A) → Program S A
attempt f s = let (s', a) = f s in (s', done a)

abbrev pub caught : {S A : Type 0} → S × Outcome A → S × Outcome (Result A)
caught (s, done a) = (s, done (ok a))
caught (s, failed e) = (s, done (err e))
caught (s, halted) = (s, halted)

-- A step whose negative errno the caller looks at.
abbrev pub catching : {S A : Type 0} → Program S A → Program S (Result A)
catching step s = caught (step s)

abbrev pub from_result : {S A : Type 0} → Result A → Program S A
from_result (ok a) = give a
from_result (err e) = fail e

-- A step that is known to end with a value, or to fail.
pub >>=-done :
    {S A B : Type 0} (step : Program S A) (rest : A → Program S B) (s s' : S) (a : A)
    → step s ≡ (s', done a)
    → (step >>= rest) s ≡ rest a s'
>>=-done step rest s s' a e = ap (continue rest) e

pub >>=-failed :
    {S A B : Type 0} (step : Program S A) (rest : A → Program S B) (s s' : S) (e : Errno)
    → step s ≡ (s', failed e)
    → (step >>= rest) s ≡ (s', failed e)
>>=-failed step rest s s' e q = ap (continue rest) q
