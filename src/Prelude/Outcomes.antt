-- ===== src/Prelude/Outcomes.antt =====
-- What a contract call ends with: a value, an error of the contract's own type, or a trap of the
-- host (a panic, an overflow of a host number, a refused authorization, a failed foreign call).
-- The host undoes every write of a call that does not end with a value.
use mathlib.Core.Path.{◌≡◌, refl}
use mathlib.Core.Bool.{Bool, true, false}
use mathlib.Core.Option.{Option, none, some}

pub data Outcome {ℓ} (E : Type 0) (A : Type ℓ) : Type ℓ where
  ok : A → Outcome E A
  err : E → Outcome E A
  trap : Outcome E A

infixl 5 ◌>>=◌ ◌>>◌
abbrev pub ◌>>=◌ {ℓ κ} :
    {E : Type 0} {A : Type ℓ} {B : Type κ} → Outcome E A → (A → Outcome E B) → Outcome E B
trap >>= rest = trap
err error >>= rest = err error
ok value >>= rest = rest value

abbrev pub ◌>>◌ {ℓ κ} :
    {E : Type 0} {A : Type ℓ} {B : Type κ} → Outcome E A → Outcome E B → Outcome E B
call >> rest = call >>= λ ignored. rest

-- `if refused { return Err(e) }`
abbrev pub refuse_if : {E : Type 0} → Bool → E → Outcome E (Unit {0})
refuse_if false error = ok tt
refuse_if true error = err error

-- `o.ok_or(e)?`
abbrev pub ok_or {ℓ} : {E : Type 0} {A : Type ℓ} → Option A → E → Outcome E A
ok_or none e = err e
ok_or (some a) e = ok a

-- A host call that traps where it has no value.
abbrev pub or_trap {ℓ} : {E : Type 0} {A : Type ℓ} → Option A → Outcome E A
or_trap none = trap
or_trap (some a) = ok a

-- A chain that ended with a value: so did its first call, and the rest after it.
pub >>=-eq-ok {ℓ κ} :
    {A : Type ℓ} {E : Type 0} {B : Type κ} {result : B} (call : Outcome E A)
    (rest : A → Outcome E B)
    → call >>= rest ≡ ok result
    → (value : A) × (call ≡ ok value) × (rest value ≡ ok result)
>>=-eq-ok trap rest ended = cc
>>=-eq-ok (err error) rest ended = cc
>>=-eq-ok (ok value) rest ended = (value, refl, ended)

pub ok-injective {ℓ} :
    {E : Type 0} {A : Type ℓ} {a b : A} → ◌≡◌ {A = Outcome E A} (ok a) (ok b) → a ≡ b
ok-injective p = cc

pub ok_or-eq-ok {ℓ} :
    {E : Type 0} {A : Type ℓ} (o : Option A) (e : E) {a : A} → ok_or o e ≡ ok a → o ≡ some a
ok_or-eq-ok none e h = cc
ok_or-eq-ok (some b) e h = cc

module _ {E : Type 0} where
  pub refuse_if-ok : (b : Bool) (e : E) (u : Unit {0}) → refuse_if b e ≡ ok u → b ≡ false
  refuse_if-ok true e u h = cc
  refuse_if-ok false e u h = refl

  -- A check that passed, in a chain of checks.
  pub passed {ℓ} :
      {A : Type ℓ} (b : Bool) (e : E) (k : Outcome E A) {a : A}
      → (refuse_if b e >> k) ≡ ok a
      → (b ≡ false) × (k ≡ ok a)
  passed true e k h = cc
  passed false e k h = (refl, h)

  pub ran {ℓ} :
      {A : Type ℓ} (m : Outcome E (Unit {0})) (k : Outcome E A) {a : A}
      → (m >> k) ≡ ok a
      → (m ≡ ok tt) × (k ≡ ok a)
  ran (ok u) k h = (refl, h)
  ran (err e) k h = cc
  ran trap k h = cc
