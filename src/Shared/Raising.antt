-- ===== src/Shared/Raising.antt =====
-- A Python method's outcome as a value: the exception that leaves it, or what it returns.
use mathlib.Core.Path.{◌≡◌, refl}
use mathlib.Core.Bool.{Bool, true, false}
use mathlib.Core.Option.{Option, none, some}
use azure_sql_mcp.Shared.Tests.{if◌then◌else◌}

pub data Raising {ℓ} (E : Type 0) (A : Type ℓ) : Type ℓ where
  raised : E → Raising E A
  returned : A → Raising E A

infixl 5 ◌>>=◌ ◌>>◌
abbrev pub ◌>>=◌ {ℓ κ} :
    {E : Type 0} {A : Type ℓ} {B : Type κ} → Raising E A → (A → Raising E B) → Raising E B
raised cause >>= next = raised cause
returned value >>= next = next value

-- `if not condition: raise cause`
abbrev pub require : {E : Type 0} → Bool → E → Raising E (Unit {0})
require false cause = raised cause
require true cause = returned tt

abbrev pub ◌>>◌ {κ} : {E : Type 0} {B : Type κ} → Raising E (Unit {0}) → Raising E B → Raising E B
check >> next = check >>= λ _. next

abbrev pub or_raise {ℓ} : {E : Type 0} {A : Type ℓ} → Option A → E → Raising E A
or_raise none e = raised e
or_raise (some a) e = returned a

-- `P` of what is returned, if something is.
abbrev pub OkOf {ℓ} : {E : Type 0} {A : Type ℓ} → (A → Type 0) → Raising E A → Type 0
OkOf P (returned a) = P a
OkOf P (raised e) = Unit

pub OkOf-bind {ℓ κ} :
    {E : Type 0} {A : Type ℓ} {B : Type κ} (P : B → Type 0) (m : Raising E A) (f : A → Raising E B)
    → ((a : A) → m ≡ returned a → OkOf P (f a))
    → OkOf P (m >>= f)
OkOf-bind P (returned a) f h = h a refl
OkOf-bind P (raised e) f h = tt

pub OkOf-require {κ} :
    {E : Type 0} {B : Type κ} (P : B → Type 0) (b : Bool) (e : E) (m : Raising E B)
    → (b ≡ true → OkOf P m)
    → OkOf P (require b e >> m)
OkOf-require P true e m h = h refl
OkOf-require P false e m h = tt

pub OkOf-or_raise {ℓ κ} :
    {E : Type 0} {A : Type ℓ} {B : Type κ} (P : B → Type 0) (x : Option A) (e : E)
    (f : A → Raising E B)
    → ((a : A) → x ≡ some a → OkOf P (f a))
    → OkOf P (or_raise x e >>= f)
OkOf-or_raise P none e f h = tt
OkOf-or_raise P (some a) e f h = h a refl

pub OkOf-if {κ} :
    {E : Type 0} {B : Type κ} (P : B → Type 0) (b : Bool) (m n : Raising E B)
    → OkOf P m
    → OkOf P n
    → OkOf P (if b then m else n)
OkOf-if P true m n h k = h
OkOf-if P false m n h k = k

pub OkOf-weaken {ℓ} :
    {E : Type 0} {A : Type ℓ} {P Q : A → Type 0}
    → ((a : A) → P a → Q a)
    → (m : Raising E A) → OkOf P m
    → OkOf Q m
OkOf-weaken f (returned a) h = f a h
OkOf-weaken f (raised cause) h = tt

pub OkOf-intro {ℓ} :
    {E : Type 0} {A : Type ℓ} (P : A → Type 0) (m : Raising E A)
    → ((a : A) → m ≡ returned a → P a)
    → OkOf P m
OkOf-intro P (returned a) h = h a refl
OkOf-intro P (raised cause) h = tt

-- What a chain of calls that returns has gone through.
pub >>=-eq-returned {ℓ κ} :
    {E : Type 0} {A : Type ℓ} {B : Type κ} (m : Raising E A) (f : A → Raising E B) {b : B}
    → (m >>= f) ≡ returned b
    → (a : A) × (m ≡ returned a) × (f a ≡ returned b)
>>=-eq-returned (returned a) f h = (a, refl, h)
>>=-eq-returned (raised e) f h = cc

pub require-eq-returned {κ} :
    {E : Type 0} {B : Type κ} (c : Bool) (e : E) (m : Raising E B) {b : B}
    → (require c e >> m) ≡ returned b
    → (c ≡ true) × (m ≡ returned b)
require-eq-returned true e m h = (refl, h)
require-eq-returned false e m h = cc
