-- ===== src/Base/Monad.antt =====
-- The monad of code that may end the process: `none` is `exit(-1)`, which LOG_FATAL calls.
use mathlib.Core.Path.{◌≡◌, refl}
use mathlib.Core.Bool.{Bool, true, false}
use mathlib.Core.Option.{Option, none, some}
use mynuduo.Base.Tests.{if◌then◌else◌}

infixl 5 ◌>>=◌
abbrev pub ◌>>=◌ {ℓ κ} : {A : Type ℓ} {B : Type κ} → Option A → (A → Option B) → Option B
none >>= f = none
some a >>= f = f a

-- Inversion of a chain that has run to its end.
pub >>=-eq-some {ℓ κ} :
    {A : Type ℓ} {B : Type κ} (m : Option A) (f : A → Option B) {b : B}
    → (m >>= f) ≡ some b
    → (a : A) × (m ≡ some a) × (f a ≡ some b)
>>=-eq-some none f h = cc
>>=-eq-some (some a) f h = (a, refl, h)

-- A step that does not end the process, and leaves `P` true.
abbrev pub Returns : {S : Type 0} → (S → Type 0) → Option S → Type 0
Returns P none = ⊥
Returns P (some t) = P t

pub Returns-mono :
    {S : Type 0} (P Q : S → Type 0) (m : Option S)
    → Returns P m
    → ((s : S) → P s → Q s)
    → Returns Q m
Returns-mono P Q none r h = r
Returns-mono P Q (some s) r h = h s r

pub Returns-bind :
    {S : Type 0} (P : S → Type 0) {A : Type 0} (Q : A → Type 0) (m : Option A) (f : A → Option S)
    → Returns Q m
    → ((a : A) → Q a → Returns P (f a))
    → Returns P (m >>= f)
Returns-bind P Q none f r h = r
Returns-bind P Q (some s) f r h = h s r

-- A branch, with its test as a hypothesis on each side.
pub if_rule :
    {A : Type 0} (P : A → Type 0) (b : Bool) {x y : A}
    → (b ≡ true → P x)
    → (b ≡ false → P y)
    → P (if b then x else y)
if_rule P true h k = h refl
if_rule P false h k = k refl

-- A step that leaves `P` true, if it returns.
abbrev pub IfReturns : {S : Type 0} → (S → Type 0) → Option S → Type 0
IfReturns P none = Unit {0}
IfReturns P (some t) = P t

pub Returns-also :
    {S : Type 0} (P Q : S → Type 0) (m : Option S)
    → Returns P m
    → IfReturns Q m
    → Returns (λ s. P s × Q s) m
Returns-also P Q none r h = r
Returns-also P Q (some s) r h = (r, h)

pub IfReturns-bind :
    {A S : Type 0} (Q : S → Type 0) (m : Option A) (f : A → Option S)
    → ((a : A) → IfReturns Q (f a))
    → IfReturns Q (m >>= f)
IfReturns-bind Q none f h = tt
IfReturns-bind Q (some a) f h = h a

pub IfReturns-mono :
    {S : Type 0} (P Q : S → Type 0) (m : Option S)
    → IfReturns P m
    → ((s : S) → P s → Q s)
    → IfReturns Q m
IfReturns-mono P Q none r h = tt
IfReturns-mono P Q (some s) r h = h s r

pub IfReturns-chain :
    {A S : Type 0} (P : A → Type 0) (Q : S → Type 0) (m : Option A) (f : A → Option S)
    → IfReturns P m
    → ((a : A) → P a → IfReturns Q (f a))
    → IfReturns Q (m >>= f)
IfReturns-chain P Q none f r h = tt
IfReturns-chain P Q (some a) f r h = h a r

pub Returns-if : {S : Type 0} (P : S → Type 0) (m : Option S) → Returns P m → IfReturns P m
Returns-if P none r = tt
Returns-if P (some s) r = r

pub IfReturns-all : {S : Type 0} (P : S → Type 0) (m : Option S) → ((s : S) → P s) → IfReturns P m
IfReturns-all P none h = tt
IfReturns-all P (some s) h = h s
