-- ===== src/Base/Outcome.antt =====
-- What a call may end with besides a value: a thrown exception of the client, or a step that C++
-- leaves undefined, which the models make visible instead of guessing a result.
use Prim.Native.String.{String}
use easygametools.Base.Tests.{if◌then◌else◌}
use easygametools.Base.Text.{Bytes}
use mathlib.Core.Path.{◌≡◌, refl}
use mathlib.Core.Logic.{◌⊎◌, inl, inr}
use mathlib.Core.Bool.{Bool, true, false}
use mathlib.Core.Option.{Option, none, some}

pub data Error : Type 0 where
  -- Undefined behaviour: a write past a buffer, a use of a null pointer, a read of a member that no
  -- constructor set, a read past the end of a buffer.
  buffer_overflow null_pointer uninitialised unterminated : Error
  -- And a use of memory that has been freed, a division by zero, and the leaving of a critical section
  -- that the thread does not own.
  dangling division_by_zero not_owner : Error
  -- An exception that nothing catches, which ends the program.
  uncaught : Error
  -- A loop of the model ran out of fuel.
  out_of_fuel : Error
  -- `throw new FatalException(msg)`, `LoginFailedException`, `ProtocolException`,
  -- `TaskRejectedException` and `WebFormException`
  fatal protocol_error task_rejected : String → Error
  login_failed web_form_error : Bytes → Error

pub data Result {ℓ} (A : Type ℓ) : Type ℓ where
  ok : A → Result A
  err : Error → Result A

abbrev pub or_error {ℓ} : {A : Type ℓ} → Option A → Error → Result A
or_error none e = err e
or_error (some a) e = ok a

-- A test that throws where it fails.
abbrev pub guard : Bool → Error → Result (Unit {0})
guard false failure = err failure
guard true failure = ok tt

infixl 5 ◌>>=◌ ◌>>◌
abbrev pub ◌>>=◌ {κ μ} : {S : Type κ} {T : Type μ} → Result S → (S → Result T) → Result T
err e >>= next = err e
ok value >>= next = next value

-- The value of the first call is not looked at.
abbrev pub ◌>>◌ {κ} : {T : Type κ} → Result (Unit {0}) → Result T → Result T
first >> second = first >>= λ done. second

-- Inversion of a bind that succeeded, for proofs where the parts stay shut.
pub >>=-eq-ok {κ μ} :
    {S : Type κ} {T : Type μ} {t : T} (first : Result S) (next : S → Result T)
    → (first >>= next) ≡ ok t
    → (s : S) × (first ≡ ok s) × (next s ≡ ok t)
>>=-eq-ok (err e) next h = cc
>>=-eq-ok (ok s) next h = (s, refl, h)

-- The call returns, and its value satisfies `P`.
abbrev pub Ensures {ℓ} : {A : Type ℓ} → Result A → (A → Type 0) → Type 0
Ensures (ok a) P = P a
Ensures (err e) P = ⊥

pub Ensures-bind {ℓ κ} :
    {A : Type ℓ} {B : Type κ} (m : Result A) (f : A → Result B) (P : A → Type 0) (Q : B → Type 0)
    → Ensures m P
    → ((a : A) → P a → Ensures (f a) Q)
    → Ensures (m >>= f) Q
Ensures-bind (ok a) f P Q h k = k a h
Ensures-bind (err e) f P Q h k = elim h [ ]

pub Ensures-weaken {ℓ} :
    {A : Type ℓ} (m : Result A) (P Q : A → Type 0)
    → Ensures m P
    → ((a : A) → P a → Q a)
    → Ensures m Q
Ensures-weaken (ok a) P Q h k = k a h
Ensures-weaken (err e) P Q h k = elim h [ ]

pub Ensures-ok {ℓ} :
    {A : Type ℓ} (m : Result A) (P : A → Type 0) {a : A} → m ≡ ok a → Ensures m P → P a
Ensures-ok m P e h = rw e at h

-- What `Ensures` says, in an equation.
pub Ensures-eq {ℓ} :
    {A : Type ℓ} (m : Result A) (P : A → Type 0) → Ensures m P → (a : A) × (m ≡ ok a) × P a
Ensures-eq (ok a) P h = (a, refl, h)
Ensures-eq (err e) P h = elim h [ ]

-- Two calls that go on alike from the same result.
pub >>=-cong {ℓ κ} :
    {A : Type ℓ} {B : Type κ} (m : Result A) (f g : A → Result B)
    → ((a : A) → f a ≡ g a)
    → (m >>= f) ≡ (m >>= g)
>>=-cong (ok a) f g h = h a
>>=-cong (err e) f g h = refl

pub >>=_assoc {ℓ κ μ} :
    {A : Type ℓ} {B : Type κ} {C : Type μ} (m : Result A) (f : A → Result B) (g : B → Result C)
    → (m >>= f >>= g) ≡ (m >>= λ a. f a >>= g)
>>=_assoc (ok a) f g = refl
>>=_assoc (err e) f g = refl

pub Result-cases {ℓ} :
    {A : Type ℓ} (r : Result A) → ((a : A) × (r ≡ ok a)) ⊎ ((e : Error) × (r ≡ err e))
Result-cases (ok a) = inl (a, refl)
Result-cases (err e) = inr (e, refl)

-- Where the call returns, its value satisfies `P`.
abbrev pub IfOk {ℓ} : {A : Type ℓ} → Result A → (A → Type 0) → Type 0
IfOk (ok a) P = P a
IfOk (err e) P = Unit

pub IfOk-all {ℓ} : {A : Type ℓ} (m : Result A) (P : A → Type 0) → ((a : A) → P a) → IfOk m P
IfOk-all (ok a) P h = h a
IfOk-all (err e) P h = tt

pub IfOk-ok {ℓ} : {A : Type ℓ} (m : Result A) (P : A → Type 0) {a : A} → m ≡ ok a → IfOk m P → P a
IfOk-ok m P e h = rw e at h

pub Ensures-weak {ℓ} : {A : Type ℓ} (m : Result A) (P : A → Type 0) → Ensures m P → IfOk m P
Ensures-weak (ok a) P h = h
Ensures-weak (err e) P h = tt

pub IfOk-if {ℓ} :
    {A : Type ℓ} (b : Bool) (m n : Result A) (P : A → Type 0)
    → IfOk m P
    → IfOk n P
    → IfOk (if b then m else n) P
IfOk-if true m n P h k = h
IfOk-if false m n P h k = k

pub IfOk-bind {ℓ κ} :
    {A : Type ℓ} {B : Type κ} (m : Result A) (f : A → Result B) (P : A → Type 0) (Q : B → Type 0)
    → IfOk m P
    → ((a : A) → P a → IfOk (f a) Q)
    → IfOk (m >>= f) Q
IfOk-bind (ok a) f P Q h k = k a h
IfOk-bind (err e) f P Q h k = tt

pub IfOk-weaken {ℓ} :
    {A : Type ℓ} (m : Result A) (P Q : A → Type 0) → IfOk m P → ((a : A) → P a → Q a) → IfOk m Q
IfOk-weaken (ok a) P Q h k = k a h
IfOk-weaken (err e) P Q h k = tt

pub Ensures-IfOk {ℓ} :
    {A : Type ℓ} (m : Result A) (P Q : A → Type 0)
    → Ensures m P
    → IfOk m Q
    → Ensures m (λ a. P a × Q a)
Ensures-IfOk (ok a) P Q h k = (h, k)
Ensures-IfOk (err e) P Q h k = elim h [ ]
