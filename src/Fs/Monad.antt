-- ===== src/Fs/Monad.antt =====
-- State passing with the ways in which a call of the file system does not return: `aborted` is
-- a failed ALWAYS_ASSERT or a PANIC, `undefined` an access that C does not define. `out_of_fuel`
-- belongs to the model alone: the bound on a recursion was too small.
use project_so.Prelude.{Bool, if◌then◌else◌}
use project_so.Prelude.{◌≡◌, refl}
use project_so.Fs.Types.{FsState}
use project_so.Prelude.{◌≡◌}

pub data Outcome {ℓ} (A : Type ℓ) : Type ℓ where
  done : A → FsState → Outcome A
  aborted : Outcome A
  undefined : Outcome A
  out_of_fuel : Outcome A

abbrev pub M {ℓ} : Type ℓ → Type ℓ
M A = FsState → Outcome A

abbrev pub pure {ℓ} : {A : Type ℓ} → A → M A
pure a s = done a s

infixl 5 ◌>>=◌ ◌>>◌
abbrev pub ◌>>=◌ {ℓ κ} : {A : Type ℓ} {B : Type κ} → M A → (A → M B) → M B
◌>>=◌ m f s = elim (m s) [
  | done a s' ↦ f a s'
  | aborted ↦ aborted
  | undefined ↦ undefined
  | out_of_fuel ↦ out_of_fuel
]

abbrev pub ◌>>◌ {ℓ} : {B : Type ℓ} → M (Unit {0}) → M B → M B
m >> k = m >>= λ _. k

abbrev pub get : M FsState
get s = done s s

abbrev pub modify : (FsState → FsState) → M (Unit {0})
modify f s = done tt (f s)

-- An `if` over two statements, and one with no `else`.
abbrev pub choose {ℓ} : {A : Type ℓ} → Bool → M A → M A → M A
choose c m k s = if c then m s else k s

abbrev pub when : Bool → M (Unit {0}) → M (Unit {0})
when c m s = if c then m s else done tt s

-- ALWAYS_ASSERT
abbrev pub always_assert : Bool → M (Unit {0})
always_assert c s = if c then done tt s else aborted

abbrev pub defined_if : Bool → M (Unit {0})
defined_if c s = if c then done tt s else undefined

-- The call returns, and its result and final state satisfy `P`.
abbrev pub Returns : {A : Type 0} → (A → FsState → Type 0) → Outcome A → Type 0
Returns P (done a s) = P a s
Returns P aborted = ⊥
Returns P undefined = ⊥
Returns P out_of_fuel = ⊥

-- If the call returns, its result and final state satisfy `P`.
abbrev pub Ensures : {A : Type 0} → (A → FsState → Type 0) → Outcome A → Type 0
Ensures P (done a s) = P a s
Ensures P aborted = Unit {0}
Ensures P undefined = Unit {0}
Ensures P out_of_fuel = Unit {0}

-- What holds at the end of a first part holds at the start of the rest.
pub Returns-then :
    {A B : Type 0} {P : A → FsState → Type 0} (Q : B → FsState → Type 0) (o : Outcome A)
    (f : A → M B) (s : FsState)
    → Returns P o
    → ((a : A) (t : FsState) → P a t → Returns Q (f a t))
    → Returns Q (◌>>=◌ (λ _. o) f s)
Returns-then Q (done a t) f s h k = k a t h
Returns-then Q aborted f s h k = absurd h
Returns-then Q undefined f s h k = absurd h
Returns-then Q out_of_fuel f s h k = absurd h

pub Returns-done :
    {A : Type 0} (P : A → FsState → Type 0) (o : Outcome A)
    → Returns P o
    → (a : A) × (t : FsState) × (o ≡ done a t) × P a t
Returns-done P (done a t) h = (a, t, refl, h)
Returns-done P aborted h = absurd h
Returns-done P undefined h = absurd h
Returns-done P out_of_fuel h = absurd h

pub Returns-weaken :
    {A : Type 0} {P : A → FsState → Type 0} (Q : A → FsState → Type 0) (o : Outcome A)
    → Returns P o
    → ((a : A) (t : FsState) → P a t → Q a t)
    → Returns Q o
Returns-weaken Q (done a t) h k = k a t h
Returns-weaken Q aborted h k = absurd h
Returns-weaken Q undefined h k = absurd h
Returns-weaken Q out_of_fuel h k = absurd h

pub Returns-both :
    {A : Type 0} (P Q : A → FsState → Type 0) (o : Outcome A)
    → Returns P o
    → Returns Q o
    → Returns (λ a t. P a t × Q a t) o
Returns-both P Q (done a t) h k = (h, k)
Returns-both P Q aborted h k = absurd h
Returns-both P Q undefined h k = absurd h
Returns-both P Q out_of_fuel h k = absurd h
