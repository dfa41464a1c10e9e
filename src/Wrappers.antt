-- ===== src/Wrappers.antt =====
-- src/g3log/moveoncopy.hpp and atomicbool.hpp: the wrappers that messages and flags travel in. A
-- call that moves from its argument returns what it leaves there too.
pub mod Ownership
pub mod Tests
use myg3log.Base.{Bool, true, false, Option, none, some}

-- `struct MoveOnCopy<Moveable>`.
pub record MoveOnCopy {ℓ} (A : Type ℓ) : Type ℓ where
  pub move_only : A

-- What `std::move` leaves of a value is up to its type: a `unique_ptr` is null then.
module _ {ℓ} {A : Type ℓ} (moved_from : A → A) where
  -- `MoveOnCopy(Moveable &&m)`: the new wrapper, and what is left of the argument.
  unfoldable pub wrap : A → MoveOnCopy A × A
  wrap m = (record { move_only = m }, moved_from m)

  -- `MoveOnCopy(MoveOnCopy const &t)` and `MoveOnCopy(MoveOnCopy &&t)`: the new wrapper, and `t`.
  unfoldable pub copy : MoveOnCopy A → MoveOnCopy A × MoveOnCopy A
  copy t = (record { move_only = t.move_only }, record { move_only = moved_from t.move_only })

  -- `operator=(MoveOnCopy const &other)` and `operator=(MoveOnCopy &&other)`, for another object:
  -- the object that is assigned to, and `other`.
  unfoldable pub assign : MoveOnCopy A → MoveOnCopy A → MoveOnCopy A × MoveOnCopy A
  assign this other =
      (record { move_only = other.move_only }, record { move_only = moved_from other.move_only })

  -- `release()`: the value, and the wrapper.
  unfoldable pub release : MoveOnCopy A → A × MoveOnCopy A
  release t = (t.move_only, record { move_only = moved_from t.move_only })

module _ {ℓ} {A : Type ℓ} where
  -- `get()`.
  unfoldable pub get : MoveOnCopy A → A
  get t = t.move_only

  -- `operator()()`, for what a call of the value does to a state.
  unfoldable pub call : {S : Type 0} → (A → S → S) → MoveOnCopy A → S → S
  call run t s = run t.move_only s

-- `struct atomicbool`; a load or a store is one step.
pub record AtomicBool : Type 0 where
  pub value_ : Bool

-- `atomicbool()`, and the constructors from a value.
unfoldable pub default_bool : AtomicBool
default_bool = record { value_ = false }

unfoldable pub from_bool : Bool → AtomicBool
from_bool value = record { value_ = value }

-- The copy constructor.
unfoldable pub copy_bool : AtomicBool → AtomicBool
copy_bool other = record { value_ = other.value_ }

-- `operator=(const atomicbool &other)` and `operator=(const bool other)`.
unfoldable pub assign_bool : AtomicBool → AtomicBool → AtomicBool
assign_bool this other = record this { value_ = other.value_ }

unfoldable pub store : AtomicBool → Bool → AtomicBool
store this other = record this { value_ = other }

-- `operator==(rhs)`.
unfoldable pub equal_bool : AtomicBool → AtomicBool → Bool
equal_bool this rhs = elim this.value_ [
  | true ↦ rhs.value_
  | false ↦ elim rhs.value_ [ true ↦ false | false ↦ true ]
]

-- `value()`.
unfoldable pub value : AtomicBool → Bool
value this = this.value_
