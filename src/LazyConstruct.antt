-- ===== src/LazyConstruct.antt =====
-- TLazyConstruct of include/uvexec/util/lazy.hpp: a value that is constructed at its first use, of arguments that are kept
-- until then.
pub mod Laws
mod Tests
use uvexec.Base.{ℕ, ◌+◌, Bool, true, false, Option, none, some, if◌then◌else◌}

-- What a call gives: a reference to the object, an exception, std::terminate, or undefined behaviour, as where a
-- reference is taken to storage in which no object was constructed.
pub data Outcome (T : Type 0) : Type 0 where
  refers : T → Outcome T
  threw : Outcome T
  terminates : Outcome T
  undefined : Outcome T

module _ (T Args : Type 0) where
  -- `Value`: the arguments, or TTypeMemory, in which an object was constructed or not.
  pub data Value : Type 0 where
    arguments : Args → Value
    memory : Option T → Value

pub record TLazyConstruct (T Args : Type 0) : Type 0 where
  pub value : Value T Args
  -- calls of the constructor of T
  pub constructions : ℕ

module _ {T Args : Type 0} where
  unfoldable pub new : Args → TLazyConstruct T Args
  new args = record { value = arguments args; constructions = 0 }

  unfoldable pub constructed : TLazyConstruct T Args → Bool
  constructed l = elim l.value [ arguments a ↦ false | memory o ↦ true ]

  -- The object in the memory.
  abbrev pub launder : Value T Args → Outcome T
  launder (memory (some t)) = refers t
  launder (memory none) = undefined
  launder (arguments a) = undefined

  -- The constructor of T gives an object, or throws.
  module _ (construct : Args → Option T) where
    -- `Transmogrify`: whether it throws, and what it leaves.
    unfoldable pub transmogrify : TLazyConstruct T Args → TLazyConstruct T Args
    transmogrify l = elim l.value [
      | arguments a ↦ record { value = memory (construct a); constructions = l.constructions + 1 }
      | memory o ↦ l
    ]

    -- The first use: an exception leaves the call.
    abbrev pub first_use : TLazyConstruct T Args → Outcome T × TLazyConstruct T Args
    first_use l = elim l.value [
      | memory (some t) ↦ (refers t, l)
      | memory none ↦ (threw, l)
      | arguments a ↦ (undefined, l)
    ]

    -- `operator T&`, and `operator const T&` of an object that is not const.
    unfoldable pub to_reference : TLazyConstruct T Args → Outcome T × TLazyConstruct T Args
    unfolding constructed transmogrify
    to_reference l = if constructed l then (launder l.value, l) else first_use (transmogrify l)

  -- `operator const T&` of a const object.
  unfoldable pub to_const_reference : TLazyConstruct T Args → Outcome T
  unfolding constructed
  to_const_reference l = if constructed l then launder l.value else terminates

  -- The move constructor, which is noexcept.
  unfoldable pub move : TLazyConstruct T Args → Outcome (TLazyConstruct T Args)
  move l = elim l.value [
    | arguments a ↦ refers (record { value = arguments a; constructions = 0 })
    | memory o ↦ terminates
  ]

  -- `~TLazyConstruct`: the memory destroys its object.
  unfoldable pub destroy : TLazyConstruct T Args → Outcome (Unit {0})
  destroy l = elim l.value [
    | arguments a ↦ refers tt
    | memory (some t) ↦ refers tt
    | memory none ↦ undefined
  ]
