-- ===== src/Meta.antt =====
-- The templates of include/uvexec/meta, which compute with lists of types. A C++ type is a number here: std::is_same_v
-- is the equality of the numbers.
pub mod Laws
mod Tests
use uvexec.Base.{ℕ, suc, Bool, Option, none, some, List, [], ◌∷◌, ltb, ◌==◌, if◌then◌else◌, length}

abbrev pub CppType : Type 0
CppType = ℕ

-- `TIndexOf<TSeek, Idx, Ts...>::Value`
unfoldable pub index_from : (seek : CppType) → (idx : ℕ) → List CppType → ℕ
index_from seek idx [] = idx
index_from seek idx (t ∷ ts) =
    let rest = index_from seek (suc idx) ts in if seek == t then idx else rest

-- `IndexOf<TSeek, Ts...>`
unfoldable pub index_of : (seek : CppType) → List CppType → ℕ
unfolding index_from
index_of seek ts = index_from seek 0 ts

-- `ContainsImpl`, and so `IsIn`.
unfoldable pub contains : (seek : CppType) → List CppType → Bool
unfolding index_of
contains seek ts = ltb (index_of seek ts) (length ts)

-- `BindFront`
unfoldable pub bind_front : CppType → List CppType → List CppType
bind_front t ts = t ∷ ts

-- A member function of one parameter, or of another number of them.
pub data Reference : Type 0 where
  no_reference lvalue rvalue : Reference

pub record Method : Type 0 where
  pub arguments : List CppType
  pub is_const : Bool
  pub is_volatile : Bool
  pub reference : Reference
  pub is_noexcept : Bool

-- `TMethodArg<TMethod>::TType`; there is no specialisation for a volatile one.
unfoldable pub method_arg : Method → Option CppType
method_arg m = elim m.arguments [
  | [] ↦ none
  | t ∷ rest ↦ elim rest [ [] ↦ if m.is_volatile then none else some t | u ∷ more ↦ none ]
]

-- What is called: a pointer to a function, or an object with these members of the name `operator()`.
pub data Callable : Type 0 where
  pointer : List CppType → Callable
  object : List Method → Callable

-- `TFnParameterType`; `&TFn::operator()` of an overloaded one is ambiguous.
unfoldable pub fn_parameter_type : Callable → Option CppType
unfolding method_arg
fn_parameter_type (pointer []) = none
fn_parameter_type (pointer (t ∷ [])) = some t
fn_parameter_type (pointer (t ∷ u ∷ ts)) = none
fn_parameter_type (object []) = none
fn_parameter_type (object (m ∷ [])) = method_arg m
fn_parameter_type (object (m ∷ n ∷ ms)) = none
