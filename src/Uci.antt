-- ===== src/Uci.antt =====
-- The functions of uci_c/src/main.c around libuci. The library is a parameter: what its calls answer.
-- A function gives its result and the calls that it makes, in order.
pub mod Change
pub mod Query
pub mod Sessions
pub mod Faults
pub mod First
mod Tests
use linux_c_code.Base.{
  ℕ, Bool, true, false, ◌&&◌, Option, none, some, List, [], ◌∷◌, ◌==◌, if◌then◌else◌,
}
use linux_c_code.Base.Int.{ℤ}

-- Strings are lists of bytes, without the terminator.
abbrev pub Text : Type 0
Text = List ℕ

-- `strcmp(s, t) == 0`
unfoldable pub strcmp_equal : Text → Text → Bool
strcmp_equal [] [] = true
strcmp_equal (a ∷ as') (b ∷ bs) = a == b && strcmp_equal as' bs
strcmp_equal _ _ = false

-- What the code reads of a `struct uci_option`: a string, the names in a list, or another type.
pub data Value : Type 0 where
  string : Text → Value
  list : List Text → Value
  unknown : Value

-- What the code reads of a `struct uci_section`.
pub record Section : Type 0 where
  pub name : Text
  pub type : Text

-- What libuci answers. For the calls that give a code the Boolean is UCI_OK.
pub record Library : Type 0 where
  pub alloc_context : Bool
  -- The sections of the package, if it is loaded and not NULL.
  pub load : (packag : Text) → Option (List Section)
  pub lookup_package : (packag : Text) → Bool
  pub lookup_section : (packag section : Text) → Option Section
  pub lookup_option : Section → (option : Text) → Option Value
  pub lookup_option_string : Section → (option : Text) → Option Text
  pub delete : (packag section : Text) → (option : Option Text) → Bool
  pub set : (packag section option value : Text) → Bool

-- A package pointer: NULL, of a loaded package, or never assigned.
pub data Handle : Type 0 where
  null loaded unassigned : Handle

-- A call of libuci.
pub data Call : Type 0 where
  alloc_context : (fine : Bool) → Call
  load : (fine : Bool) → Call
  -- A call that reads or changes a loaded package.
  lookup save commit : Call
  delete : (section : Text) → (option : Option Text) → Call
  add_section : (type : Text) → Call
  set : (option value : Text) → Call
  unload : Handle → Call
  free_context : Call
  get_errorstr : Call

-- How a function ends, with the calls that it has made.
pub data Ran : Type 0 where
  returned : ℤ → List Call → Ran
  -- It reads through a pointer that is NULL.
  crashed : List Call → Ran

-- The life of a context, with or without a loaded package.
pub data Session : Type 0 where
  absent fresh with_package freed : Session

-- Whether a context allows the call, and what it is then.
unfoldable pub step : Session → Call → Option Session
step absent (alloc_context true) = some fresh
step absent (alloc_context false) = some absent
step fresh (load true) = some with_package
step fresh (load false) = some fresh
step fresh (unload null) = some fresh
step fresh get_errorstr = some fresh
step fresh free_context = some freed
step with_package lookup = some with_package
step with_package save = some with_package
step with_package commit = some with_package
step with_package (delete section option) = some with_package
step with_package (add_section type) = some with_package
step with_package (set option value) = some with_package
step with_package get_errorstr = some with_package
step with_package (unload loaded) = some fresh
step with_package free_context = some freed
step _ _ = none

unfoldable pub session : Session → List Call → Option Session
session s [] = some s
session s (c ∷ cs) = elim (step s c) [ none ↦ none | some s' ↦ session s' cs ]

-- The end of a function: no context is left.
abbrev pub no_context : Option Session → Bool
no_context (some absent) = true
no_context (some freed) = true
no_context _ = false

-- Every call is allowed, and every context is freed.
unfoldable pub clean : List Call → Bool
clean cs = no_context (session absent cs)

abbrev pub calls_of : Ran → List Call
calls_of (returned r cs) = cs
calls_of (crashed cs) = cs
