-- ===== src/Uci/Query.antt =====
-- The functions of uci_c/src/main.c that read a package.
use linux_c_code.Base.{
  if◌then◌else◌, Bool, true, false, Option, none, some, List, [], ◌∷◌, ◌++◌, if◌then◌else◌, map,
}
use linux_c_code.Base.Int.{ℤ, pos, negsuc}
use linux_c_code.Uci.{
  Text, strcmp_equal, Value, string, list, unknown, Section, Library, null, Call, lookup, unload,
  free_context, get_errorstr, Ran, returned,
}
use linux_c_code.Uci.Change.{null_context, opened, not_loaded, closed}

-- What is stored for the caller: nothing, the string, or the strings of the list.
pub record Answer : Type 0 where
  pub ran : Ran
  pub stored : Option Value

abbrev no_value : Ran → Answer
no_value r = record { ran = r; stored = none }

-- What the copy of an option stores.
abbrev pub copied : Value → Option Value
copied unknown = none
copied v = some v

-- `lfuci_get_option`; the caller's buffers are taken to be there and long enough.
unfoldable pub lfuci_get_option : Library → (packag section option : Text) → Answer
lfuci_get_option lib packag section option =
    if lib.alloc_context
    then (elim (lib.load packag) [
      | none ↦ no_value (returned (negsuc 0) (not_loaded ++ (get_errorstr ∷ [])))
      | some sections ↦ elim (lib.lookup_section packag section) [
        | none ↦ no_value (returned (negsuc 0) (opened ++ (lookup ∷ closed)))
        | some sec ↦ elim (lib.lookup_option sec option) [
          | none ↦ no_value (returned (negsuc 0) (opened ++ (lookup ∷ lookup ∷ closed)))
          | some v ↦ record {
            ran = returned (pos 0) (opened ++ (lookup ∷ lookup ∷ closed));
            stored = copied v;
          }
        ]
      ]
    ])
    else no_value (returned (negsuc 0) (Call.alloc_context false ∷ []))

-- `list_all_section`, with the names that it prints; it does not test its context, and
-- its result stands for returning.
unfoldable pub list_all_section : Library → (packag : Text) → List Text × Ran
list_all_section lib packag =
    if lib.alloc_context
    then (elim (lib.load packag) [
      | none ↦ ([], returned (pos 0) not_loaded)
      | some sections ↦ (map (λ s. s.name) sections, returned (pos 0) (opened ++ closed))
    ])
    else ([], null_context)

-- What the loop of `lfuci_get_first_option_by_stype` finds.
pub record Search : Type 0 where
  pub find_section_type_flag : Bool
  -- The option, with `find_option_flag`.
  pub option : Option Value
  pub calls : List Call

-- The loop, which is left at the first option.
unfoldable pub search : Library → (section_type option : Text) → List Section → Search
search lib section_type option [] = record {
  find_section_type_flag = false;
  option = none;
  calls = [];
}
search lib section_type option (s ∷ ss) =
    let rest = search lib section_type option ss in
    if strcmp_equal section_type s.type
    then (elim (lib.lookup_option s option) [
      | some v ↦ record { find_section_type_flag = true; option = some v; calls = lookup ∷ [] }
      | none ↦ record rest { find_section_type_flag = true; calls = lookup ∷ rest.calls }
    ])
    else rest

-- `res` after the loop: -1 from the start remains for an option of another type.
unfoldable pub search_code : Search → ℤ
search_code f =
    if f.find_section_type_flag
    then (elim f.option [
      | none ↦ negsuc 2
      | some v ↦ elim v [ string t ↦ pos 0 | list ts ↦ pos 0 | unknown ↦ negsuc 0 ]
    ])
    else negsuc 1

abbrev pub stored_option : Option Value → Option Value
stored_option none = none
stored_option (some v) = copied v

-- `lfuci_get_first_option_by_stype`, which does not test its context.
unfoldable pub lfuci_get_first_option_by_stype :
    Library → (packag section_type option : Text) → Answer
lfuci_get_first_option_by_stype lib packag section_type option =
    if lib.alloc_context
    then (elim (lib.load packag) [
      | none ↦ no_value (returned (negsuc 0) (not_loaded ++ (unload null ∷ free_context ∷ [])))
      | some sections ↦
          let f = search lib section_type option sections in
          record {
            ran = returned (search_code f) (opened ++ (f.calls ++ closed));
            stored = stored_option f.option;
          }
    ])
    else no_value null_context
