-- ===== src/Uci/Change.antt =====
-- The functions of uci_c/src/main.c that change a package.
use linux_c_code.Base.{true, false, Option, none, some, List, [], ◌∷◌, ◌++◌, if◌then◌else◌}
use linux_c_code.Base.Int.{ℤ, pos, negsuc}
use linux_c_code.Uci.{
  Text, strcmp_equal, Section, Library, Handle, loaded, unassigned, Call, lookup, save, commit,
  get_errorstr, free_context, unload, add_section, Ran, returned, crashed,
}

-- "hello", "/etc/config/hello", "system_setion" and "agent".
abbrev pub hello : Text
hello = 104 ∷ 101 ∷ 108 ∷ 108 ∷ 111 ∷ []

abbrev pub hello_path : Text
hello_path =
    47 ∷ 101 ∷ 116 ∷ 99 ∷ 47 ∷ 99 ∷ 111 ∷ 110 ∷ 102 ∷ 105 ∷ 103 ∷ 47 ∷ 104 ∷ 101 ∷ 108 ∷ 108 ∷ 111
    ∷ []

abbrev pub system_setion : Text
system_setion = 115 ∷ 121 ∷ 115 ∷ 116 ∷ 101 ∷ 109 ∷ 95 ∷ 115 ∷ 101 ∷ 116 ∷ 105 ∷ 111 ∷ 110 ∷ []

abbrev pub agent : Text
agent = 97 ∷ 103 ∷ 101 ∷ 110 ∷ 116 ∷ []

-- The calls of the common start and of the ends.
abbrev pub opened : List Call
opened = Call.alloc_context true ∷ Call.load true ∷ []

abbrev pub not_loaded : List Call
not_loaded = Call.alloc_context true ∷ Call.load false ∷ []

abbrev pub closed : List Call
closed = unload loaded ∷ free_context ∷ []

-- A section that matches, from `uci_lookup_section` on, up to the label `cleanupd`.
unfoldable pub delete_found : Library → Section → ℤ × List Call
delete_found lib s = elim (lib.lookup_section hello_path s.name) [
  | none ↦ (pos 0, lookup ∷ [])
  | some sec ↦
      if lib.delete hello s.name none
      then (pos 0, lookup ∷ Call.delete s.name none ∷ save ∷ commit ∷ [])
      else (negsuc 1, lookup ∷ Call.delete s.name none ∷ [])
]

-- The loop of `delect_one_anonsection`; `none` is a `strcmp` with NULL. The results of `uci_save` and
-- `uci_commit` are not assigned to `ret`.
unfoldable pub anonsection_loop : Library → (cid : Text) → List Section → Option ℤ × List Call
anonsection_loop lib cid [] = (some (pos 0), [])
anonsection_loop lib cid (s ∷ ss) =
    let (r, cs) = anonsection_loop lib cid ss in
    if strcmp_equal system_setion s.type
    then (elim (lib.lookup_option_string s agent) [
      | none ↦ (none, lookup ∷ [])
      | some value ↦
          if strcmp_equal cid value
          then (some (delete_found lib s).0, lookup ∷ (delete_found lib s).1)
          else (r, lookup ∷ cs)
    ])
    else (r, lookup ∷ cs)

-- What follows when a function hands a context that is NULL to libuci.
abbrev pub null_context : Ran
null_context = crashed (Call.alloc_context false ∷ [])

-- `delect_one_anonsection`, which does not test its context.
unfoldable pub delect_one_anonsection : Library → (cid : Text) → Ran
delect_one_anonsection lib cid =
    if lib.alloc_context
    then (elim (lib.load hello_path) [
      | none ↦ returned (negsuc 0) (not_loaded ++ (free_context ∷ []))
      | some sections ↦
          let (r, cs) = anonsection_loop lib cid sections in
          elim r [
            | none ↦ crashed (opened ++ cs)
            | some code ↦ returned code (opened ++ (cs ++ closed))
          ]
    ])
    else null_context

-- "a", "7b", "b" and "hehllo".
abbrev pub option_a : Text
option_a = 97 ∷ []

abbrev pub value_a : Text
value_a = 55 ∷ 98 ∷ []

abbrev pub option_b : Text
option_b = 98 ∷ []

abbrev pub value_b : Text
value_b = 104 ∷ 101 ∷ 104 ∷ 108 ∷ 108 ∷ 111 ∷ []

-- `add_new_section`, which does not test its context.
unfoldable pub add_new_section : Library → (packag section : Text) → Ran
add_new_section lib packag section =
    if lib.alloc_context
    then (elim (lib.load packag) [
      | none ↦ returned (negsuc 0) not_loaded
      | some sections ↦
          if lib.lookup_package packag
          then returned (pos 0) (
              opened
              ++ (lookup
                  ∷ add_section section
                  ∷ Call.set option_a value_a
                  ∷ Call.set option_b value_b
                  ∷ commit
                  ∷ closed))
          else returned (pos 0) (opened ++ (lookup ∷ free_context ∷ []))
    ])
    else null_context

-- The label `error` of `delete_section` and `error_pkg` of `uci_delete_option`.
abbrev pub failed : Handle → List Call
failed h = unload h ∷ free_context ∷ get_errorstr ∷ []

-- `delete_section`
unfoldable pub delete_section : Library → (packag section : Text) → Ran
delete_section lib packag section =
    if lib.alloc_context
    then (elim (lib.load packag) [
      | none ↦ returned (negsuc 0) (not_loaded ++ failed unassigned)
      | some sections ↦ elim (lib.lookup_section packag section) [
        | none ↦ returned (negsuc 0) (opened ++ (lookup ∷ failed loaded))
        | some sec ↦
            if lib.delete packag section none
            then returned (pos 0)
                (opened ++ (lookup ∷ Call.delete section none ∷ save ∷ commit ∷ closed))
            else returned (negsuc 0) (opened ++ (lookup ∷ Call.delete section none ∷ failed loaded))
      ]
    ])
    else returned (negsuc 0) (Call.alloc_context false ∷ [])

-- `uci_delete_option`
unfoldable pub uci_delete_option : Library → (packag section option : Text) → Ran
uci_delete_option lib packag section option =
    if lib.alloc_context
    then (elim (lib.load packag) [
      | none ↦ returned (negsuc 0) (not_loaded ++ failed unassigned)
      | some sections ↦
          returned (pos 0) (opened ++ (Call.delete section (some option) ∷ save ∷ commit ∷ closed))
    ])
    else returned (negsuc 0) (Call.alloc_context false ∷ [])

-- `uci_set_option_string`
unfoldable pub uci_set_option_string : Library → (packag section option value : Text) → Ran
uci_set_option_string lib packag section option value =
    if lib.alloc_context
    then (elim (lib.load packag) [
      | none ↦ returned (negsuc 0) (not_loaded ++ (get_errorstr ∷ []))
      | some sections ↦ elim (lib.lookup_section packag section) [
        | none ↦ returned (negsuc 0) (opened ++ (lookup ∷ closed))
        | some sec ↦
            if lib.set packag section option value
            then returned (pos 0)
                (opened ++ (lookup ∷ Call.set option value ∷ save ∷ commit ∷ closed))
            else returned (negsuc 0)
                (opened ++ (lookup ∷ Call.set option value ∷ (closed ++ (get_errorstr ∷ []))))
      ]
    ])
    else returned (negsuc 0) (Call.alloc_context false ∷ [])
