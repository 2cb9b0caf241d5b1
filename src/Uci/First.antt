-- ===== src/Uci/First.antt =====
-- What `lfuci_get_first_option_by_stype` of uci_c/src/main.c finds, against a description by lists.
use linux_c_code.Base.{
  true, Bool, true, false, Option, none, some, List, [], ◌∷◌, if◌then◌else◌, map,
}
use linux_c_code.Base.Int.{ℤ, pos, negsuc}
use linux_c_code.Uci.{Text, strcmp_equal, Value, string, list, unknown, Section, Library}

-- The sections of a type, in their order.
unfoldable pub of_type : Text → List Section → List Section
of_type type [] = []
of_type type (s ∷ ss) =
    let rest = of_type type ss in if strcmp_equal type s.type then s ∷ rest else rest

-- The first value that is there.
unfoldable pub first_some : List (Option Value) → Option Value
first_some [] = none
first_some (none ∷ os) = first_some os
first_some (some v ∷ os) = some v

-- The result that the comment above the function documents, for the sections of the type and the
-- value; an option that is neither a string nor a list is an error.
unfoldable pub documented : List Section → Option Value → ℤ
documented [] v = negsuc 1
documented (s ∷ ss) none = negsuc 2
documented (s ∷ ss) (some (string t)) = pos 0
documented (s ∷ ss) (some (list ts)) = pos 0
documented (s ∷ ss) (some unknown) = negsuc 0

abbrev not_empty : List Section → Bool
not_empty [] = false
not_empty (s ∷ ss) = true

module _ (lib : Library) (type option : Text) where
  abbrev pub values : List Section → List (Option Value)
  values ss = map (λ s. lib.lookup_option s option) ss
