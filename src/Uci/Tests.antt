-- ===== src/Uci/Tests.antt =====
-- Runs of the functions of uci_c/src/main.c on a small package, and the theorems at these.
use linux_c_code.Base.{◌≡◌, refl, true, false, none, some, [], ◌∷◌, if◌then◌else◌}
use linux_c_code.Uci.{Text, strcmp_equal, string, Section, Library, clean, calls_of}
use linux_c_code.Uci.Change.{
  system_setion, delete_section, uci_delete_option, delect_one_anonsection, anonsection_loop,
}
use linux_c_code.Uci.Query.{lfuci_get_first_option_by_stype}
use linux_c_code.Uci.Sessions.{Clean, ReturnsClean, calls-Clean}
use linux_c_code.Uci.Faults.{succeeded, delete_calls}

-- "a" and "globe".
abbrev name_a : Text
name_a = 97 ∷ []

abbrev globe : Text
globe = 103 ∷ 108 ∷ 111 ∷ 98 ∷ 101 ∷ []

abbrev first_section : Section
first_section = record { name = name_a; type = system_setion }

abbrev second_section : Section
second_section = record { name = globe; type = system_setion }

-- Two sections of a type; only the second one has options, and nothing can be deleted or set.
abbrev small : Library
small = record {
  alloc_context = true;
  load = λ packag. some (first_section ∷ second_section ∷ []);
  lookup_package = λ packag. true;
  lookup_section = λ packag section. some second_section;
  lookup_option = λ s option. if strcmp_equal s.name globe then some (string (49 ∷ [])) else none;
  lookup_option_string = λ s option. if strcmp_equal s.name globe then some (49 ∷ []) else none;
  delete = λ packag section option. false;
  set = λ packag section option value. false;
}

calls-Clean_example :
    ReturnsClean (lfuci_get_first_option_by_stype small name_a system_setion name_a).ran
    × Clean (delect_one_anonsection small name_a)
calls-Clean_example = calls-Clean small name_a system_setion name_a name_a refl

-- The first section has no option "agent": the code compares with NULL.
null_run : (anonsection_loop small name_a (first_section ∷ second_section ∷ [])).0 ≡ none
unfolding anonsection_loop strcmp_equal
null_run = refl

delete_calls_example :
    (clean (calls_of (delete_section small name_a globe))
      ≡ succeeded (delete_section small name_a globe))
    × (clean (calls_of (uci_delete_option small name_a globe name_a))
        ≡ succeeded (uci_delete_option small name_a globe name_a))
delete_calls_example = delete_calls small name_a globe name_a refl
