-- ===== src/Uci/Faults.antt =====
-- When the functions of uci_c/src/main.c use a context of libuci after its end, or do not free it.
use linux_c_code.Base.{
  zero, ◌≡◌, refl, Bool, true, false, Option, none, some, List, [], ◌∷◌, ◌++◌, if◌then◌else◌,
  if_case, if_true_case, option_case,
}
use linux_c_code.Base.Int.{pos, negsuc}
use linux_c_code.Uci.{
  Text, Section, Library, Call, lookup, save, commit, get_errorstr, Ran, returned, step, session,
  clean, calls_of,
}
use linux_c_code.Uci.Change.{
  opened, closed, not_loaded, add_new_section, delete_section, uci_delete_option,
  uci_set_option_string,
}
use linux_c_code.Uci.Query.{Answer, lfuci_get_option}

abbrev pub succeeded : Ran → Bool
succeeded (returned (pos zero) cs) = true
succeeded _ = false

-- The calls are allowed and no context is left exactly if the result is 0.
abbrev CleanIfZero : Ran → Type 0
CleanIfZero r = clean (calls_of r) ≡ succeeded r

delete_section-clean :
    (lib : Library) (packag section : Text)
    → lib.alloc_context ≡ true
    → CleanIfZero (delete_section lib packag section)
unfolding clean session step delete_section
delete_section-clean lib packag section h = if_true_case CleanIfZero lib.alloc_context _ _ h (
    option_case CleanIfZero (lib.load packag) refl (λ sections.
      option_case CleanIfZero (lib.lookup_section packag section) refl
        (λ sec. if_case CleanIfZero (lib.delete packag section none) refl refl)))

uci_delete_option-clean :
    (lib : Library) (packag section option : Text)
    → lib.alloc_context ≡ true
    → CleanIfZero (uci_delete_option lib packag section option)
unfolding clean session step uci_delete_option
uci_delete_option-clean lib packag section option h =
    if_true_case CleanIfZero lib.alloc_context _ _ h
      (option_case CleanIfZero (lib.load packag) refl (λ sections. refl))

-- With a context: the calls of `delete_section` and of `uci_delete_option` are in order, and the context
-- is freed, exactly when the result is 0.
pub delete_calls :
    (lib : Library) (packag section option : Text)
    → lib.alloc_context ≡ true
    → CleanIfZero (delete_section lib packag section)
      × CleanIfZero (uci_delete_option lib packag section option)
delete_calls lib packag section option h =
    (delete_section-clean lib packag section h, uci_delete_option-clean lib packag section option h)

abbrev pub is_loaded : Option (List Section) → Bool
is_loaded none = false
is_loaded (some ss) = true

-- Whether `uci_set_option_string` gets as far as a call of `uci_set` that fails.
abbrev pub sets : Option (List Section) → Option Section → Bool → Bool
sets none s b = false
sets (some ss) none b = true
sets (some ss) (some s) b = b

set_report :
    (load : Option (List Section)) (sec : Option Section) (fine : Bool) (option value : Text)
    → clean (
        calls_of (elim load as (λ _. Ran) [
          | none ↦ returned (negsuc 0) (not_loaded ++ (get_errorstr ∷ []))
          | some sections ↦ elim sec [
            | none ↦ returned (negsuc 0) (opened ++ (lookup ∷ closed))
            | some sec ↦
                if fine
                then returned
                    (pos 0)
                    (opened ++ (lookup ∷ Call.set option value ∷ save ∷ commit ∷ closed))
                else returned
                    (negsuc 0)
                    (opened ++ (lookup ∷ Call.set option value ∷ (closed ++ (get_errorstr ∷ []))))
          ]
        ]))
      ≡ sets load sec fine
unfolding clean session step
set_report none sec fine option value = refl
set_report (some ss) none fine option value = refl
set_report (some ss) (some s) true option value = refl
set_report (some ss) (some s) false option value = refl

-- With a context: the calls of `uci_set_option_string` are in order, and the context is freed, unless
-- the package is not loaded or `uci_set` fails.
pub uci_set_option_string-clean :
    (lib : Library) (packag section option value : Text)
    → lib.alloc_context ≡ true
    → clean (calls_of (uci_set_option_string lib packag section option value))
      ≡ sets
          (lib.load packag)
          (lib.lookup_section packag section)
          (lib.set packag section option value)
unfolding uci_set_option_string
uci_set_option_string-clean lib packag section option value h =
    if_true_case
      (λ r.
        clean (calls_of r)
        ≡ sets (lib.load packag) (lib.lookup_section packag section)
            (lib.set packag section option value))
      lib.alloc_context _ _ h
      (set_report (lib.load packag) (lib.lookup_section packag section)
        (lib.set packag section option value) option value)

get_report :
    (load : Option (List Section)) (a : Answer) (b : List Section → Answer)
    → clean (calls_of a.ran) ≡ false
    → ((ss : List Section) → clean (calls_of (b ss).ran) ≡ true)
    → clean (calls_of (elim load as (λ _. Answer) [ none ↦ a | some ss ↦ b ss ]).ran)
      ≡ is_loaded load
get_report none a b h k = h
get_report (some ss) a b h k = k ss

lfuci_get_option-clean :
    (lib : Library) (packag section option : Text)
    → lib.alloc_context ≡ true
    → clean (calls_of (lfuci_get_option lib packag section option).ran)
      ≡ is_loaded (lib.load packag)
unfolding lfuci_get_option clean session step
lfuci_get_option-clean lib packag section option h =
    if_true_case (λ (a : Answer). clean (calls_of a.ran) ≡ is_loaded (lib.load packag))
      lib.alloc_context _ _ h
      (get_report (lib.load packag) _ _ refl (λ ss.
        option_case (λ (a : Answer). clean (calls_of a.ran) ≡ true)
          (lib.lookup_section packag section) refl
          (λ sec.
            option_case (λ (a : Answer). clean (calls_of a.ran) ≡ true)
              (lib.lookup_option sec option) refl (λ v. refl))))

load_report :
    (load : Option (List Section)) (a : Ran) (b : List Section → Ran)
    → clean (calls_of a) ≡ false
    → ((ss : List Section) → clean (calls_of (b ss)) ≡ true)
    → clean (calls_of (elim load as (λ _. Ran) [ none ↦ a | some ss ↦ b ss ])) ≡ is_loaded load
load_report none a b h k = h
load_report (some ss) a b h k = k ss

add_new_section-clean :
    (lib : Library) (packag section : Text)
    → lib.alloc_context ≡ true
    → clean (calls_of (add_new_section lib packag section)) ≡ is_loaded (lib.load packag)
unfolding add_new_section clean session step
add_new_section-clean lib packag section h =
    if_true_case (λ r. clean (calls_of r) ≡ is_loaded (lib.load packag)) lib.alloc_context _ _ h
      (load_report (lib.load packag) _ _ refl
        (λ ss. if_case (λ r. clean (calls_of r) ≡ true) (lib.lookup_package packag) refl refl))

-- With a context: the calls of `lfuci_get_option` and of `add_new_section` are in order, and the context
-- is freed, exactly when the package is loaded.
pub load_calls :
    (lib : Library) (packag section option : Text)
    → lib.alloc_context ≡ true
    → (clean (calls_of (lfuci_get_option lib packag section option).ran)
        ≡ is_loaded (lib.load packag))
      × (clean (calls_of (add_new_section lib packag section)) ≡ is_loaded (lib.load packag))
load_calls lib packag section option h =
    (lfuci_get_option-clean lib packag section option h, add_new_section-clean lib packag section h)
