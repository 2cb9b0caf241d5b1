-- ===== src/Uci/Sessions.antt =====
-- The contexts of libuci in the functions of uci_c/src/main.c: which calls are allowed, and what is
-- freed.
use linux_c_code.Base.{
  ◌≡◌, refl, ap, true, Option, none, some, List, [], ◌∷◌, ◌++◌, arith, option_case,
}
use linux_c_code.Base.Int.{ℤ}
use linux_c_code.Uci.{
  Text, Section, Library, Call, Ran, returned, crashed, Session, with_package, step, session,
  no_context, clean,
}
use linux_c_code.Uci.Change.{
  opened, closed, delete_found, anonsection_loop, delect_one_anonsection, hello_path,
}
use linux_c_code.Uci.Query.{Answer, search, lfuci_get_first_option_by_stype}

further :
    (o : Option Session) (s' : Session) (xs ys : List Call)
    → elim o as (λ _. Option Session) [ none ↦ none | some t ↦ session t xs ] ≡ some s'
    → ((t : Session) → session t xs ≡ some s' → session t (xs ++ ys) ≡ session s' ys)
    → elim o as (λ _. Option Session) [ none ↦ none | some t ↦ session t (xs ++ ys) ]
      ≡ session s' ys
further none s' xs ys e h = absurd (ground (arith, e))
further (some t) s' xs ys e h = h t e

session-append :
    (s s' : Session) (xs ys : List Call)
    → session s xs ≡ some s'
    → session s (xs ++ ys) ≡ session s' ys
unfolding session
session-append s s' [] ys e =
    ap
      (λ (o : Option Session). elim o as (λ _. Option Session) [
        | none ↦ none
        | some t ↦ session t ys
      ])
      e
session-append s s' (x ∷ xs) ys e = further (step s x) s' xs ys e (λ t. session-append t s' xs ys)

search-session :
    (lib : Library) (type option : Text) (ss : List Section)
    → session with_package (search lib type option ss).calls ≡ some with_package
unfolding search session step
search-session lib type option [] = refl
search-session lib type option (s ∷ ss) =
    let ih = search-session lib type option ss in ground (arith, ih)

delete_found-session :
    (lib : Library) (s : Section) → session with_package (delete_found lib s).1 ≡ some with_package
unfolding delete_found session step
delete_found-session lib s = ground arith

loop-session :
    (lib : Library) (cid : Text) (ss : List Section)
    → session with_package (anonsection_loop lib cid ss).1 ≡ some with_package
unfolding anonsection_loop session step
loop-session lib cid [] = refl
loop-session lib cid (s ∷ ss) =
    let ih = loop-session lib cid ss in let f = delete_found-session lib s in ground (arith, ih, f)

-- Every run that returns is in order.
abbrev pub Clean : Ran → Type 0
Clean (returned r cs) = clean cs ≡ true
Clean (crashed cs) = Unit

between :
    (cs : List Call)
    → session with_package cs ≡ some with_package
    → clean (opened ++ (cs ++ closed)) ≡ true
unfolding clean session step
between cs e = ap no_context (session-append with_package with_package cs closed e)

-- The run returns, and is in order.
abbrev pub ReturnsClean : Ran → Type 0
ReturnsClean r = (code : ℤ) × (cs : List Call) × (r ≡ returned code cs) × (clean cs ≡ true)

returns_clean : (code : ℤ) (cs : List Call) → clean cs ≡ true → ReturnsClean (returned code cs)
returns_clean code cs e = (code, cs, refl, e)

lfuci_get_first_option_by_stype-Clean :
    (lib : Library) (packag type option : Text)
    → lib.alloc_context ≡ true
    → ReturnsClean (lfuci_get_first_option_by_stype lib packag type option).ran
unfolding clean session step lfuci_get_first_option_by_stype
lfuci_get_first_option_by_stype-Clean lib packag type option h = rw h (
    option_case (λ (a : Answer). ReturnsClean a.ran) (lib.load packag) (returns_clean _ _ refl)
      (λ sections. returns_clean _ _ (
        between (search lib type option sections).calls (search-session lib type option sections))))

delect_one_anonsection-Clean :
    (lib : Library) (cid : Text) → lib.alloc_context ≡ true → Clean (delect_one_anonsection lib cid)
unfolding clean session step delect_one_anonsection
delect_one_anonsection-Clean lib cid h = rw h (
    option_case Clean (lib.load hello_path) refl (λ sections.
      option_case Clean (anonsection_loop lib cid sections).0 tt
        (λ code. between (anonsection_loop lib cid sections).1 (loop-session lib cid sections))))

-- When the context is allocated, and whatever else libuci answers: `lfuci_get_first_option_by_stype`
-- returns, and it keeps to the life of its context, as `delect_one_anonsection` does when it returns: no
-- call comes after the context's end or without a loaded package, and the context is freed.
pub calls-Clean :
    (lib : Library) (packag type option cid : Text)
    → lib.alloc_context ≡ true
    → ReturnsClean (lfuci_get_first_option_by_stype lib packag type option).ran
      × Clean (delect_one_anonsection lib cid)
calls-Clean lib packag type option cid h = (
  lfuci_get_first_option_by_stype-Clean lib packag type option h,
  delect_one_anonsection-Clean lib cid h,
)
