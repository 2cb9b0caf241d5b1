-- ===== src/DlList/Tests.antt =====
-- A list of dllist/src/dllist.h in a store, and the theorems at it.
use linux_c_code.Base.{true, ℕ, ◌≡◌, refl, [], ◌∷◌, arith, false}
use linux_c_code.DlList.{set_next, set_prev, splice_init, Heap, init, add, add_tail, del}
use linux_c_code.DlList.Ring.{distinct, mem, IsRing}
use linux_c_code.DlList.Insert.{init-IsRing, add-IsRing, add_tail-IsRing}
use linux_c_code.DlList.Remove.{del-IsRing}
use linux_c_code.DlList.Splice.{splice_init-IsRing}

abbrev blank : Heap
blank = record { next = λ p. 0; prev = λ p. 0 }

-- The list with the head 1 and the nodes 2, 3 and 4.
abbrev three : Heap
three = add_tail 1 4 (add_tail 1 3 (add_tail 1 2 (init 1 blank)))

two-IsRing : IsRing (add_tail 1 3 (add_tail 1 2 (init 1 blank))) 1 (2 ∷ 3 ∷ [])
unfolding mem
two-IsRing =
    add_tail-IsRing (add_tail 1 2 (init 1 blank)) 1 (2 ∷ []) 3
      (add_tail-IsRing (init 1 blank) 1 [] 2 (init-IsRing 1 blank) refl) refl

three-IsRing : IsRing three 1 (2 ∷ 3 ∷ 4 ∷ [])
unfolding mem
three-IsRing =
    add_tail-IsRing (add_tail 1 3 (add_tail 1 2 (init 1 blank))) 1 (2 ∷ 3 ∷ []) 4 two-IsRing refl

del-IsRing_example :
    IsRing (del 3 three) 1 (2 ∷ 4 ∷ []) × ((del 3 three).next 3 ≡ 0) × ((del 3 three).prev 3 ≡ 0)
del-IsRing_example = del-IsRing three 1 (2 ∷ []) 3 (4 ∷ []) three-IsRing

-- A second list with the head 10 and the node 11.
abbrev both : Heap
both = add 10 11 (init 10 three)

one-IsRing : IsRing both 10 (11 ∷ [])
unfolding mem
one-IsRing = add-IsRing (init 10 three) 10 [] 11 (init-IsRing 10 three) refl

three_kept : IsRing both 1 (2 ∷ 3 ∷ 4 ∷ [])
unfolding add_tail add init set_next set_prev distinct mem
three_kept = record { arc = (refl, refl, (refl, refl, (refl, refl, (refl, refl)))); apart = refl }

apart_lists : (q : ℕ) → mem q (1 ∷ 2 ∷ 3 ∷ 4 ∷ []) ≡ true → mem q (10 ∷ 11 ∷ []) ≡ false
unfolding mem
apart_lists q h = ground arith

splice_init-IsRing_example :
    IsRing (splice_init 1 10 both) 10 (2 ∷ 3 ∷ 4 ∷ 11 ∷ []) × IsRing (splice_init 1 10 both) 1 []
splice_init-IsRing_example =
    splice_init-IsRing both 1 10 (2 ∷ 3 ∷ 4 ∷ []) (11 ∷ []) three_kept one-IsRing apart_lists
