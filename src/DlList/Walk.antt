-- ===== src/DlList/Walk.antt =====
-- Walks along the lists of dllist/src/dllist.h.
use linux_c_code.Base.{
  ℕ, zero, suc, ◌+◌, ◌≤◌, ◌≡◌, ap, ◌∙◌, false, some, List, [], ◌∷◌, ◌==◌, arith, length,
}
use linux_c_code.DlList.{Heap, empty, len, len_loop}
use linux_c_code.DlList.Ring.{mem, distinct, Arc, IsRing}

len_loop-Arc :
    (fuel l a count : ℕ) (h : Heap) (xs : List ℕ)
    → Arc h a xs l
    → mem l xs ≡ false
    → length xs ≤ fuel
    → len_loop fuel l (h.next a) count h ≡ some (count + length xs)
unfolding len_loop mem
len_loop-Arc zero l a count h [] c m f = ground arith
len_loop-Arc (suc fuel) l a count h [] c m f = ground arith
len_loop-Arc zero l a count h (x ∷ xs) c m f = absurd (omega arith)
len_loop-Arc (suc fuel) l a count h (x ∷ xs) c m f =
    let n = c.0 in
    let rest = len_loop-Arc fuel l x (count + 1) h xs c.2 (ground arith) (omega arith) in
    rw n (ground (arith, rest))

-- `dl_list_len` of a list ends, after one round for each node, and returns how many nodes there are.
pub len-IsRing :
    (h : Heap) (l : ℕ) (xs : List ℕ) (fuel : ℕ)
    → IsRing h l xs
    → length xs ≤ fuel
    → len fuel l h ≡ some (length xs)
unfolding len distinct
len-IsRing h l xs fuel r f =
    let d = r.apart in len_loop-Arc fuel l l 0 h xs r.arc (ground arith) f ∙ ap some (omega arith)

-- `dl_list_empty` is true exactly for a list without nodes.
pub empty-IsRing : (h : Heap) (l : ℕ) (xs : List ℕ) → IsRing h l xs → empty l h ≡ (length xs == 0)
unfolding empty distinct mem
empty-IsRing h l [] r = let n = r.arc.0 in ground arith
empty-IsRing h l (x ∷ xs) r = let n = r.arc.0 in let d = r.apart in ground arith
