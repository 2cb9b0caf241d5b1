-- ===== src/DlList/Replace.antt =====
-- Replacing a node in the lists of dllist/src/dllist.h.
use linux_c_code.Base.{
  ℕ, ◌≡◌, ◌≢◌, sym, true, false, List, [], ◌∷◌, ◌++◌, ◌==◌, arith, if◌then◌else◌,
}
use linux_c_code.DlList.{Heap, set_next, set_prev, replace}
use linux_c_code.DlList.Ring.{
  mem, distinct, Arc, IsRing, Arc-split, Arc-join, Arc-frame, mem-append, mem_ne, Arc-next,
  Arc-prev, distinct-Apart, Apart-target,
}

replace-next :
    (old new : ℕ) (h : Heap) (q : ℕ)
    → h.next old ≢ old
    → (replace old new h).next q
      ≡ (if q == h.prev old then new else (if q == new then h.next old else h.next q))
unfolding replace set_next set_prev
replace-next old new h q ne = ground arith

replace-prev :
    (old new : ℕ) (h : Heap) (q : ℕ)
    → h.next old ≢ old
    → (replace old new h).prev q
      ≡ (if q == new then h.prev old else (if q == h.next old then new else h.prev q))
unfolding replace set_next set_prev
replace-prev old new h q ne = ground arith

-- The arc before the old node, which now leads to the new one.
replace-front :
    (h : Heap) (old new a : ℕ) (xs : List ℕ)
    → h.next old ≢ old
    → Arc h a xs old
    → distinct (a ∷ xs) ≡ true
    → mem new (a ∷ xs) ≡ false
    → mem (h.next old) xs ≡ false
    → Arc (replace old new h) a xs new
unfolding mem distinct
replace-front h old new a [] ne c d m n = (
  ground (arith, c.1, replace-next old new h a ne),
  ground (arith, c.1, replace-prev old new h new ne),
)
replace-front h old new a (x ∷ xs) ne c d m n =
    let back : mem (h.prev old) (x ∷ xs) ≡ true = Arc-prev h x xs old c.2 in
    let fresh : mem a (x ∷ xs) ≡ false = ground arith in
    let apart = mem_ne (h.prev old) a (x ∷ xs) back fresh in
    (
      ground (arith, c.0, replace-next old new h a ne),
      ground (arith, c.1, replace-prev old new h x ne),
      replace-front h old new x xs ne c.2 (ground arith) (ground arith) (ground arith),
    )

-- The arc behind the old node, which now begins at the new one.
replace-back :
    (h : Heap) (old new : ℕ) (ys : List ℕ) (b : ℕ)
    → h.next old ≢ old
    → Arc h old ys b
    → mem new ys ≡ false
    → new ≢ b
    → new ≢ h.prev old
    → mem (h.prev old) ys ≡ false
    → distinct ys ≡ true
    → mem b ys ≡ false
    → Arc (replace old new h) new ys b
unfolding mem distinct
replace-back h old new [] b ne c m nb np p d e = (
  ground (arith, c.0, replace-next old new h new ne),
  ground (arith, c.0, replace-prev old new h b ne),
)
replace-back h old new (y ∷ ys) b ne c m nb np p d e =
    let first : mem y (ys ++ (b ∷ [])) ≡ false = ground (arith, mem-append y ys (b ∷ [])) in
    let target : mem new (ys ++ (b ∷ [])) ≡ false = ground (arith, mem-append new ys (b ∷ [])) in
    (
      ground (arith, c.0, replace-next old new h new ne),
      ground (arith, c.0, replace-prev old new h y ne),
      Arc-frame h (replace old new h) y ys b
          (λ q k. ground (
            arith,
            replace-next old new h q ne,
            mem_ne q new (y ∷ ys) k m,
            mem_ne q (h.prev old) (y ∷ ys) k p,
          ))
          (λ q k. ground (
            arith,
            c.0,
            replace-prev old new h q ne,
            mem_ne q new (ys ++ (b ∷ [])) k target,
            mem_ne q y (ys ++ (b ∷ [])) k first,
          ))
          c.2,
    )

replace-distinct :
    (us : List ℕ) (old new : ℕ) (vs : List ℕ)
    → distinct (us ++ (old ∷ vs)) ≡ true
    → mem new (us ++ (old ∷ vs)) ≡ false
    → distinct (us ++ (new ∷ vs)) ≡ true
unfolding mem distinct
replace-distinct [] old new vs d m = ground arith
replace-distinct (u ∷ us) old new vs d m =
    let r = replace-distinct us old new vs (ground arith) (ground arith) in
    ground (arith, mem-append u us (old ∷ vs), mem-append u us (new ∷ vs))

-- `dl_list_replace` puts the new node in the place of the old one, and moves no other.
pub replace-IsRing :
    (h : Heap) (l : ℕ) (xs : List ℕ) (old : ℕ) (ys : List ℕ) (new : ℕ)
    → IsRing h l (xs ++ (old ∷ ys))
    → mem new (l ∷ (xs ++ (old ∷ ys))) ≡ false
    → IsRing (replace old new h) l (xs ++ (new ∷ ys))
unfolding mem distinct
replace-IsRing h l xs old ys new r fresh =
    let (c1, c2) = Arc-split h l xs old ys l r.arc in
    let a = distinct-Apart (l ∷ xs) old ys r.apart in
    let before = a.before in
    let parts = mem-append new xs (old ∷ ys) in
    let back = Arc-prev h l xs old c1 in
    let target : mem (h.next old) (xs ++ (old ∷ [])) ≡ false =
      Apart-target l xs old ys (h.next old) a (Arc-next h old ys l c2) in
    let t = mem-append (h.next old) xs (old ∷ []) in
    let ne : h.next old ≢ old = ground arith in
    let ahead : mem new (l ∷ xs) ≡ false = ground arith in
    let apart : h.prev old ≢ new = mem_ne (h.prev old) new (l ∷ xs) back ahead in
    record {
      arc =
          Arc-join (replace old new h) l xs new ys l
            (replace-front h old new l xs ne c1 a.before ahead (ground arith))
            (replace-back h old new ys l ne c2 (ground arith) (ground arith) (λ e. apart (sym e))
              (a.disjoint (h.prev old) back) a.after (a.disjoint l (ground arith)));
      apart = replace-distinct (l ∷ xs) old new ys r.apart fresh;
    }
