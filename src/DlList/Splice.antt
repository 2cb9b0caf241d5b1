-- ===== src/DlList/Splice.antt =====
-- Joining two lists of dllist/src/dllist.h.
use mathlib.Core.List.{append_assoc}
use mathlib.Core.Path.{subst}
use linux_c_code.Base.{
  length, ℕ, ◌≡◌, refl, sym, ◌∙◌, ◌≢◌, true, false, List, [], ◌∷◌, ◌++◌, ◌==◌, arith, inl, inr,
  Bool-cases, if◌then◌else◌,
}
use linux_c_code.DlList.{Heap, set_next, set_prev, init, join, splice_init, empty}
use linux_c_code.DlList.Ring.{
  mem, distinct, Arc, IsRing, Arc-split, Arc-join, Arc-frame, mem-append, mem_ne, Arc-next,
  distinct-Apart,
}
use linux_c_code.DlList.Insert.{ends, nothing, last, init-IsRing}
use linux_c_code.DlList.Remove.{IsRing-frame}
use linux_c_code.DlList.Walk.{empty-IsRing}

join-next :
    (l g : ℕ) (h : Heap) (q : ℕ)
    → (join l g h).next q
      ≡ (if q == h.prev l then h.next g else (if q == g then h.next l else h.next q))
unfolding join set_next set_prev
join-next l g h q = refl

join-prev :
    (l g : ℕ) (h : Heap) (q : ℕ)
    → (join l g h).prev q
      ≡ (if q == h.next g then h.prev l else (if q == h.next l then g else h.prev q))
unfolding join set_next set_prev
join-prev l g h q = refl

-- The nodes of `l` behind their new head.
moved-Arc :
    (h : Heap) (l g p : ℕ) (front : List ℕ)
    → Arc h l front p
    → h.prev l ≡ p
    → distinct (front ++ (p ∷ [])) ≡ true
    → mem g (front ++ (p ∷ [])) ≡ false
    → mem (h.next g) (front ++ (p ∷ [])) ≡ false
    → Arc (join l g h) g front p
unfolding mem distinct
moved-Arc h l g p [] c e d m n =
    (ground (arith, c.0, join-next l g h g), ground (arith, c.0, join-prev l g h p))
moved-Arc h l g p (y ∷ front) c e d m n =
    let a = distinct-Apart (y ∷ front) p [] d in
    let first : mem y (front ++ (p ∷ [])) ≡ false = ground arith in
    let np = a.not_before in
    let ng : mem g (y ∷ front) ≡ false = ground (arith, mem-append g front (p ∷ [])) in
    let ngp : g ≢ p = ground (arith, mem-append g front (p ∷ [])) in
    (
      ground (arith, c.0, join-next l g h g),
      ground (arith, c.0, join-prev l g h y),
      Arc-frame h (join l g h) y front p
          (λ q k.
            ground
              (arith, join-next l g h q, mem_ne q p (y ∷ front) k np, mem_ne q g (y ∷ front) k ng))
          (λ q k. ground (
            arith,
            c.0,
            join-prev l g h q,
            mem_ne q y (front ++ (p ∷ [])) k first,
            mem_ne q (h.next g) (front ++ (p ∷ [])) k (ground arith),
          ))
          c.2,
    )

-- The nodes of `g` behind the last node of `l`.
kept-Arc :
    (h : Heap) (l g p : ℕ) (ys : List ℕ)
    → Arc h g ys g
    → h.prev l ≡ p
    → distinct (g ∷ ys) ≡ true
    → mem p (g ∷ ys) ≡ false
    → mem (h.next l) (ys ++ (g ∷ [])) ≡ false
    → Arc (join l g h) p ys g
unfolding mem distinct
kept-Arc h l g p [] c e d m n =
    (ground (arith, c.0, join-next l g h p), ground (arith, c.0, join-prev l g h g))
kept-Arc h l g p (y ∷ ys) c e d m n =
    let ng : mem g (y ∷ ys) ≡ false = ground arith in
    let np : mem p (y ∷ ys) ≡ false = ground arith in
    let first : mem y (ys ++ (g ∷ [])) ≡ false = ground (arith, mem-append y ys (g ∷ [])) in
    (
      ground (arith, c.0, join-next l g h p),
      ground (arith, c.0, join-prev l g h y),
      Arc-frame h (join l g h) y ys g
          (λ q k.
            ground (arith, join-next l g h q, mem_ne q p (y ∷ ys) k np, mem_ne q g (y ∷ ys) k ng))
          (λ q k. ground (
            arith,
            c.0,
            join-prev l g h q,
            mem_ne q y (ys ++ (g ∷ [])) k first,
            mem_ne q (h.next l) (ys ++ (g ∷ [])) k (ground arith),
          ))
          c.2,
    )

distinct-append :
    (us vs : List ℕ)
    → distinct us ≡ true
    → distinct vs ≡ true
    → ((q : ℕ) → mem q us ≡ true → mem q vs ≡ false)
    → distinct (us ++ vs) ≡ true
unfolding mem distinct
distinct-append [] vs d e f = e
distinct-append (u ∷ us) vs d e f =
    let r = distinct-append us vs (ground arith) e (λ q m. f q (ground arith)) in
    let own : mem u vs ≡ false = f u (ground arith) in ground (arith, mem-append u us vs)

join-last :
    (h : Heap) (l g p : ℕ) (front ys : List ℕ)
    → IsRing h l (front ++ (p ∷ []))
    → IsRing h g ys
    → ((q : ℕ) → mem q (l ∷ (front ++ (p ∷ []))) ≡ true → mem q (g ∷ ys) ≡ false)
    → IsRing (join l g h) g ((front ++ (p ∷ [])) ++ ys)
unfolding mem distinct
join-last h l g p front ys r s f =
    let (c1, c2) = Arc-split h l front p [] l r.arc in
    let xs = front ++ (p ∷ []) in
    let rd = r.apart in
    let sd = s.apart in
    let own : distinct xs ≡ true = ground arith in
    let in_p : mem p xs ≡ true = ground (arith, mem-append p front (p ∷ [])) in
    let no_g : mem g xs ≡ false = elim (Bool-cases (mem g xs)) [
      | inl both ↦ absurd (ground (arith, f g))
      | inr only ↦ only
    ] in
    let at : mem (h.next g) (g ∷ ys) ≡ true =
      ground (arith, Arc-next h g ys g s.arc, mem-append (h.next g) ys (g ∷ [])) in
    let no_at : mem (h.next g) xs ≡ false = elim (Bool-cases (mem (h.next g) xs)) [
      | inl both ↦ absurd (ground (arith, f (h.next g)))
      | inr only ↦ only
    ] in
    let first : mem (h.next l) xs ≡ true = Arc-next h l front p c1 in
    let no_first : mem (h.next l) (ys ++ (g ∷ [])) ≡ false =
      ground (arith, f (h.next l), mem-append (h.next l) ys (g ∷ [])) in
    let no_p : mem p (g ∷ ys) ≡ false = ground (arith, f p) in
    let rest : distinct (xs ++ ys) ≡ true =
      distinct-append xs ys own (ground arith) (λ q m. ground (arith, f q)) in
    let head : mem g (xs ++ ys) ≡ false = ground (arith, mem-append g xs ys) in
    record {
      arc =
          subst (λ zs. Arc (join l g h) g zs g) (sym (append_assoc front (p ∷ []) ys))
            (Arc-join (join l g h) g front p ys g (moved-Arc h l g p front c1 c2.1 own no_g no_at)
              (kept-Arc h l g p ys s.arc c2.1 s.apart no_p no_first));
      apart = ground arith;
    }

not_empty : (front : List ℕ) (p : ℕ) → (length (front ++ (p ∷ [])) == 0) ≡ false
not_empty [] p = refl
not_empty (x ∷ front) p = ground arith

init_outside :
    (l : ℕ) (h : Heap) (q : ℕ)
    → q ≢ l
    → ((init l h).next q ≡ h.next q) × ((init l h).prev q ≡ h.prev q)
unfolding init set_next set_prev
init_outside l h q ne = (ground arith, ground arith)

head_outside :
    (h : Heap) (l g : ℕ) (xs ys : List ℕ)
    → IsRing h l xs
    → ((q : ℕ) → mem q (l ∷ xs) ≡ true → mem q (g ∷ ys) ≡ false)
    → mem l (g ∷ (xs ++ ys)) ≡ false
unfolding mem distinct
head_outside h l g xs ys r f = let d = r.apart in ground (arith, f l, mem-append l xs ys)

-- `dl_list_splice_init` of a list behind the head of another, with no node in common, puts its nodes
-- in their order before those of the other, and leaves it empty.
pub splice_init-IsRing :
    (h : Heap) (l g : ℕ) (xs ys : List ℕ)
    → IsRing h l xs
    → IsRing h g ys
    → ((q : ℕ) → mem q (l ∷ xs) ≡ true → mem q (g ∷ ys) ≡ false)
    → IsRing (splice_init l g h) g (xs ++ ys) × IsRing (splice_init l g h) l []
unfolding splice_init mem
splice_init-IsRing h l g xs ys r s f = elim (ends xs) [
  | nothing e ↦
      let r' : IsRing h l [] = subst (IsRing h l) e r in
      let none : empty l h ≡ true = empty-IsRing h l [] r' in rw none (rw e (s, r'))
  | last front p e ↦
      let nodes = front ++ (p ∷ []) in
      let r' : IsRing h l nodes = subst (IsRing h l) e r in
      let f' : (q : ℕ) → mem q (l ∷ nodes) ≡ true → mem q (g ∷ ys) ≡ false =
        subst (λ zs. (q : ℕ) → mem q (l ∷ zs) ≡ true → mem q (g ∷ ys) ≡ false) e f in
      let some_node : empty l h ≡ false = empty-IsRing h l nodes r' ∙ not_empty front p in
      let out = head_outside h l g nodes ys r' f' in
      rw some_node (
        rw e (
          IsRing-frame (join l g h) (init l (join l g h)) g (nodes ++ ys)
              (λ q m. init_outside l (join l g h) q (mem_ne q l (g ∷ (nodes ++ ys)) m out))
              (join-last h l g p front ys r' s f'),
          init-IsRing l (join l g h),
        ))
]
