-- ===== src/DlList/Remove.antt =====
-- Removal from the lists of dllist/src/dllist.h.
use mathlib.Core.List.{append_assoc}
use mathlib.Core.Path.{subst}
use linux_c_code.Base.{
  ℕ, ◌≡◌, refl, sym, true, false, List, [], ◌∷◌, ◌++◌, ◌==◌, arith, if◌then◌else◌,
}
use linux_c_code.DlList.{Heap, set_next, set_prev, unlink, del, move, move_tail}
use linux_c_code.DlList.Ring.{
  mem, distinct, Arc, IsRing, Arc-split, Arc-join, Arc-frame, mem-append, mem_ne, Arc-next,
  distinct-Apart, distinct-remove, Apart-target,
}
use linux_c_code.DlList.Insert.{ends, nothing, last, add-IsRing, add_tail-IsRing}

unlink-next :
    (p n : ℕ) (h : Heap) (q : ℕ) → (unlink p n h).next q ≡ (if q == p then n else h.next q)
unfolding unlink set_next set_prev
unlink-next p n h q = refl

unlink-prev :
    (p n : ℕ) (h : Heap) (q : ℕ) → (unlink p n h).prev q ≡ (if q == n then p else h.prev q)
unfolding unlink set_next set_prev
unlink-prev p n h q = refl

-- The arc behind the node `a`, which is linked to the first node of `ys` or to the end.
unlink-front :
    (h : Heap) (a x : ℕ) (ys : List ℕ) (b : ℕ)
    → Arc h x ys b
    → mem a ys ≡ false
    → distinct ys ≡ true
    → mem b ys ≡ false
    → Arc (unlink a (h.next x) h) a ys b
unfolding mem distinct
unlink-front h a x [] b c na d nb =
    (ground (arith, unlink-next a (h.next x) h a), ground (arith, unlink-prev a (h.next x) h b))
unlink-front h a x (y ∷ ys) b c na d nb =
    let first : mem y (ys ++ (b ∷ [])) ≡ false = ground (arith, mem-append y ys (b ∷ [])) in
    (
      ground (arith, unlink-next a (h.next x) h a),
      ground (arith, unlink-prev a (h.next x) h y),
      Arc-frame h (unlink a (h.next x) h) y ys b
          (λ p m. ground (arith, unlink-next a (h.next x) h p, mem_ne p a (y ∷ ys) m na))
          (λ p m. ground (arith, unlink-prev a (h.next x) h p, mem_ne p y (ys ++ (b ∷ [])) m first))
          c.2,
    )

unlink_first :
    (h : Heap) (l x : ℕ) (ys : List ℕ)
    → IsRing h l (x ∷ ys)
    → IsRing (unlink (h.prev x) (h.next x) h) l ys
unfolding mem distinct
unlink_first h l x ys r =
    let d = r.apart in
    rw (r.arc.1) (record {
      arc = unlink-front h l x ys l r.arc.2 (ground arith) (ground arith) (ground arith);
      apart = distinct-remove (l ∷ []) x ys r.apart;
    })

unlink_later :
    (h : Heap) (l : ℕ) (front : List ℕ) (p x : ℕ) (ys : List ℕ)
    → IsRing h l (front ++ (p ∷ x ∷ ys))
    → IsRing (unlink (h.prev x) (h.next x) h) l (front ++ (p ∷ ys))
unfolding mem distinct
unlink_later h l front p x ys r =
    let (c1, c2) = Arc-split h l front p (x ∷ ys) l r.arc in
    let a = distinct-Apart (l ∷ front) p (x ∷ ys) r.apart in
    let after = a.after in
    let far = a.disjoint l in
    let np = a.not_after in
    let target : mem (h.next x) ((x ∷ ys) ++ (l ∷ [])) ≡ true =
      ground (arith, Arc-next h x ys l c2.2) in
    let fresh = Apart-target l front p (x ∷ ys) (h.next x) a target in
    let k = unlink p (h.next x) h in
    let order : (front ++ (p ∷ [])) ++ (x ∷ ys) ≡ front ++ (p ∷ x ∷ ys) =
      append_assoc front (p ∷ []) (x ∷ ys) in
    let removed : distinct (l ∷ (front ++ (p ∷ ys))) ≡ true =
      subst (λ zs. distinct (l ∷ zs) ≡ true) (append_assoc front (p ∷ []) ys)
        (distinct-remove (l ∷ (front ++ (p ∷ []))) x ys
          (subst (λ zs. distinct (l ∷ zs) ≡ true) (sym order) r.apart)) in
    rw (c2.1) (record {
      arc =
          Arc-join k l front p ys l
            (Arc-frame h k l front p
              (λ q m.
                ground (arith, unlink-next p (h.next x) h q, mem_ne q p (l ∷ front) m a.not_before))
              (λ q m. ground (
                arith,
                unlink-prev p (h.next x) h q,
                mem_ne q (h.next x) (front ++ (p ∷ [])) m fresh,
              ))
              c1)
            (unlink-front h p x ys l c2.2 (ground arith) (ground arith) (ground arith));
      apart = removed;
    })

-- `__list_del` between the neighbours of a node takes the node out, and moves no other.
pub unlink-IsRing :
    (h : Heap) (l : ℕ) (xs : List ℕ) (x : ℕ) (ys : List ℕ)
    → IsRing h l (xs ++ (x ∷ ys))
    → IsRing (unlink (h.prev x) (h.next x) h) l (xs ++ ys)
unlink-IsRing h l xs x ys r = elim (ends xs) [
  | nothing e ↦
      let r' : IsRing h l (x ∷ ys) = subst (λ zs. IsRing h l (zs ++ (x ∷ ys))) e r in
      rw e (unlink_first h l x ys r')
  | last front p e ↦
      let r' : IsRing h l (front ++ (p ∷ x ∷ ys)) =
        subst (IsRing h l) (append_assoc front (p ∷ []) (x ∷ ys))
          (subst (λ zs. IsRing h l (zs ++ (x ∷ ys))) e r) in
      rw e (rw (append_assoc front (p ∷ []) ys) (unlink_later h l front p x ys r'))
]

-- A change outside of a list keeps it.
pub IsRing-frame :
    (h k : Heap) (l : ℕ) (xs : List ℕ)
    → ((p : ℕ) → mem p (l ∷ xs) ≡ true → (k.next p ≡ h.next p) × (k.prev p ≡ h.prev p))
    → IsRing h l xs
    → IsRing k l xs
unfolding mem
IsRing-frame h k l xs same r = record {
  arc =
      Arc-frame h k l xs l (λ p m. (same p m).0)
        (λ p m. (same p (ground (arith, mem-append p xs (l ∷ [])))).1) r.arc;
  apart = r.apart;
}

not_in_rest :
    (l : ℕ) (xs : List ℕ) (x : ℕ) (ys : List ℕ)
    → distinct (l ∷ (xs ++ (x ∷ ys))) ≡ true
    → mem x (l ∷ (xs ++ ys)) ≡ false
unfolding mem
not_in_rest l xs x ys d =
    let a = distinct-Apart (l ∷ xs) x ys d in
    ground (arith, a.not_before, a.not_after, mem-append x xs ys)

-- `dl_list_del` takes the node out of its list, moves no other node, and leaves both pointers of the
-- node NULL.
pub del-IsRing :
    (h : Heap) (l : ℕ) (xs : List ℕ) (x : ℕ) (ys : List ℕ)
    → IsRing h l (xs ++ (x ∷ ys))
    → IsRing (del x h) l (xs ++ ys) × ((del x h).next x ≡ 0) × ((del x h).prev x ≡ 0)
unfolding del set_next set_prev
del-IsRing h l xs x ys r =
    let out = not_in_rest l xs x ys r.apart in
    let k = unlink (h.prev x) (h.next x) h in
    (
      IsRing-frame k (del x h) l (xs ++ ys)
          (λ p m. let ne = mem_ne p x (l ∷ (xs ++ ys)) m out in (ground arith, ground arith))
          (unlink-IsRing h l xs x ys r),
      ground arith,
      ground arith,
    )

-- `dl_list_move` within one list takes the node out and puts it before all others.
pub move-IsRing :
    (h : Heap) (l : ℕ) (xs : List ℕ) (x : ℕ) (ys : List ℕ)
    → IsRing h l (xs ++ (x ∷ ys))
    → IsRing (move x l h) l (x ∷ (xs ++ ys))
unfolding move
move-IsRing h l xs x ys r =
    add-IsRing (unlink (h.prev x) (h.next x) h) l (xs ++ ys) x (unlink-IsRing h l xs x ys r)
      (not_in_rest l xs x ys r.apart)

-- `dl_list_move_tail` within one list takes the node out and puts it behind all others.
pub move_tail-IsRing :
    (h : Heap) (l : ℕ) (xs : List ℕ) (x : ℕ) (ys : List ℕ)
    → IsRing h l (xs ++ (x ∷ ys))
    → IsRing (move_tail x l h) l ((xs ++ ys) ++ (x ∷ []))
unfolding move_tail
move_tail-IsRing h l xs x ys r =
    add_tail-IsRing (unlink (h.prev x) (h.next x) h) l (xs ++ ys) x (unlink-IsRing h l xs x ys r)
      (not_in_rest l xs x ys r.apart)
