-- ===== src/DlList/Insert.antt =====
-- Insertion into the lists of dllist/src/dllist.h.
use mathlib.Core.List.{append_assoc}
use mathlib.Core.Path.{subst}
use linux_c_code.Base.{
  ℕ, ◌≡◌, refl, ap, ◌≢◌, true, false, List, [], ◌∷◌, ◌++◌, ◌==◌, arith, if◌then◌else◌,
}
use linux_c_code.DlList.{Heap, set_next, set_prev, init, add, add_tail}
use linux_c_code.DlList.Ring.{
  Apart-target, mem-append, mem_ne, Arc-next, distinct-Apart, distinct-insert, mem, distinct, Arc,
  IsRing, Arc-split, Arc-join, Arc-frame, mem-append, mem_ne,
}

-- What `dl_list_add` writes.
add-next :
    (a item : ℕ) (h : Heap) (p : ℕ)
    → (add a item h).next p ≡ (if p == a then item else (if p == item then h.next a else h.next p))
unfolding add set_next set_prev
add-next a item h p = refl

add-prev :
    (a item : ℕ) (h : Heap) (p : ℕ)
    → a ≢ item
    → (add a item h).prev p ≡ (if p == h.next a then item else (if p == item then a else h.prev p))
unfolding add set_next set_prev
add-prev a item h p ne = ground arith

-- The arc behind the node at which the item is added.
add-Arc :
    (a item : ℕ) (h : Heap) (ys : List ℕ) (b : ℕ)
    → Arc h a ys b
    → mem item (a ∷ ys) ≡ false
    → item ≢ b
    → mem a ys ≡ false
    → distinct ys ≡ true
    → mem b ys ≡ false
    → Arc (add a item h) a (item ∷ ys) b
unfolding mem distinct
add-Arc a item h [] b c i ib d1 d2 d3 =
    let ne : a ≢ item = ground arith in
    (
      ground (arith, add-next a item h a),
      ground (arith, add-prev a item h item ne),
      (ground (arith, add-next a item h item), ground (arith, add-prev a item h b ne)),
    )
add-Arc a item h (y ∷ ys) b c i ib d1 d2 d3 =
    let ne : a ≢ item = ground arith in
    let source : mem item (y ∷ ys) ≡ false = ground arith in
    let target : mem item (ys ++ (b ∷ [])) ≡ false = ground (arith, mem-append item ys (b ∷ [])) in
    let first : mem y (ys ++ (b ∷ [])) ≡ false = ground (arith, mem-append y ys (b ∷ [])) in
    (
      ground (arith, add-next a item h a),
      ground (arith, add-prev a item h item ne),
      (
        ground (arith, add-next a item h item),
        ground (arith, add-prev a item h y ne),
        Arc-frame h (add a item h) y ys b
            (λ p m. ground (
              arith,
              add-next a item h p,
              mem_ne p a (y ∷ ys) m d1,
              mem_ne p item (y ∷ ys) m source,
            ))
            (λ p m. ground (
              arith,
              add-prev a item h p ne,
              mem_ne p y (ys ++ (b ∷ [])) m first,
              mem_ne p item (ys ++ (b ∷ [])) m target,
            ))
            c.2,
      ),
    )

-- An arc that begins elsewhere stays.
add-Arc_other :
    (a item : ℕ) (h : Heap) (c : ℕ) (xs : List ℕ) (d : ℕ)
    → a ≢ item
    → mem a (c ∷ xs) ≡ false
    → mem item (c ∷ xs) ≡ false
    → mem item (xs ++ (d ∷ [])) ≡ false
    → mem (h.next a) (xs ++ (d ∷ [])) ≡ false
    → Arc h c xs d
    → Arc (add a item h) c xs d
add-Arc_other a item h c xs d ne na ni ni' np arc =
    Arc-frame h (add a item h) c xs d
      (λ p m.
        ground (arith, add-next a item h p, mem_ne p a (c ∷ xs) m na, mem_ne p item (c ∷ xs) m ni))
      (λ p m. ground (
        arith,
        add-prev a item h p ne,
        mem_ne p item (xs ++ (d ∷ [])) m ni',
        mem_ne p (h.next a) (xs ++ (d ∷ [])) m np,
      ))
      arc

-- `dl_list_add` after a node of the list puts the new node right behind it, and moves no other.
pub add-after :
    (h : Heap) (l : ℕ) (xs : List ℕ) (p : ℕ) (ys : List ℕ) (item : ℕ)
    → IsRing h l (xs ++ (p ∷ ys))
    → mem item (l ∷ (xs ++ (p ∷ ys))) ≡ false
    → IsRing (add p item h) l (xs ++ (p ∷ item ∷ ys))
unfolding mem distinct
add-after h l xs p ys item r fresh =
    let (c1, c2) = Arc-split h l xs p ys l r.arc in
    let a = distinct-Apart (l ∷ xs) p ys r.apart in
    let parts = mem-append item xs (p ∷ ys) in
    let ne : p ≢ item = ground arith in
    let n = Apart-target l xs p ys (h.next p) a (Arc-next h p ys l c2) in
    record {
      arc =
          Arc-join (add p item h) l xs p (item ∷ ys) l
            (add-Arc_other p item h l xs p ne a.not_before (ground arith)
              (ground (arith, mem-append item xs (p ∷ []))) n c1)
            (add-Arc p item h ys l c2 (ground arith) (ground arith) a.not_after a.after
              (a.disjoint l (ground arith)));
      apart = distinct-insert (l ∷ xs) p item ys r.apart fresh;
    }

pub init-IsRing : (l : ℕ) (h : Heap) → IsRing (init l h) l []
unfolding init set_next set_prev distinct mem
init-IsRing l h = record { arc = (ground arith, ground arith); apart = refl }

-- `dl_list_add` at the head puts the new node before all others.
pub add-IsRing :
    (h : Heap) (l : ℕ) (xs : List ℕ) (item : ℕ)
    → IsRing h l xs
    → mem item (l ∷ xs) ≡ false
    → IsRing (add l item h) l (item ∷ xs)
unfolding mem distinct
add-IsRing h l xs item r fresh =
    let d = r.apart in
    record {
      arc =
          add-Arc l item h xs l r.arc fresh (ground arith) (ground arith) (ground arith)
            (ground arith);
      apart = ground arith;
    }

-- The node before the head is the last one.
last-prev : (h : Heap) (a : ℕ) (xs : List ℕ) (p b : ℕ) → Arc h a (xs ++ (p ∷ [])) b → h.prev b ≡ p
last-prev h a xs p b c = (Arc-split h a xs p [] b c).1.1

-- A list is empty or has a last node.
pub data Ends (xs : List ℕ) : Type 0 where
  nothing : xs ≡ [] → Ends xs
  last : (front : List ℕ) (p : ℕ) → xs ≡ front ++ (p ∷ []) → Ends xs

pub ends : (xs : List ℕ) → Ends xs
ends [] = nothing refl
ends (x ∷ xs) = elim (ends xs) [
  | nothing e ↦ last [] x (ap (λ ys. x ∷ ys) e)
  | last front p e ↦ last (x ∷ front) p (ap (λ ys. x ∷ ys) e)
]

-- `dl_list_add_tail` puts the new node behind all others.
pub add_tail-IsRing :
    (h : Heap) (l : ℕ) (xs : List ℕ) (item : ℕ)
    → IsRing h l xs
    → mem item (l ∷ xs) ≡ false
    → IsRing (add_tail l item h) l (xs ++ (item ∷ []))
unfolding add_tail
add_tail-IsRing h l xs item r fresh = elim (ends xs) [
  | nothing e ↦
      let r' : IsRing h l [] = subst (IsRing h l) e r in
      let fresh' : mem item (l ∷ []) ≡ false = subst (λ ys. mem item (l ∷ ys) ≡ false) e fresh in
      rw e (rw (r'.arc.1) (add-IsRing h l [] item r' fresh'))
  | last front p e ↦
      let r' : IsRing h l (front ++ (p ∷ [])) = subst (IsRing h l) e r in
      let fresh' : mem item (l ∷ (front ++ (p ∷ []))) ≡ false =
        subst (λ ys. mem item (l ∷ ys) ≡ false) e fresh in
      let order : (front ++ (p ∷ [])) ++ (item ∷ []) ≡ front ++ (p ∷ item ∷ []) =
        append_assoc front (p ∷ []) (item ∷ []) in
      rw e
        (rw order (rw (last-prev h l front p l r'.arc) (add-after h l front p [] item r' fresh')))
]

-- `dl_list_add` at the `prev` of a node, as `eloop_register_timeout` calls it, puts the new node right
-- before that node, and moves no other.
pub add-before :
    (h : Heap) (l : ℕ) (xs : List ℕ) (t : ℕ) (ys : List ℕ) (item : ℕ)
    → IsRing h l (xs ++ (t ∷ ys))
    → mem item (l ∷ (xs ++ (t ∷ ys))) ≡ false
    → IsRing (add (h.prev t) item h) l (xs ++ (item ∷ t ∷ ys))
add-before h l xs t ys item r fresh = elim (ends xs) [
  | nothing e ↦
      let r' : IsRing h l (t ∷ ys) = subst (λ zs. IsRing h l (zs ++ (t ∷ ys))) e r in
      let fresh' : mem item (l ∷ t ∷ ys) ≡ false =
        subst (λ zs. mem item (l ∷ (zs ++ (t ∷ ys))) ≡ false) e fresh in
      rw e (rw (r'.arc.1) (add-IsRing h l (t ∷ ys) item r' fresh'))
  | last front p e ↦
      let order = append_assoc front (p ∷ []) (t ∷ ys) in
      let r' : IsRing h l (front ++ (p ∷ t ∷ ys)) =
        subst (IsRing h l) order (subst (λ zs. IsRing h l (zs ++ (t ∷ ys))) e r) in
      let fresh' : mem item (l ∷ (front ++ (p ∷ t ∷ ys))) ≡ false =
        subst (λ zs. mem item (l ∷ zs) ≡ false) order
          (subst (λ zs. mem item (l ∷ (zs ++ (t ∷ ys))) ≡ false) e fresh) in
      let back : h.prev t ≡ p = (Arc-split h l front p (t ∷ ys) l r'.arc).1.1 in
      rw e (
        rw (append_assoc front (p ∷ []) (item ∷ t ∷ ys))
          (rw back (add-after h l front p (t ∷ ys) item r' fresh')))
]
