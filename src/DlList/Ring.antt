-- ===== src/DlList/Ring.antt =====
-- The lists of dllist/src/dllist.h as sequences of nodes: a ring of pointers, and its arcs.
use linux_c_code.Base.{
  if◌then◌else◌, ℕ, ◌≡◌, refl, ◌∙◌, ◌≢◌, Bool, true, false, ◌||◌, List, [], ◌∷◌, ◌++◌, ◌==◌, arith,
  inl, inr, Bool-cases,
}
use linux_c_code.DlList.{Heap}

unfoldable pub mem : ℕ → List ℕ → Bool
mem p [] = false
mem p (x ∷ xs) = p == x || mem p xs

-- No node stands twice.
unfoldable pub distinct : List ℕ → Bool
distinct [] = true
distinct (x ∷ xs) = if mem x xs then false else distinct xs

-- From `a` the `next` pointers lead through `xs` to `b`, and the `prev` pointers lead back.
abbrev pub Arc : Heap → ℕ → List ℕ → ℕ → Type 0
Arc h a [] b = (h.next a ≡ b) × (h.prev b ≡ a)
Arc h a (x ∷ xs) b = (h.next a ≡ x) × (h.prev x ≡ a) × Arc h x xs b

-- The list with the head `l` holds the nodes `xs`, in this order.
pub record IsRing (h : Heap) (l : ℕ) (xs : List ℕ) : Type 0 where
  pub arc : Arc h l xs l
  pub apart : distinct (l ∷ xs) ≡ true

pub Arc-split :
    (h : Heap) (a : ℕ) (xs : List ℕ) (x : ℕ) (ys : List ℕ) (b : ℕ)
    → Arc h a (xs ++ (x ∷ ys)) b
    → Arc h a xs x × Arc h x ys b
Arc-split h a [] x ys b c = ((c.0, c.1), c.2)
Arc-split h a (y ∷ xs) x ys b c = let r = Arc-split h y xs x ys b c.2 in ((c.0, c.1, r.0), r.1)

pub Arc-join :
    (h : Heap) (a : ℕ) (xs : List ℕ) (x : ℕ) (ys : List ℕ) (b : ℕ)
    → Arc h a xs x
    → Arc h x ys b
    → Arc h a (xs ++ (x ∷ ys)) b
Arc-join h a [] x ys b c d = (c.0, c.1, d)
Arc-join h a (y ∷ xs) x ys b c d = (c.0, c.1, Arc-join h y xs x ys b c.2 d)

-- An arc depends on the `next` of all nodes but the last, and the `prev` of all but the first.
pub Arc-frame :
    (h k : Heap) (a : ℕ) (xs : List ℕ) (b : ℕ)
    → ((p : ℕ) → mem p (a ∷ xs) ≡ true → k.next p ≡ h.next p)
    → ((p : ℕ) → mem p (xs ++ (b ∷ [])) ≡ true → k.prev p ≡ h.prev p)
    → Arc h a xs b
    → Arc k a xs b
unfolding mem
Arc-frame h k a [] b f g c = (f a (ground arith) ∙ c.0, g b (ground arith) ∙ c.1)
Arc-frame h k a (x ∷ xs) b f g c = (
  f a (ground arith) ∙ c.0,
  g x (ground arith) ∙ c.1,
  Arc-frame h k x xs b (λ p m. f p (ground arith)) (λ p m. g p (ground arith)) c.2,
)

pub mem-append : (p : ℕ) (xs ys : List ℕ) → mem p (xs ++ ys) ≡ (mem p xs || mem p ys)
unfolding mem
mem-append p [] ys = refl
mem-append p (x ∷ xs) ys = ground (arith, mem-append p xs ys)

pub mem_ne : (p q : ℕ) (xs : List ℕ) → mem p xs ≡ true → mem q xs ≡ false → p ≢ q
mem_ne p q xs h k e = ground arith

-- The pointers at the ends of an arc.
pub Arc-next :
    (h : Heap) (a : ℕ) (xs : List ℕ) (b : ℕ) → Arc h a xs b → mem (h.next a) (xs ++ (b ∷ [])) ≡ true
unfolding mem
Arc-next h a [] b c = ground arith
Arc-next h a (x ∷ xs) b c = ground arith

pub Arc-prev :
    (h : Heap) (a : ℕ) (xs : List ℕ) (b : ℕ) → Arc h a xs b → mem (h.prev b) (a ∷ xs) ≡ true
unfolding mem
Arc-prev h a [] b c = ground arith
Arc-prev h a (x ∷ xs) b c = ground (arith, Arc-prev h x xs b c.2)

-- What it means for a sequence with the node `p` in it to be distinct.
pub record Apart (us : List ℕ) (p : ℕ) (vs : List ℕ) : Type 0 where
  pub before : distinct us ≡ true
  pub after : distinct vs ≡ true
  pub not_before : mem p us ≡ false
  pub not_after : mem p vs ≡ false
  pub disjoint : (q : ℕ) → mem q us ≡ true → mem q vs ≡ false

pub distinct-Apart :
    (us : List ℕ) (p : ℕ) (vs : List ℕ) → distinct (us ++ (p ∷ vs)) ≡ true → Apart us p vs
unfolding distinct mem
distinct-Apart [] p vs d = record {
  before = refl;
  after = ground arith;
  not_before = refl;
  not_after = ground arith;
  disjoint = λ q m. ground arith;
}
distinct-Apart (u ∷ us) p vs d =
    let r = distinct-Apart us p vs (ground arith) in
    let fresh : mem u (us ++ (p ∷ vs)) ≡ false = ground arith in
    let parts = mem-append u us (p ∷ vs) in
    record {
      before = ground (arith, r.before);
      after = r.after;
      not_before = ground (arith, r.not_before);
      not_after = r.not_after;
      disjoint = λ q m. ground (arith, r.disjoint q);
    }

pub distinct-insert :
    (us : List ℕ) (p x : ℕ) (vs : List ℕ)
    → distinct (us ++ (p ∷ vs)) ≡ true
    → mem x (us ++ (p ∷ vs)) ≡ false
    → distinct (us ++ (p ∷ x ∷ vs)) ≡ true
unfolding distinct mem
distinct-insert [] p x vs d m = ground arith
distinct-insert (u ∷ us) p x vs d m =
    let r = distinct-insert us p x vs (ground arith) (ground arith) in
    ground (arith, mem-append u us (p ∷ vs), mem-append u us (p ∷ x ∷ vs))

pub distinct-remove :
    (us : List ℕ) (p : ℕ) (vs : List ℕ)
    → distinct (us ++ (p ∷ vs)) ≡ true
    → distinct (us ++ vs) ≡ true
unfolding distinct mem
distinct-remove [] p vs d = ground arith
distinct-remove (u ∷ us) p vs d =
    let r = distinct-remove us p vs (ground arith) in
    ground (arith, mem-append u us (p ∷ vs), mem-append u us vs)

-- In a ring with the node `p`, the nodes behind it and the head are not before it.
pub Apart-target :
    (l : ℕ) (xs : List ℕ) (p : ℕ) (ys : List ℕ) (q : ℕ)
    → Apart (l ∷ xs) p ys
    → mem q (ys ++ (l ∷ [])) ≡ true
    → mem q (xs ++ (p ∷ [])) ≡ false
unfolding mem distinct
Apart-target l xs p ys q a m =
    let m1 = mem-append q ys (l ∷ []) in
    let m2 = mem-append q xs (p ∷ []) in
    let fresh = a.before in
    let nb = a.not_before in
    elim (Bool-cases (mem q ys)) [
      | inl behind ↦
          let far = a.disjoint q in
          let ne = mem_ne q p ys behind a.not_after in
          elim (Bool-cases (mem q xs)) [
            | inl both ↦ absurd (ground (arith, far))
            | inr only ↦ ground arith
          ]
      | inr not_behind ↦ let e : q ≡ l = ground arith in ground arith
    ]
