-- ===== src/Eloop/Timeouts/Sorted.antt =====
-- The order of the ring of timeouts of eloop/src/eloop.c.
use linux_c_code.Base.{◌≡◌, refl, ap, true, false, List, [], ◌∷◌, ◌++◌, Bool-cases, inl, inr}
use linux_c_code.Eloop.Time.{Reltime, before}
use linux_c_code.Eloop.Time.Order.{before-not_before, not_before_trans, before-asymm}
use linux_c_code.Eloop.State.{Timeout}
use linux_c_code.Eloop.Timeouts.{insert}

-- No timeout of the list is before `t`.
abbrev pub NoneBefore : Reltime → List Timeout → Type 0
NoneBefore t [] = Unit
NoneBefore t (x ∷ xs) = (before x.time t ≡ false) × NoneBefore t xs

-- Every timeout of the list is after `t`.
abbrev pub AllAfter : Reltime → List Timeout → Type 0
AllAfter t [] = Unit
AllAfter t (x ∷ xs) = (before t x.time ≡ true) × AllAfter t xs

-- No timeout of the list is after `t`.
abbrev pub NoneAfter : Reltime → List Timeout → Type 0
NoneAfter t [] = Unit
NoneAfter t (x ∷ xs) = (before t x.time ≡ false) × NoneAfter t xs

abbrev pub IsSorted : List Timeout → Type 0
IsSorted [] = Unit
IsSorted (x ∷ xs) = NoneBefore x.time xs × IsSorted xs

-- Where `insert` puts a timeout: behind those that are not later, before those that are later.
pub record Placed (n : Timeout) (ts out : List Timeout) : Type 0 where
  pub front : List Timeout
  pub back : List Timeout
  pub old : ts ≡ front ++ back
  pub new : out ≡ front ++ (n ∷ back)
  pub not_later : NoneAfter n.time front
  pub later : AllAfter n.time back

pub AllAfter-trans :
    (a b : Reltime) (ts : List Timeout) → before a b ≡ true → NoneBefore b ts → AllAfter a ts
AllAfter-trans a b [] h k = tt
AllAfter-trans a b (t ∷ ts) h k = (before-not_before a b t.time h k.0, AllAfter-trans a b ts h k.1)

insert-Placed : (n : Timeout) (ts : List Timeout) → IsSorted ts → Placed n ts (insert n ts)
unfolding insert
insert-Placed n [] s = record {
  front = [];
  back = [];
  old = refl;
  new = refl;
  not_later = tt;
  later = tt;
}
insert-Placed n (t ∷ ts) s = elim (Bool-cases (before n.time t.time)) [
  | inl h ↦ record {
    front = [];
    back = t ∷ ts;
    old = refl;
    new = rw h refl;
    not_later = tt;
    later = (h, AllAfter-trans n.time t.time ts h s.0);
  }
  | inr h ↦
      let p = insert-Placed n ts s.1 in
      record {
        front = t ∷ p.front;
        back = p.back;
        old = ap (λ l. t ∷ l) p.old;
        new = rw h (ap (λ l. t ∷ l) p.new);
        not_later = (h, p.not_later);
        later = p.later;
      }
]

NoneBefore-insert :
    (b : Reltime) (n : Timeout) (ts : List Timeout)
    → before n.time b ≡ false
    → NoneBefore b ts
    → NoneBefore b (insert n ts)
unfolding insert
NoneBefore-insert b n [] h k = (h, tt)
NoneBefore-insert b n (t ∷ ts) h k = elim (Bool-cases (before n.time t.time)) [
  | inl e ↦ rw e (h, k)
  | inr e ↦ rw e (k.0, NoneBefore-insert b n ts h k.1)
]

NoneBefore-trans :
    (a b : Reltime) (ts : List Timeout) → before b a ≡ false → NoneBefore b ts → NoneBefore a ts
NoneBefore-trans a b [] h k = tt
NoneBefore-trans a b (t ∷ ts) h k =
    (not_before_trans a b t.time h k.0, NoneBefore-trans a b ts h k.1)

pub insert-IsSorted : (n : Timeout) (ts : List Timeout) → IsSorted ts → IsSorted (insert n ts)
unfolding insert
insert-IsSorted n [] s = (tt, tt)
insert-IsSorted n (t ∷ ts) s = elim (Bool-cases (before n.time t.time)) [
  | inl e ↦
      rw e ((before-asymm _ _ e, NoneBefore-trans n.time t.time ts (before-asymm _ _ e) s.0), s)
  | inr e ↦ rw e (NoneBefore-insert t.time n ts e s.0, insert-IsSorted n ts s.1)
]

-- Into a sorted ring `eloop_register_timeout` puts the new timeout behind all that are not later
-- and before all that are later, moves no other, and keeps the ring sorted.
pub insert_lem :
    (n : Timeout) (ts : List Timeout)
    → IsSorted ts
    → Placed n ts (insert n ts) × IsSorted (insert n ts)
insert_lem n ts s = (insert-Placed n ts s, insert-IsSorted n ts s)
