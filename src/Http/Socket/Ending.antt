-- ===== src/Http/Socket/Ending.antt =====
-- Which answers of the kernel end `http_read_write` of httpclient/src/http.c, and how.
use mathlib.Core.Path.{subst}
use linux_c_code.Base.{
  ℕ, zero, suc, ◌+◌, ◌≤◌, ◌<◌, ◌≡◌, refl, sym, ap, ◌∙◌, Bool, true, false, Option, none, some, List,
  [], ◌∷◌, ◌++◌, ltb, if◌then◌else◌, arith, inl, inr, Bool-cases,
}
use linux_c_code.Base.Int.{ℤ, pos, negsuc}
use linux_c_code.Http.Socket.{Wait, check_error, Reply, count, error, Ended, transfer, read_write}
use linux_c_code.Http.Socket.Transfer.{Honest, counts, Answered, some_inj, transfer_total}

-- The bytes that an answer moves, and after which answers the loop goes on.
unfoldable pub amount : Reply → ℕ
amount (count r) = r
amount (error errno ws) = 0

abbrev pub GoesOn : ℤ → Reply → Type 0
GoesOn timeout (count zero) = ⊥
GoesOn timeout (count (suc r)) = Unit
GoesOn timeout (error errno ws) = check_error timeout errno ws ≡ some true

unfoldable pub moved_by : List Reply → ℕ
moved_by [] = 0
moved_by (r ∷ rs) = amount r + moved_by rs

abbrev pub AllGoOn : ℤ → List Reply → Type 0
AllGoOn timeout [] = Unit
AllGoOn timeout (r ∷ rs) = GoesOn timeout r × AllGoOn timeout rs

-- What ends the transfer after the answers `front`, of which none does.
pub data Ending (timeout : ℤ) (len n : ℕ) (rs : List Reply) (out : Ended) : Type 0 where
  -- All bytes are moved.
  complete :
      (front back : List Reply)
      → rs ≡ front ++ back
      → AllGoOn timeout front
      → n + moved_by front ≡ len
      → out ≡ record { result = pos len; moved = len }
      → Ending timeout len n rs out
  -- The other side has closed.
  closed :
      (front back : List Reply)
      → rs ≡ front ++ (count 0 ∷ back)
      → AllGoOn timeout front
      → out ≡ record { result = pos (n + moved_by front); moved = n + moved_by front }
      → Ending timeout len n rs out
  -- An error is not tried again.
  lost :
      (front back : List Reply) (errno : ℕ) (ws : List Wait)
      → rs ≡ front ++ (error errno ws ∷ back)
      → AllGoOn timeout front
      → check_error timeout errno ws ≡ some false
      → out ≡ record { result = negsuc 0; moved = n + moved_by front }
      → Ending timeout len n rs out

abbrev short : ℤ → ℕ → Ended
short r m = record { result = r; moved = m }

regroup : (n a m : ℕ) → n + a + m ≡ n + (a + m)
regroup n a m = omega arith

Ending-cons :
    (timeout : ℤ) (len n : ℕ) (r : Reply) (rs : List Reply) (out : Ended)
    → GoesOn timeout r
    → Ending timeout len (n + amount r) rs out
    → Ending timeout len n (r ∷ rs) out
unfolding moved_by
Ending-cons timeout len n r rs out g (complete front back e all full o) =
    complete (r ∷ front) back (ap (λ l. r ∷ l) e) (g, all)
      (sym (regroup n (amount r) (moved_by front)) ∙ full) o
Ending-cons timeout len n r rs out g (closed front back e all o) =
    closed (r ∷ front) back (ap (λ l. r ∷ l) e) (g, all)
      (o ∙ ap (λ m. short (pos m) m) (regroup n (amount r) (moved_by front)))
Ending-cons timeout len n r rs out g (lost front back errno ws e all f o) =
    lost (r ∷ front) back errno ws (ap (λ l. r ∷ l) e) (g, all) f
      (o ∙ ap (short (negsuc 0)) (regroup n (amount r) (moved_by front)))

-- The end of a round after which the loop may go on, by whether bytes are left.
round_ending :
    (timeout : ℤ) (len n m : ℕ) (r : Reply) (rs : List Reply) (out : Ended) (rest : Option Ended)
    → m ≡ n + amount r
    → m ≤ len
    → GoesOn timeout r
    → (rest ≡ some out → Ending timeout len m rs out)
    → (if ltb m len then rest else some (short (pos m) m)) ≡ some out
    → Ending timeout len n (r ∷ rs) out
unfolding moved_by
round_ending timeout len n m r rs out rest k h g ih e = elim (Bool-cases (ltb m len)) [
  | inl more ↦ Ending-cons timeout len n r rs out g (
      subst (λ x. Ending timeout len x rs out) k
        (ih (subst (λ b. (if b then rest else some (short (pos m) m)) ≡ some out) more e)))
  | inr all ↦
      let full : m ≡ len = ground (arith, h, all) in
      let last = subst (λ b. (if b then rest else some (short (pos m) m)) ≡ some out) all e in
      complete (r ∷ []) rs refl (g, tt) (omega (arith, full, k))
        (some_inj last ∙ ap (λ x. short (pos x) x) full)
]

-- The end of a round with an error, by what `http_check_error` answers.
error_ending :
    (timeout : ℤ) (len n errno : ℕ) (ws : List Wait) (rs : List Reply) (out : Ended)
    (rest : Option Ended) (answer : Option Bool)
    → check_error timeout errno ws ≡ answer
    → n ≤ len
    → (rest ≡ some out → Ending timeout len n rs out)
    → (elim answer as (λ _. Option Ended) [
      | none ↦ none
      | some true ↦ if ltb n len then rest else some (short (pos n) n)
      | some false ↦ some (short (negsuc 0) n)
    ])
      ≡ some out
    → Ending timeout len n (error errno ws ∷ rs) out
unfolding moved_by amount
error_ending timeout len n errno ws rs out rest none a h ih e = absurd (ground (arith, e))
error_ending timeout len n errno ws rs out rest (some true) a h ih e =
    round_ending timeout len n n (error errno ws) rs out rest (omega arith) h a ih e
error_ending timeout len n errno ws rs out rest (some false) a h ih e =
    lost [] rs errno ws refl tt a (some_inj e ∙ ap (short (negsuc 0)) (omega arith))

transfer-Ending :
    (timeout : ℤ) (len n : ℕ) (rs : List Reply) (out : Ended)
    → n ≤ len
    → Honest len n rs
    → transfer false timeout len n rs ≡ some out
    → Ending timeout len n rs out
unfolding transfer moved_by amount
transfer-Ending timeout len n [] out h k e = absurd (ground (arith, e))
transfer-Ending timeout len n (count zero ∷ rs) out h k e =
    closed [] rs refl tt (some_inj e ∙ ap (λ x. short (pos x) x) (omega arith))
transfer-Ending timeout len n (count (suc r) ∷ rs) out h k e =
    round_ending timeout len n (n + suc r) (count (suc r)) rs out
      (transfer false timeout len (n + suc r) rs) refl k.0 tt
      (transfer-Ending timeout len (n + suc r) rs out k.0 k.1) e
transfer-Ending timeout len n (error errno ws ∷ rs) out h k e =
    error_ending timeout len n errno ws rs out (transfer false timeout len n rs)
      (check_error timeout errno ws) refl h (transfer-Ending timeout len n rs out h k) e

started :
    (timeout : ℤ) (len : ℕ) (rs : List Reply)
    → read_write false timeout len rs ≡ transfer false timeout len 0 rs
unfolding read_write
started timeout len rs = refl

told :
    (timeout : ℤ) (len : ℕ) (rs : List Reply)
    → 0 < counts rs
    → read_write true timeout len rs ≡ some (short (negsuc 0) 0)
unfolding read_write transfer counts
told timeout len [] p = absurd (omega (arith, p))
told timeout len (count zero ∷ rs) p = refl
told timeout len (count (suc r) ∷ rs) p = refl
told timeout len (error errno ws ∷ rs) p = refl

-- When the kernel moves no more bytes than it is asked to, every wait after an error is answered, and
-- there are as many answers that are not errors as bytes (and one at least): `http_read_write` of a client
-- that has been told to exit returns -1 and moves nothing, and else it ends in one of three ways. All
-- bytes are moved; or an answer of 0 comes, and the result is the number of bytes of the answers before
-- it; or an error comes that is not to be tried again, and the result is -1. Every answer before the end
-- moves bytes or is an error that is tried again.
pub read_write_lem :
    (timeout : ℤ) (len : ℕ) (rs : List Reply)
    → Honest len 0 rs
    → len ≤ counts rs
    → 0 < counts rs
    → Answered timeout rs
    → (read_write true timeout len rs ≡ some (record { result = negsuc 0; moved = 0 }))
      × (out : Ended) × (read_write false timeout len rs ≡ some out)
      × Ending timeout len 0 rs out
read_write_lem timeout len rs k h p a =
    let (out, e) = transfer_total false timeout len 0 rs (omega (arith, h)) p a in
    (
      told timeout len rs p,
      out,
      started timeout len rs ∙ e,
      transfer-Ending timeout len 0 rs out (omega arith) k e,
    )
