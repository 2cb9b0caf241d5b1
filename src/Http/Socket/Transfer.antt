-- ===== src/Http/Socket/Transfer.antt =====
-- How `http_read_write` of httpclient/src/http.c ends.
use mathlib.Core.Path.{subst}
use linux_c_code.Base.{
  ℕ, zero, suc, ◌+◌, ◌≤◌, ◌<◌, ◌≡◌, ◌≢◌, ltb→lt, refl, sym, ap, ◌∙◌, Bool, true, false, Option,
  none, some, List, [], ◌∷◌, ltb, if◌then◌else◌, arith, inl, inr, Bool-cases,
}
use linux_c_code.Base.Int.{ℤ, pos, negsuc}
use linux_c_code.Http.Socket.{check_error, Reply, count, error, Ended, transfer, read_write}

-- The kernel never moves more bytes than it was asked to.
abbrev pub Honest : ℕ → ℕ → List Reply → Type 0
Honest len n [] = Unit
Honest len n (count r ∷ rs) = (n + r ≤ len) × Honest len (n + r) rs
Honest len n (error errno ws ∷ rs) = Honest len n rs

-- An end of the transfer: with all bytes, with fewer because the other side closed, or with -1.
pub data Ends (len n : ℕ) (out : Ended) : Type 0 where
  complete : out ≡ record { result = pos len; moved = len } → Ends len n out
  closed : (m : ℕ) → n ≤ m → m ≤ len → out ≡ record { result = pos m; moved = m } → Ends len n out
  lost : (m : ℕ) → n ≤ m → m ≤ len → out ≡ record { result = negsuc 0; moved = m } → Ends len n out

pub some_inj {ℓ} : {A : Type ℓ} {a b : A} → some a ≡ some b → b ≡ a
some_inj {a = a} e = sym (ap (λ o. elim o [ none ↦ a | some x ↦ x ]) e)

later : (len n m : ℕ) (out : Ended) → n ≤ m → Ends len m out → Ends len n out
later len n m out h (complete e) = complete e
later len n m out h (closed k a b e) = closed k (omega arith) b e
later len n m out h (lost k a b e) = lost k (omega arith) b e

-- The end of a round that went well, by whether bytes are left.
round_end :
    (len m : ℕ) (out : Ended) (rest : Option Ended)
    → m ≤ len
    → (rest ≡ some out → Ends len m out)
    → (if ltb m len then rest else some (record { result = pos m; moved = m })) ≡ some out
    → Ends len m out
round_end len m out rest h ih e = elim (Bool-cases (ltb m len)) [
  | inl more ↦ ih (
      subst (λ b. (if b then rest else some (record { result = pos m; moved = m })) ≡ some out) more
        e)
  | inr all ↦
      let full : m ≡ len = ground arith in
      let last =
        subst (λ b. (if b then rest else some (record { result = pos m; moved = m })) ≡ some out)
          all e in
      complete (some_inj last ∙ ap (λ x. record { result = pos x; moved = x }) full)
]

-- The end of a round with an error, by what `http_check_error` answers.
error_end :
    (len n : ℕ) (out : Ended) (rest : Option Ended) (answer : Option Bool)
    → n ≤ len
    → (rest ≡ some out → Ends len n out)
    → (elim answer as (λ _. Option Ended) [
      | none ↦ none
      | some true ↦ if ltb n len then rest else some (record { result = pos n; moved = n })
      | some false ↦ some (record { result = negsuc 0; moved = n })
    ])
      ≡ some out
    → Ends len n out
error_end len n out rest none h ih e = absurd (ground arith)
error_end len n out rest (some true) h ih e = round_end len n out rest h ih e
error_end len n out rest (some false) h ih e = lost n (omega arith) h (some_inj e)

transfer-Ends :
    (exit : Bool) (timeout : ℤ) (len n : ℕ) (rs : List Reply) (out : Ended)
    → n ≤ len
    → Honest len n rs
    → transfer exit timeout len n rs ≡ some out
    → Ends len n out
unfolding transfer
transfer-Ends exit timeout len n [] out h k e = absurd (ground arith)
transfer-Ends true timeout len n (count zero ∷ rs) out h k e = lost n (omega arith) h (some_inj e)
transfer-Ends false timeout len n (count zero ∷ rs) out h k e =
    closed n (omega arith) h (some_inj e)
transfer-Ends true timeout len n (count (suc r) ∷ rs) out h k e =
    lost n (omega arith) h (some_inj e)
transfer-Ends false timeout len n (count (suc r) ∷ rs) out h k e =
    let m = n + suc r in
    later len n m out (omega arith) (
      round_end len m out (transfer false timeout len m rs) k.0
        (transfer-Ends false timeout len m rs out k.0 k.1) e)
transfer-Ends true timeout len n (error errno ws ∷ rs) out h k e =
    lost n (omega arith) h (some_inj e)
transfer-Ends false timeout len n (error errno ws ∷ rs) out h k e =
    error_end len n out (transfer false timeout len n rs) (check_error timeout errno ws) h
      (transfer-Ends false timeout len n rs out h k) e

-- The answers of `send` or `recv` that are not errors.
unfoldable pub counts : List Reply → ℕ
counts [] = 0
counts (count r ∷ rs) = 1 + counts rs
counts (error errno ws ∷ rs) = counts rs

-- The waits after an error are answered.
abbrev pub Answered : ℤ → List Reply → Type 0
Answered timeout [] = Unit
Answered timeout (count r ∷ rs) = Answered timeout rs
Answered timeout (error errno ws ∷ rs) = (check_error timeout errno ws ≢ none) × Answered timeout rs

round_total :
    (len m : ℕ) (rest : Option Ended)
    → (m < len → (out : Ended) × (rest ≡ some out))
    → (out : Ended) × ((if ltb m len then rest else some (record { result = pos m; moved = m }))
        ≡ some out)
round_total len m rest ih = elim (Bool-cases (ltb m len)) [
  | inl more ↦ let (out, e) = ih (ltb→lt m len more) in (out, rw more e)
  | inr all ↦ (record { result = pos m; moved = m }, rw all refl)
]

error_total :
    (len n : ℕ) (rest : Option Ended) (answer : Option Bool)
    → answer ≢ none
    → (n < len → (out : Ended) × (rest ≡ some out))
    → (out : Ended) × ((elim answer as (λ _. Option Ended) [
      | none ↦ none
      | some true ↦ if ltb n len then rest else some (record { result = pos n; moved = n })
      | some false ↦ some (record { result = negsuc 0; moved = n })
    ])
        ≡ some out)
error_total len n rest none h ih = absurd (h refl)
error_total len n rest (some true) h ih = round_total len n rest ih
error_total len n rest (some false) h ih = (record { result = negsuc 0; moved = n }, refl)

pub transfer_total :
    (exit : Bool) (timeout : ℤ) (len n : ℕ) (rs : List Reply)
    → len ≤ n + counts rs
    → 0 < counts rs
    → Answered timeout rs
    → (out : Ended) × (transfer exit timeout len n rs ≡ some out)
unfolding transfer counts
transfer_total exit timeout len n [] h p a = absurd (omega arith)
transfer_total exit timeout len n (count zero ∷ rs) h p a = (_, refl)
transfer_total true timeout len n (count (suc r) ∷ rs) h p a = (_, refl)
transfer_total false timeout len n (count (suc r) ∷ rs) h p a =
    round_total len (n + suc r) (transfer false timeout len (n + suc r) rs)
      (λ more. transfer_total false timeout len (n + suc r) rs (omega arith) (omega arith) a)
transfer_total true timeout len n (error errno ws ∷ rs) h p a = (_, refl)
transfer_total false timeout len n (error errno ws ∷ rs) h p a =
    error_total len n (transfer false timeout len n rs) (check_error timeout errno ws) a.0
      (λ more. transfer_total false timeout len n rs h p a.1)

pub read_write-Ends :
    (exit : Bool) (timeout : ℤ) (len : ℕ) (rs : List Reply) (out : Ended)
    → Honest len 0 rs
    → read_write exit timeout len rs ≡ some out
    → Ends len 0 out
unfolding read_write
read_write-Ends exit timeout len rs out k e =
    transfer-Ends exit timeout len 0 rs out (omega arith) k e
