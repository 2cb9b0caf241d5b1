-- ===== src/Log/Files.antt =====
-- Names and files of the logger in log/src/lf_log.c.
use linux_c_code.Base.{
  ℕ, zero, suc, ◌<◌, ◌≡◌, ◌≢◌, refl, sym, ap, ap₂, true, false, Option, some, List, [], ◌∷◌, ◌++◌,
  if◌then◌else◌, get_or, arith, inl, inr, Bool-cases,
}
use linux_c_code.Log.{Log, same_text, put_file, text_of, contents}

pub same_text_refl : (a : List ℕ) → same_text a a ≡ true
unfolding same_text
same_text_refl [] = refl
same_text_refl (x ∷ xs) = let h = same_text_refl xs in ground (arith, h)

pub same_text→eq : (a b : List ℕ) → same_text a b ≡ true → a ≡ b
unfolding same_text
same_text→eq [] [] h = refl
same_text→eq [] (b ∷ bs) h = absurd (ground (arith, h))
same_text→eq (a ∷ as') [] h = absurd (ground (arith, h))
same_text→eq (a ∷ as') (b ∷ bs) h =
    let e : a ≡ b = ground (arith, h) in
    ap₂ (λ x xs. x ∷ xs) e (same_text→eq as' bs (ground (arith, h)))

pub other_text : (a b : List ℕ) → a ≢ b → same_text a b ≡ false
other_text a b h = elim (Bool-cases (same_text a b)) [
  | inl e ↦ absurd (h (same_text→eq a b e))
  | inr e ↦ e
]

pub same_text-append : (p a b : List ℕ) → same_text (p ++ a) (p ++ b) ≡ same_text a b
unfolding same_text
same_text-append [] a b = refl
same_text-append (x ∷ p) a b = let h = same_text-append p a b in ground (arith, h)

pub contents-put_file :
    (name text : List ℕ) (disk : List ℕ → Option (List ℕ))
    → contents (put_file name text disk) name ≡ text
unfolding contents put_file
contents-put_file name text disk =
    ap (λ b. text_of (if b then some text else disk name)) (same_text_refl name)

pub contents-put_file_other :
    (name text other : List ℕ) (disk : List ℕ → Option (List ℕ))
    → other ≢ name
    → contents (put_file name text disk) other ≡ contents disk other
unfolding contents put_file
contents-put_file_other name text other disk n =
    ap (λ b. text_of (if b then some text else disk other)) (other_text other name n)

-- The name of each of the three files.
abbrev pub path : Log → ℕ → List ℕ
path l i = get_or l.log_file_name i []

-- Three different names.
pub record Names (l : Log) : Type 0 where
  pub first_second : path l 0 ≢ path l 1
  pub first_third : path l 0 ≢ path l 2
  pub second_third : path l 1 ≢ path l 2

pub path_ne : (l : Log) (i j : ℕ) → Names l → i < 3 → j < 3 → i ≢ j → path l i ≢ path l j
path_ne l zero zero n a b h = absurd (h refl)
path_ne l zero (suc zero) n a b h = n.first_second
path_ne l zero (suc (suc zero)) n a b h = n.first_third
path_ne l (suc zero) zero n a b h = λ e. n.first_second (sym e)
path_ne l (suc zero) (suc zero) n a b h = absurd (h refl)
path_ne l (suc zero) (suc (suc zero)) n a b h = n.second_third
path_ne l (suc (suc zero)) zero n a b h = λ e. n.first_third (sym e)
path_ne l (suc (suc zero)) (suc zero) n a b h = λ e. n.second_third (sym e)
path_ne l (suc (suc zero)) (suc (suc zero)) n a b h = absurd (h refl)
path_ne l (suc (suc (suc i))) j n a b h = absurd (omega arith)
path_ne l zero (suc (suc (suc j))) n a b h = absurd (omega arith)
path_ne l (suc zero) (suc (suc (suc j))) n a b h = absurd (omega arith)
path_ne l (suc (suc zero)) (suc (suc (suc j))) n a b h = absurd (omega arith)
