-- ===== src/Log/Setup.antt =====
-- The logger of log/src/lf_log.c from `LOG_Init` to `LOG_Destroy`.
use mathlib.Core.Path.{subst}
use linux_c_code.Base.{
  ◌*◌, if◌then◌else◌, ℕ, zero, suc, ◌+◌, ◌%◌, ◌^◌, ◌≤◌, ◌<◌, ◌≡◌, ◌≢◌, refl, sym, ap, ap₂, ◌∙◌,
  true, false, Option, none, some, List, [], ◌∷◌, ◌++◌, length, length-append, take, arith, inl,
  ◌⊎◌,
}
use linux_c_code.Base.Int.{pos}
use linux_c_code.Base.Slices.{take_append_le, take-of_length_le}
use linux_c_code.Base.Decimal.{padded, decimal, digits_back, reverse_onto}
use linux_c_code.Log.Text.{Time, place_name}
use linux_c_code.Log.{
  path_of, Log, initialised, start, contents, text_of, appends, same_text, Calls, log_init,
  log_destroy, set_print_log_place_flag,
}
use linux_c_code.Log.Files.{path, Names, same_text_refl, same_text-append}
use linux_c_code.Log.Opening.{current_closed, Ready, OpenFine, current}
use linux_c_code.Log.Short.{Short}
use linux_c_code.Log.Shown.{Settled, slot, shown, print_all, lines, print_all-shown}

-- The end of the name with the number `i`.
abbrev ending : ℕ → List ℕ
ending i = 95 ∷ 48 ∷ (48 + i) ∷ []

padded_digit : (i : ℕ) → i < 3 → padded 2 i ≡ 48 ∷ (48 + i) ∷ []
unfolding padded decimal digits_back reverse_onto
padded_digit zero h = refl
padded_digit (suc zero) h = refl
padded_digit (suc (suc zero)) h = refl
padded_digit (suc (suc (suc i))) h = absurd (omega arith)

whole_name :
    (name : List ℕ) (i : ℕ)
    → length name ≤ 121
    → i < 3
    → place_name name i ≡ (46 ∷ 47 ∷ name) ++ ending i
unfolding place_name
whole_name name i h b =
    let digits = padded_digit i b in
    ap (λ d. take 126 (46 ∷ 47 ∷ (name ++ (95 ∷ d)))) digits
    ∙ take-of_length_le 126 (46 ∷ 47 ∷ (name ++ ending i))
        (omega (arith, length-append name (ending i)))

-- Different names have different texts.
different : (a b p x y : List ℕ) → a ≡ p ++ x → b ≡ p ++ y → same_text x y ≡ false → a ≢ b
different a b p x y e f n h =
    let same =
      sym (same_text-append p x y) ∙ ap₂ same_text (sym e) (sym f ∙ sym h) ∙ same_text_refl a in
    ground (arith, same, n)

module _ (name : List ℕ) (n : ℕ) (l : Log) where
  -- What `LOG_Init` makes of the variables.
  abbrev set_up : Log
  set_up = record l {
    log_init_flag = 1;
    log_file_name = place_name name 0 ∷ place_name name 1 ∷ place_name name 2 ∷ [];
    log_file_size = suc n;
    save_log_mutex = initialised;
  }

  set_up-Names : length name ≤ 121 → Names set_up
  unfolding same_text
  set_up-Names h =
      let at = λ (i : ℕ) (b : i < 3). whole_name name i h b in
      let p = 46 ∷ 47 ∷ name in
      record {
        first_second =
            different (place_name name 0) (place_name name 1) p (ending 0) (ending 1)
              (at 0 (omega arith)) (at 1 (omega arith)) refl;
        first_third =
            different (place_name name 0) (place_name name 2) p (ending 0) (ending 2)
              (at 0 (omega arith)) (at 2 (omega arith)) refl;
        second_third =
            different (place_name name 1) (place_name name 2) p (ending 1) (ending 2)
              (at 1 (omega arith)) (at 2 (omega arith)) refl;
      }

  log_init-file :
      l.print_log_place_flag ≡ 1
      → l.log_init_flag ≡ 0
      → log_init (some name) (suc n) l ≡ (pos 0, set_up)
  unfolding log_init
  log_init-file p i = ground (arith, p, i)

  -- For output to the files, the first `LOG_Init` with a size and a name of at most 121 bytes makes the
  -- logger ready: three different names, the size, no open file.
  pub log_init-Ready :
      length name ≤ 121
      → l.print_log_place_flag ≡ 1
      → l.log_init_flag ≡ 0
      → l.p_file ≡ none
      → l.log_file_no < 3
      → (l' : Log) × (log_init (some name) (suc n) l ≡ (pos 0, l'))
        × Ready l'
        × (l'.log_file_size ≡ suc n)
        × (l'.save_log_mutex ≡ initialised)
  log_init-Ready h p i c t = (
    set_up,
    log_init-file p i,
    record {
      names = set_up-Names h;
      turn = t;
      size = omega arith;
      open_fine = subst (λ o. OpenFine o set_up) (sym c) tt;
    },
    refl,
    refl,
  )

-- None of the three files exists.
pub record NoFiles (l : Log) : Type 0 where
  pub here : contents l.disk (slot l 0) ≡ []
  pub one : contents l.disk (slot l 1) ≡ []
  pub two : contents l.disk (slot l 2) ≡ []

pub NoFiles-Settled : (l : Log) → NoFiles l → Settled l
unfolding appends
NoFiles-Settled l f = record {
  one = ap (λ t. appends (length t) l.log_file_size) f.one;
  two = ap (λ t. appends (length t) l.log_file_size) f.two;
  full = inl (ap length f.one);
}

NoFiles-shown : (l : Log) → NoFiles l → l.log_file_no < 3 → l.p_file ≡ none → shown l ≡ []
unfolding shown appends
NoFiles-shown l f t p =
    let turn : (l.log_file_no + 0) % 3 ≡ l.log_file_no = omega arith in
    let here : contents l.disk (path_of l) ≡ [] =
      sym (ap (λ i. contents l.disk (path l i)) turn) ∙ f.here in
    let empty : current l ≡ [] =
      current_closed l p ∙ ap (λ t. if appends (length t) l.log_file_size then t else []) here in
    ap₂ (λ x y. x ++ y) f.one (ap₂ (λ x y. x ++ y) f.two empty)

three_short :
    (l : Log)
    → contents l.disk (path l 0) ≡ []
    → contents l.disk (path l 1) ≡ []
    → contents l.disk (path l 2) ≡ []
    → (j : ℕ) → j < 3
    → length (contents l.disk (path l j)) < 2 ^ 31
three_short l a b c zero h = let e = ap length a in omega (arith, e)
three_short l a b c (suc zero) h = let e = ap length b in omega (arith, e)
three_short l a b c (suc (suc zero)) h = let e = ap length c in omega (arith, e)
three_short l a b c (suc (suc (suc j))) h = absurd (omega (arith, h))

-- From the start of the program: with output to the files, a size of which 1021 more is below 2 ^ 31, a
-- name of at most 121 bytes, and none of the three files there, `LOG_Init` returns 0. After any number of
-- messages, with files that can be opened, the texts of `shown`, which are those of the three files with
-- the oldest first, less a full file in turn that the next message empties, are the last part of all
-- lines; nothing is missing, or they hold at least twice the size.
pub start-shown :
    (name : List ℕ) (n : ℕ) (disk : List ℕ → Option (List ℕ)) (k : Calls)
    (infos : List (Time × ℕ × List ℕ))
    → length name ≤ 121
    → suc n + 1_021 < 2 ^ 31
    → disk (place_name name 0) ≡ none
    → disk (place_name name 1) ≡ none
    → disk (place_name name 2) ≡ none
    → k.stat ≡ true
    → k.fopen ≡ true
    → (l : Log) × (log_init (some name) (suc n) (set_print_log_place_flag 1 (start disk))
        ≡ (pos 0, l))
      × ((dropped : List ℕ) × (dropped ++ shown (print_all k infos l) ≡ lines infos)
          × ((length dropped ≡ 0) ⊎ (2 * suc n ≤ length (shown (print_all k infos l)))))
unfolding start set_print_log_place_flag contents
start-shown name n disk k infos h small a b c s f =
    let l0 = set_print_log_place_flag 1 (start disk) in
    let l = set_up name n l0 in
    let files : NoFiles l = record {
      here = ap text_of a;
      one = ap text_of b;
      two = ap text_of c;
    } in
    let short : Short l = record {
      limit = small;
      files = three_short l (ap text_of a) (ap text_of b) (ap text_of c);
    } in
    let (l', e, r, size, mutex) = log_init-Ready name n l0 h refl refl refl (omega arith) in
    let ready : Ready l =
      subst Ready (ap (λ x. x.1) (sym e ∙ log_init-file name n l0 refl refl)) r in
    let (dropped, whole, more) =
      print_all-shown k infos l ready (NoFiles-Settled l files) short s f refl in
    (
      l,
      log_init-file name n l0 refl refl,
      (
        dropped,
        whole ∙ ap (λ t. t ++ lines infos) (NoFiles-shown l files (omega arith) refl),
        more,
      ),
    )

-- After `LOG_Destroy` of a logger that was set up, `LOG_Init` returns 0 for arguments that are valid,
-- and leaves the destroyed mutex as it is.
log_init-log_destroy :
    (name : List ℕ) (n : ℕ) (l : Log)
    → l.log_init_flag ≡ 1
    → log_init (some name) (suc n) (log_destroy l) ≡ (pos 0, log_destroy l)
unfolding log_init log_destroy
log_init-log_destroy name n l h = ground (arith, h)

-- With names of 124 bytes and more the number does not fit, and all three files are one.
place_name-long :
    (name : List ℕ) (i j : ℕ) → 124 ≤ length name → place_name name i ≡ place_name name j
unfolding place_name
place_name-long name i j h =
    ap (λ t. 46 ∷ 47 ∷ t)
      (take_append_le 124 name (95 ∷ padded 2 i) h
        ∙ sym (take_append_le 124 name (95 ∷ padded 2 j) h))
