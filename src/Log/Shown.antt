-- ===== src/Log/Shown.antt =====
-- What the files of the logger in log/src/lf_log.c show together, from the oldest to the newest.
use mathlib.Core.List.{append_assoc, append-nil}
use mathlib.Core.Path.{subst}
use linux_c_code.Base.{
  ℕ, ◌+◌, ◌*◌, length-append, ◌%◌, ◌^◌, ◌≤◌, ◌<◌, ◌≡◌, refl, sym, ap, ap₂, ◌∙◌, true, false, none,
  some, List, [], ◌∷◌, ◌++◌, ◌==◌, if◌then◌else◌, length, get_or, arith, inl, inr, ◌⊎◌,
}
use linux_c_code.Log.Text.{Time, log_message}
use linux_c_code.Log.{Log, contents, path_of, appends, Calls, print_log}
use linux_c_code.Log.Files.{path, path_ne}
use linux_c_code.Log.Opening.{Ready, current, open_log_file-Opened, current_closed, current_open}
use linux_c_code.Log.Short.{Short, whole_bound, Written-Short}
use linux_c_code.Log.Rotation.{Turned, next, stays, Written, print_log-Written}
use linux_c_code.Log.Order.{Written-Ready, path_same}

-- The file that is in turn after `j` others.
abbrev pub slot : Log → ℕ → List ℕ
slot l j = path l ((l.log_file_no + j) % 3)

-- The two files that are not in turn will be emptied when they are; the newer one of them is full, if
-- the older one has text.
pub record Settled (l : Log) : Type 0 where
  pub one : appends (length (contents l.disk (slot l 1))) l.log_file_size ≡ false
  pub two : appends (length (contents l.disk (slot l 2))) l.log_file_size ≡ false
  pub full :
      (length (contents l.disk (slot l 1)) ≡ 0)
      ⊎ (l.log_file_size ≤ length (contents l.disk (slot l 2)))

-- All text, the file that will be written next but one first, and the file in turn last; of a file in
-- turn that is closed and full, the next message empties it, and it is not counted.
unfoldable pub shown : Log → List ℕ
shown l = contents l.disk (slot l 1) ++ (contents l.disk (slot l 2) ++ current l)

-- The first part is what is dropped when the next file is in turn. If anything is, two whole files are
-- left.
abbrev pub Shows : (l l' : Log) → List ℕ → Type 0
Shows l l' text =
    (dropped : List ℕ) × (dropped ++ shown l' ≡ shown l ++ text)
    × ((length dropped ≡ 0) ⊎ (2 * l.log_file_size ≤ length (shown l')))

slot_same :
    (l l' : Log) (i j k : ℕ)
    → l'.log_file_name ≡ l.log_file_name
    → l'.log_file_no ≡ k
    → (k + i) % 3 ≡ j
    → slot l' i ≡ path l j
slot_same l l' i j k n t e = ap₂ (λ x m. get_or x m []) n (ap (λ m. (m + i) % 3) t ∙ e)

-- A file that is not in turn is as before.
kept_slot :
    (l l' : Log) (text : List ℕ) (j : ℕ)
    → Ready l
    → Written l l' text
    → 0 < j
    → j < 3
    → contents l'.disk (slot l j) ≡ contents l.disk (slot l j)
kept_slot l l' text j r w a b =
    let turn = r.turn in
    w.others (slot l j) (
      path_ne l ((l.log_file_no + j) % 3) l.log_file_no r.names (omega arith) turn
        (λ e. omega arith))

-- The texts of the two files that are not in turn, and of the one that is.
record Texts (l : Log) (a b c : List ℕ) : Type 0 where
  one : contents l.disk (slot l 1) ≡ a
  two : contents l.disk (slot l 2) ≡ b
  now : current l ≡ c

shown-Texts : (l : Log) (a b c : List ℕ) → Texts l a b c → shown l ≡ a ++ (b ++ c)
unfolding shown
shown-Texts l a b c t = ap₂ (λ x y. x ++ y) t.one (ap₂ (λ x y. x ++ y) t.two t.now)

Texts-Settled :
    (l : Log) (a b c : List ℕ)
    → Texts l a b c
    → appends (length a) l.log_file_size ≡ false
    → appends (length b) l.log_file_size ≡ false
    → (length a ≡ 0) ⊎ (l.log_file_size ≤ length b)
    → Settled l
Texts-Settled l a b c t x y z = record {
  one = ap (λ s. appends (length s) l.log_file_size) t.one ∙ x;
  two = ap (λ s. appends (length s) l.log_file_size) t.two ∙ y;
  full = (let p = ap length t.one in let q = ap length t.two in ground (arith, z, p, q));
}

not_below : (n size : ℕ) → n < 2 ^ 31 → size ≤ n → appends n size ≡ false
unfolding appends
not_below n size b h = let word : n % 2 ^ 32 ≡ n = omega (arith, b) in ground (arith, word, h)

stays-Texts :
    (l l' : Log) (text : List ℕ)
    → Ready l
    → Written l l' text
    → l'.p_file ≡ some (path_of l)
    → l'.log_file_no ≡ l.log_file_no
    → Texts l' (contents l.disk (slot l 1)) (contents l.disk (slot l 2)) (current l ++ text)
stays-Texts l l' text r w p t =
    let at = λ (j : ℕ). slot_same l l' j ((l.log_file_no + j) % 3) l.log_file_no w.names t refl in
    record {
      one = ap (contents l'.disk) (at 1) ∙ kept_slot l l' text 1 r w (omega arith) (omega arith);
      two = ap (contents l'.disk) (at 2) ∙ kept_slot l l' text 2 r w (omega arith) (omega arith);
      now =
          current_open l' (path_of l) p
          ∙ ap (contents l'.disk) (path_same l l' w.names t)
          ∙ w.whole;
    }

next-Texts :
    (l l' : Log) (text : List ℕ)
    → Ready l
    → Settled l
    → Written l l' text
    → l'.p_file ≡ none
    → l'.log_file_no ≡ (l.log_file_no + 1) % 3
    → Texts l' (contents l.disk (slot l 2)) (current l ++ text) []
next-Texts l l' text r s w p t =
    let turn = r.turn in
    let next_no = (l.log_file_no + 1) % 3 in
    let first : slot l' 1 ≡ slot l 2 =
      slot_same l l' 1 ((l.log_file_no + 2) % 3) next_no w.names t (omega arith) in
    let second : slot l' 2 ≡ path_of l =
      slot_same l l' 2 l.log_file_no next_no w.names t (omega arith) in
    let here : path_of l' ≡ slot l 1 = ap₂ (λ x m. get_or x m []) w.names t in
    let same = ap (contents l'.disk) here ∙ kept_slot l l' text 1 r w (omega arith) (omega arith) in
    let emptied : appends (length (contents l'.disk (path_of l'))) l'.log_file_size ≡ false =
      ap₂ (λ x n. appends (length x) n) same w.size ∙ s.one in
    record {
      one = ap (contents l'.disk) first ∙ kept_slot l l' text 2 r w (omega arith) (omega arith);
      two = ap (contents l'.disk) second ∙ w.whole;
      now = current_closed l' p ∙ ap (λ b. if b then contents l'.disk (path_of l') else []) emptied;
    }

-- The law for three texts in a row.
regroup : (a b c text : List ℕ) → a ++ (b ++ (c ++ text)) ≡ (a ++ (b ++ c)) ++ text
regroup a b c text =
    ap (λ x. a ++ x) (sym (append_assoc b c text)) ∙ sym (append_assoc a (b ++ c) text)

Written-stays :
    (l l' : Log) (text : List ℕ)
    → Ready l
    → Settled l
    → Written l l' text
    → l'.p_file ≡ some (path_of l)
    → l'.log_file_no ≡ l.log_file_no
    → Settled l' × Shows l l' text
unfolding shown
Written-stays l l' text r s w p t =
    let a = contents l.disk (slot l 1) in
    let b = contents l.disk (slot l 2) in
    let ts = stays-Texts l l' text r w p t in
    let keep = λ (x : List ℕ). ap (λ n. appends (length x) n) w.size in
    let size = w.size in
    let full : (length a ≡ 0) ⊎ (l'.log_file_size ≤ length b) =
      (let f = s.full in ground (arith, f, size)) in
    (
      Texts-Settled l' a b (current l ++ text) ts (keep a ∙ s.one) (keep b ∙ s.two) full,
      ([], shown-Texts l' a b (current l ++ text) ts ∙ regroup a b (current l) text, inl refl),
    )

Written-next :
    (l l' : Log) (text : List ℕ)
    → Ready l
    → Settled l
    → Written l l' text
    → length (current l ++ text) < 2 ^ 31
    → l.log_file_size ≤ length (current l ++ text)
    → l'.p_file ≡ none
    → l'.log_file_no ≡ (l.log_file_no + 1) % 3
    → Settled l' × Shows l l' text
unfolding shown
Written-next l l' text r s w small h p t =
    let a = contents l.disk (slot l 1) in
    let b = contents l.disk (slot l 2) in
    let c = current l ++ text in
    let ts = next-Texts l l' text r s w p t in
    let keep = λ (x : List ℕ). ap (λ n. appends (length x) n) w.size in
    let size = w.size in
    let f = s.full in
    let left : shown l' ≡ b ++ c = shown-Texts l' b c [] ts ∙ ap (λ x. b ++ x) (append-nil c) in
    let long = ap length left in
    let sum = length-append b c in
    (
      Texts-Settled l' b c [] ts (keep b ∙ s.two)
          (keep c ∙ not_below (length c) l.log_file_size small h) (inr (omega arith)),
      (a, ap (λ x. a ++ x) left ∙ regroup a b (current l) text, ground (arith, f, long, sum, h)),
    )

Written-Shows :
    (l l' : Log) (text : List ℕ)
    → Ready l
    → Settled l
    → Written l l' text
    → length (current l ++ text) < 2 ^ 31
    → Turned l l' (current l ++ text)
    → Settled l' × Shows l l' text
Written-Shows l l' text r s w small (stays h p t) = Written-stays l l' text r s w p t
Written-Shows l l' text r s w small (next h p t) = Written-next l l' text r s w small h p t

-- One message after the other, each with its time and its type.
unfoldable pub print_all : Calls → List (Time × ℕ × List ℕ) → Log → Log
print_all k [] l = l
print_all k ((now, type, info) ∷ infos) l = print_all k infos (print_log k now type (some info) l).1

-- The lines of these messages.
unfoldable pub lines : List (Time × ℕ × List ℕ) → List ℕ
lines [] = []
lines ((now, type, info) ∷ infos) = log_message now type info ++ lines infos

Shows-step :
    (l l1 l2 : Log) (x y : List ℕ)
    → l1.log_file_size ≡ l.log_file_size
    → Shows l l1 x
    → Shows l1 l2 y
    → Shows l l2 (x ++ y)
Shows-step l l1 l2 x y size (d, e, k) (d', e', k') =
    let sum = length-append d d' in
    let more = ap length e' in
    let left = length-append d' (shown l2) in
    let right = length-append (shown l1) y in
    (
      d ++ d',
      append_assoc d d' (shown l2)
          ∙ ap (λ t. d ++ t) e'
          ∙ sym (append_assoc d (shown l1) y)
          ∙ ap (λ t. t ++ y) e
          ∙ append_assoc (shown l) x y,
      ground (arith, sum, more, left, right, size, k, k'),
    )

-- From a logger in order whose other two files will be emptied, with files that can be opened and stay
-- below 2 ^ 31 bytes, and after any number of messages: the texts of `shown` are the last part of what
-- they were before with all lines of the messages behind it. Nothing at the beginning is dropped, or
-- what is left is at least twice the size of a file.
pub print_all-shown :
    (k : Calls) (infos : List (Time × ℕ × List ℕ)) (l : Log)
    → Ready l
    → Settled l
    → Short l
    → k.stat ≡ true
    → k.fopen ≡ true
    → (l.print_log_place_flag == 0) ≡ false
    → Shows l (print_all k infos l) (lines infos)
unfolding print_all lines
print_all-shown k [] l r s b x y h = ([], sym (append-nil (shown l)), inl refl)
print_all-shown k ((now, type, info) ∷ infos) l r s b x y h =
    let text = log_message now type info in
    let (l', e, w) =
      print_log-Written k now type info l h
        (open_log_file-Opened k l r x y (b.files l.log_file_no r.turn)) in
    let few = whole_bound now type info l r b in
    let small : length (current l ++ text) < 2 ^ 31 = omega (arith, few, b.limit) in
    let (s', shows) = Written-Shows l l' text r s w small w.turned in
    let r' = Written-Ready l l' text r w in
    let b' = Written-Short l l' text r b few w in
    let place = ap (λ f. f == 0) w.place ∙ h in
    let rest = print_all-shown k infos l' r' s' b' x y place in
    let step = Shows-step l l' (print_all k infos l') text (lines infos) w.size shows rest in
    subst (λ o. Shows l (print_all k infos o.1) (text ++ lines infos)) (sym e) step
