-- ===== src/Log/Opening.antt =====
-- Opening a file of the logger in log/src/lf_log.c, and what it holds then.
use mathlib.Core.Path.{subst}
use linux_c_code.Base.{
  ℕ, ◌%◌, ◌^◌, ◌<◌, ◌≡◌, ◌≢◌, refl, sym, ap, ◌∙◌, true, Option, none, some, List, [], if◌then◌else◌,
  length, arith, inl, inr, ◌⊎◌, Option-cases,
}
use linux_c_code.Log.{Log, contents, path_of, appends, Calls, open_as, open_sized, open_log_file}
use linux_c_code.Log.Files.{Names, contents-put_file, contents-put_file_other}

-- A file that is open is the one in turn, and below the size.
abbrev pub OpenFine : Option (List ℕ) → Log → Type 0
OpenFine none l = Unit
OpenFine (some name) l =
    (name ≡ path_of l) × (length (contents l.disk (path_of l)) < l.log_file_size)

-- The logger after `LOG_Init`.
pub record Ready (l : Log) : Type 0 where
  pub names : Names l
  pub turn : l.log_file_no < 3
  pub size : 0 < l.log_file_size
  pub open_fine : OpenFine l.p_file l

-- What the file in turn holds when the next message comes: `LOG_OpenLogFile` may empty it.
unfoldable pub current : Log → List ℕ
current l = elim l.p_file [
  | some name ↦ contents l.disk (path_of l)
  | none ↦
      if appends (length (contents l.disk (path_of l))) l.log_file_size
      then contents l.disk (path_of l)
      else []
]

-- `LOG_OpenLogFile` opens the file in turn with these contents, and changes nothing else.
pub record Opened (l l' : Log) : Type 0 where
  pub p_file : l'.p_file ≡ some (path_of l)
  pub names : l'.log_file_name ≡ l.log_file_name
  pub turn : l'.log_file_no ≡ l.log_file_no
  pub size : l'.log_file_size ≡ l.log_file_size
  pub place : l'.print_log_place_flag ≡ l.print_log_place_flag
  pub text : contents l'.disk (path_of l) ≡ current l
  pub others : (other : List ℕ) → other ≢ path_of l → contents l'.disk other ≡ contents l.disk other

open_closed :
    (k : Calls) (l : Log)
    → k.stat ≡ true
    → k.fopen ≡ true
    → length (contents l.disk (path_of l)) < 2 ^ 31
    → l.p_file ≡ none
    → (open_log_file k l).1
      ≡ open_as (appends (length (contents l.disk (path_of l))) l.log_file_size) l
unfolding open_log_file open_sized contents
open_closed k l s f b h = ground (arith, s, f, b, h)

pub current_closed :
    (l : Log)
    → l.p_file ≡ none
    → current l ≡ (
        if appends (length (contents l.disk (path_of l))) l.log_file_size
        then contents l.disk (path_of l)
        else [])
unfolding current
current_closed l h = ground (arith, h)

pub current_open :
    (l : Log) (name : List ℕ) → l.p_file ≡ some name → current l ≡ contents l.disk (path_of l)
unfolding current
current_open l name h = ground (arith, h)

below_size :
    (text : List ℕ) (size : ℕ)
    → 0 < size
    → length text < 2 ^ 31
    → length (if appends (length text) size then text else []) < size
unfolding appends
below_size text size h b =
    let word : length text % 2 ^ 32 ≡ length text = omega (arith, b) in ground (arith, h, word)

-- What the file in turn holds when a message comes is below the size.
pub current_below :
    (l : Log)
    → Ready l
    → length (contents l.disk (path_of l)) < 2 ^ 31
    → length (current l) < l.log_file_size
current_below l r b = elim (Option-cases l.p_file) [
  | inl e ↦
      subst (λ t. length t < l.log_file_size) (sym (current_closed l e))
        (below_size (contents l.disk (path_of l)) l.log_file_size r.size b)
  | inr (name, e) ↦
      let (n, fits) = subst (λ o. OpenFine o l) e r.open_fine in
      subst (λ t. length t < l.log_file_size) (sym (current_open l name e)) fits
]

open_as-Opened :
    (l : Log)
    → l.p_file ≡ none
    → Opened l (open_as (appends (length (contents l.disk (path_of l))) l.log_file_size) l)
unfolding open_as
open_as-Opened l h =
    let p = path_of l in
    let old = contents l.disk p in
    let kept = if appends (length old) l.log_file_size then old else [] in
    let is_current = current_closed l h in
    record {
      p_file = refl;
      names = refl;
      turn = refl;
      size = refl;
      place = refl;
      text = contents-put_file p kept l.disk ∙ sym is_current;
      others = λ other n. contents-put_file_other p kept other l.disk n;
    }

same_Opened : (l : Log) (name : List ℕ) → l.p_file ≡ some name → name ≡ path_of l → Opened l l
same_Opened l name e n =
    let is_current = current_open l name e in
    record {
      p_file = e ∙ ap some n;
      names = refl;
      turn = refl;
      size = refl;
      place = refl;
      text = sym is_current;
      others = λ other n'. refl;
    }

open_opened :
    (k : Calls) (l : Log) (name : List ℕ) → l.p_file ≡ some name → (open_log_file k l).1 ≡ l
unfolding open_log_file
open_opened k l name e = ground (arith, e)

pub open_log_file-Opened :
    (k : Calls) (l : Log)
    → Ready l
    → k.stat ≡ true
    → k.fopen ≡ true
    → length (contents l.disk (path_of l)) < 2 ^ 31
    → Opened l (open_log_file k l).1
open_log_file-Opened k l r s f small = elim (Option-cases l.p_file) [
  | inl e ↦ subst (Opened l) (sym (open_closed k l s f small e)) (open_as-Opened l e)
  | inr (name, e) ↦
      let (n, b) = subst (λ o. OpenFine o l) e r.open_fine in
      subst (Opened l) (sym (open_opened k l name e)) (same_Opened l name e n)
]

-- A closed file is opened, or the state is as before.
closed-cases :
    (k : Calls) (l : Log)
    → l.p_file ≡ none
    → ((open_log_file k l).1
        ≡ open_as (appends (length (contents l.disk (path_of l))) l.log_file_size) l)
      ⊎ ((open_log_file k l).1 ≡ l)
unfolding open_log_file open_sized contents
closed-cases k l h = ground (arith, h)

pub open_log_file-cases :
    (k : Calls) (l : Log)
    → Ready l
    → Opened l (open_log_file k l).1 ⊎ (((open_log_file k l).1 ≡ l) × (l.p_file ≡ none))
open_log_file-cases k l r = elim (Option-cases l.p_file) [
  | inl e ↦ elim (closed-cases k l e) [
    | inl h ↦ inl (subst (Opened l) (sym h) (open_as-Opened l e))
    | inr h ↦ inr (h, e)
  ]
  | inr (name, e) ↦
      let (n, b) = subst (λ o. OpenFine o l) e r.open_fine in
      inl (subst (Opened l) (sym (open_opened k l name e)) (same_Opened l name e n))
]
