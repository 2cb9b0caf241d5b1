-- ===== src/Log/Rotation.antt =====
-- One message of the logger in log/src/lf_log.c: where it goes, and when the next file is in turn.
use mathlib.Core.Path.{subst}
use linux_c_code.Base.{
  ℕ, ◌+◌, ◌%◌, ◌≤◌, ◌<◌, ◌≡◌, ◌≢◌, refl, sym, ap, ◌∙◌, true, false, none, some, List, ◌++◌, ◌==◌,
  leb, length, arith, inl, inr, Bool-cases,
}
use linux_c_code.Base.Int.{pos}
use linux_c_code.Log.Text.{Time, log_message}
use linux_c_code.Log.{Log, put_file, contents, path_of, Calls, open_log_file, write_log, print_log}
use linux_c_code.Log.Files.{contents-put_file, contents-put_file_other}
use linux_c_code.Log.Opening.{current, Opened}

-- Whether the next file is in turn after a message, or the file stays open.
pub data Turned (l l' : Log) (whole : List ℕ) : Type 0 where
  next :
      l.log_file_size ≤ length whole
      → l'.p_file ≡ none
      → l'.log_file_no ≡ (l.log_file_no + 1) % 3
      → Turned l l' whole
  stays :
      length whole < l.log_file_size
      → l'.p_file ≡ some (path_of l)
      → l'.log_file_no ≡ l.log_file_no
      → Turned l l' whole

-- A message has gone behind what the file in turn held; the other files are as before.
pub record Written (l l' : Log) (text : List ℕ) : Type 0 where
  pub names : l'.log_file_name ≡ l.log_file_name
  pub size : l'.log_file_size ≡ l.log_file_size
  pub place : l'.print_log_place_flag ≡ l.print_log_place_flag
  pub whole : contents l'.disk (path_of l) ≡ current l ++ text
  pub others : (other : List ℕ) → other ≢ path_of l → contents l'.disk other ≡ contents l.disk other
  pub turned : Turned l l' (current l ++ text)

-- What has been written, before the size is tested.
abbrev written : List ℕ → Log → Log → Log
written text l l' = record l' {
  disk = put_file (path_of l) (contents l'.disk (path_of l) ++ text) l'.disk;
}

write_full :
    (text : List ℕ) (l l' : Log)
    → leb l'.log_file_size (length (contents l'.disk (path_of l) ++ text)) ≡ true
    → write_log text (path_of l) l'
      ≡ record (written text l l') { p_file = none; log_file_no = (l'.log_file_no + 1) % 3 }
unfolding write_log
write_full text l l' h = ground (arith, h)

write_short :
    (text : List ℕ) (l l' : Log)
    → leb l'.log_file_size (length (contents l'.disk (path_of l) ++ text)) ≡ false
    → write_log text (path_of l) l' ≡ written text l l'
unfolding write_log
write_short text l l' h = ground (arith, h)

write_log-Written :
    (l l' : Log) (text : List ℕ) → Opened l l' → Written l (write_log text (path_of l) l') text
write_log-Written l l' text o =
    let p = path_of l in
    let whole = contents l'.disk p ++ text in
    let all : whole ≡ current l ++ text = ap (λ t. t ++ text) o.text in
    let size = o.size in
    let here = contents-put_file p whole l'.disk ∙ all in
    let there = λ (other : List ℕ) (n : other ≢ p).
      contents-put_file_other p whole other l'.disk n ∙ o.others other n in
    let longer = ap length all in
    elim (Bool-cases (leb l'.log_file_size (length whole))) [
      | inl h ↦
          subst (λ x. Written l x text) (sym (write_full text l l' h))
            (record {
              names = o.names;
              size = size;
              place = o.place;
              whole = here;
              others = there;
              turned = next (ground (arith, h, longer, size)) refl (ap (λ n. (n + 1) % 3) o.turn);
            })
      | inr h ↦
          subst (λ x. Written l x text) (sym (write_short text l l' h))
            (record {
              names = o.names;
              size = size;
              place = o.place;
              whole = here;
              others = there;
              turned = stays (ground (arith, h, longer, size)) o.p_file o.turn;
            })
    ]

print_log-file :
    (k : Calls) (now : Time) (type : ℕ) (info name : List ℕ) (l : Log)
    → (l.print_log_place_flag == 0) ≡ false
    → (open_log_file k l).1.p_file ≡ some name
    → print_log k now type (some info) l
      ≡ (pos 0, write_log (log_message now type info) name (open_log_file k l).1)
unfolding print_log
print_log-file k now type info name l h e = ground (arith, h, e)

pub print_log-lost :
    (k : Calls) (now : Time) (type : ℕ) (info : List ℕ) (l : Log)
    → (l.print_log_place_flag == 0) ≡ false
    → (open_log_file k l).1 ≡ l
    → l.p_file ≡ none
    → print_log k now type (some info) l ≡ (pos 0, l)
unfolding print_log
print_log-lost k now type info l h same e = ground (arith, h, same, e)

pub print_log-Written :
    (k : Calls) (now : Time) (type : ℕ) (info : List ℕ) (l : Log)
    → (l.print_log_place_flag == 0) ≡ false
    → Opened l (open_log_file k l).1
    → (l' : Log) × (print_log k now type (some info) l ≡ (pos 0, l'))
      × Written l l' (log_message now type info)
print_log-Written k now type info l h o =
    let l1 = (open_log_file k l).1 in
    let text = log_message now type info in
    (
      write_log text (path_of l) l1,
      print_log-file k now type info (path_of l) l h o.p_file,
      write_log-Written l l1 text o,
    )
