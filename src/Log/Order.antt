-- ===== src/Log/Order.antt =====
-- The logger of log/src/lf_log.c stays in order, whatever its calls answer.
use mathlib.Core.Path.{subst}
use linux_c_code.Base.{
  ℕ, ◌<◌, ◌≡◌, ◌≢◌, refl, sym, ap, ap₂, ◌∙◌, true, Option, none, some, List, [], ◌++◌, ◌==◌, length,
  get_or, arith, inl, inr, Bool-cases,
}
use linux_c_code.Log.Text.{Time, log_message}
use linux_c_code.Log.{Log, contents, path_of, Calls, print_log}
use linux_c_code.Log.Files.{Names}
use linux_c_code.Log.Opening.{OpenFine, Ready, current, open_log_file-cases}
use linux_c_code.Log.Rotation.{Turned, next, stays, Written, print_log-Written, print_log-lost}

pub path_same :
    (l l' : Log)
    → l'.log_file_name ≡ l.log_file_name
    → l'.log_file_no ≡ l.log_file_no
    → path_of l' ≡ path_of l
path_same l l' n t = ap₂ (λ x i. get_or x i []) n t

still_fine :
    (l l' : Log) (text : List ℕ)
    → Written l l' text
    → Turned l l' (current l ++ text)
    → OpenFine l'.p_file l'
still_fine l l' text w (next a p t) = subst (λ o. OpenFine o l') (sym p) tt
still_fine l l' text w (stays a p t) =
    let same = path_same l l' w.names t in
    let fits : length (contents l'.disk (path_of l')) < l'.log_file_size =
      subst (λ n. length (contents l'.disk (path_of l')) < n) (sym w.size)
        (subst (λ t. length t < l.log_file_size) (sym (ap (contents l'.disk) same ∙ w.whole)) a) in
    subst (λ o. OpenFine o l') (sym p) (sym same, fits)

turn_bound :
    (l l' : Log) (whole : List ℕ) → l.log_file_no < 3 → Turned l l' whole → l'.log_file_no < 3
turn_bound l l' whole h (next a p t) = omega arith
turn_bound l l' whole h (stays a p t) = omega arith

Names-same : (l l' : Log) → l'.log_file_name ≡ l.log_file_name → Names l → Names l'
Names-same l l' e n = record {
  first_second = subst (λ x. get_or x 0 [] ≢ get_or x 1 []) (sym e) n.first_second;
  first_third = subst (λ x. get_or x 0 [] ≢ get_or x 2 []) (sym e) n.first_third;
  second_third = subst (λ x. get_or x 1 [] ≢ get_or x 2 []) (sym e) n.second_third;
}

pub Written-Ready : (l l' : Log) (text : List ℕ) → Ready l → Written l l' text → Ready l'
Written-Ready l l' text r w = record {
  names = Names-same l l' w.names r.names;
  turn = turn_bound l l' (current l ++ text) r.turn w.turned;
  size = omega (arith, w.size, r.size);
  open_fine = still_fine l l' text w w.turned;
}

print_log-terminal :
    (k : Calls) (now : Time) (type : ℕ) (info : List ℕ) (l : Log)
    → (l.print_log_place_flag == 0) ≡ true
    → (print_log k now type (some info) l).1
      ≡ record l { terminal = l.terminal ++ log_message now type info }
unfolding print_log
print_log-terminal k now type info l h = ground (arith, h)

fine_terminal :
    (o : Option (List ℕ)) (l : Log) (t : List ℕ)
    → OpenFine o l
    → OpenFine o (record l { terminal = t })
fine_terminal none l t h = tt
fine_terminal (some name) l t h = h

print_log-null : (k : Calls) (now : Time) (type : ℕ) (l : Log) → (print_log k now type none l).1 ≡ l
unfolding print_log
print_log-null k now type l = refl

-- Whatever `stat` and `fopen` answer, and whatever the flags say, a message keeps the logger in order:
-- a file number below 3, and no open file but the one in turn, which is below the size.
pub print_log-Ready :
    (k : Calls) (now : Time) (type : ℕ) (info : Option (List ℕ)) (l : Log)
    → Ready l
    → Ready (print_log k now type info l).1
print_log-Ready k now type none l r = subst Ready (sym (print_log-null k now type l)) r
print_log-Ready k now type (some info) l r = elim (Bool-cases (l.print_log_place_flag == 0)) [
  | inl h ↦ subst Ready (sym (print_log-terminal k now type info l h)) (record {
    names = record {
      first_second = r.names.first_second;
      first_third = r.names.first_third;
      second_third = r.names.second_third;
    };
    turn = r.turn;
    size = r.size;
    open_fine = fine_terminal l.p_file l (l.terminal ++ log_message now type info) r.open_fine;
  })
  | inr h ↦ elim (open_log_file-cases k l r) [
    | inl o ↦
        let (l', e, w) = print_log-Written k now type info l h o in
        subst Ready (ap (λ x. x.1) (sym e)) (Written-Ready l l' (log_message now type info) r w)
    | inr (same, p) ↦
        subst Ready (ap (λ x. x.1) (sym (print_log-lost k now type info l h same p))) r
  ]
]
