-- ===== src/Log/Tests.antt =====
-- Runs of the logger of log/src/lf_log.c on small inputs, and its theorems at these.
use mathlib.Core.Path.{subst}
use linux_c_code.Base.{
  ℕ, ◌*◌, ◌≤◌, ◌≡◌, refl, sym, ap, true, false, Option, none, some, List, [], ◌∷◌, ◌++◌, length,
  arith, ◌⊎◌,
}
use linux_c_code.Base.Int.{pos}
use linux_c_code.Base.Decimal.{padded, decimal, digits_back, reverse_onto}
use linux_c_code.Log.Text.{Time, log_message, time_text, print_log_time, log_type_to_str, type_name}
use linux_c_code.Log.{Log, start, set_print_log_place_flag, contents, Calls, print_log, log_init}
use linux_c_code.Log.Opening.{Ready}
use linux_c_code.Log.Order.{print_log-Ready}
use linux_c_code.Log.Shown.{shown, print_all, lines}
use linux_c_code.Log.Setup.{log_init-Ready, NoFiles, start-shown}

-- The 5th of March 2024, 12:34:56 and 7 milliseconds.
abbrev noon : Time
noon = record {
  tm_year = 124;
  tm_mon = 2;
  tm_mday = 5;
  tm_hour = 12;
  tm_min = 34;
  tm_sec = 56;
  tv_usec = 7_800;
}

-- "[2024-03-05 12:34:56 007ms] [ERROR] hi"
message_run :
    log_message noon 1 (104 ∷ 105 ∷ [])
    ≡ 91 ∷ 50 ∷ 48 ∷ 50 ∷ 52 ∷ 45 ∷ 48 ∷ 51 ∷ 45 ∷ 48 ∷ 53 ∷ 32 ∷ 49 ∷ 50 ∷ 58 ∷ 51 ∷ 52 ∷ 58 ∷ 53
      ∷ 54 ∷ 32 ∷ 48 ∷ 48 ∷ 55 ∷ 109 ∷ 115 ∷ 93 ∷ 32 ∷ 91 ∷ 69 ∷ 82 ∷ 82 ∷ 79 ∷ 82 ∷ 93 ∷ 32 ∷ 104
      ∷ 105 ∷ []
unfolding log_message print_log_time time_text log_type_to_str type_name padded decimal digits_back
    reverse_onto
message_run = refl

abbrev no_file : List ℕ → Option (List ℕ)
no_file name = none

abbrev begun : Log
begun = set_print_log_place_flag 1 (start no_file)

abbrev works : Calls
works = record { stat = true; fopen = true }

-- "a", and files of 40 bytes.
abbrev made : Log
made = (log_init (some (97 ∷ [])) 40 begun).1

made-Ready : Ready made
unfolding start set_print_log_place_flag
made-Ready =
    let (l', e, r, size, mutex) =
      log_init-Ready (97 ∷ []) 39 begun (omega arith) refl refl refl (omega arith) in
    subst Ready (ap (λ x. x.1) (sym e)) r

no_files : NoFiles made
unfolding start set_print_log_place_flag log_init contents
no_files = record { here = refl; one = refl; two = refl }

print_log-Ready_example :
    Ready (print_log (record { stat = true; fopen = false }) noon 1 (some (104 ∷ [])) made).1
print_log-Ready_example =
    print_log-Ready (record { stat = true; fopen = false }) noon 1 (some (104 ∷ [])) made made-Ready

abbrev three : List (Time × ℕ × List ℕ)
three = (noon, 1, 104 ∷ []) ∷ (noon, 2, 105 ∷ []) ∷ (noon, 3, 106 ∷ []) ∷ []

start-shown_example :
    (l : Log) × (log_init (some (97 ∷ [])) 40 begun ≡ (pos 0, l))
    × ((dropped : List ℕ) × (dropped ++ shown (print_all works three l) ≡ lines three)
        × ((length dropped ≡ 0) ⊎ (2 * 40 ≤ length (shown (print_all works three l)))))
start-shown_example =
    start-shown (97 ∷ []) 39 no_file works three (omega arith) (omega arith) refl refl refl refl
      refl
