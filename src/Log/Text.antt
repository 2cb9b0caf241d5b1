-- ===== src/Log/Text.antt =====
-- The text that log/src/lf_log.c builds: the time, the type, the message and the names of the files.
-- `snprintf` of n bytes keeps n - 1 of them.
use linux_c_code.Base.{
  ℕ, ◌+◌, ◌-◌, ◌/◌, ◌≤◌, ◌≡◌, ap, List, [], ◌∷◌, ◌++◌, ◌==◌, if◌then◌else◌, length, length-take,
  take, arith,
}
use linux_c_code.Base.Decimal.{padded}

-- The fields of `struct tm` and the microseconds; the year and the month as C counts them.
pub record Time : Type 0 where
  pub tm_year : ℕ
  pub tm_mon : ℕ
  pub tm_mday : ℕ
  pub tm_hour : ℕ
  pub tm_min : ℕ
  pub tm_sec : ℕ
  pub tv_usec : ℕ

-- `snprintf` into a buffer of `n` bytes.
abbrev pub snprintf : (n : ℕ) → List ℕ → List ℕ
snprintf n text = take (n - 1) text

abbrev pub str_comm_size : ℕ
str_comm_size = 128

abbrev pub str_max_size : ℕ
str_max_size = 1_024

-- "%04d-%02d-%02d %02d:%02d:%02d %03ldms"
unfoldable pub time_text : Time → List ℕ
time_text t =
    padded 4 (t.tm_year + 1_900)
    ++ (45
        ∷ (padded 2 (t.tm_mon + 1)
            ++ (45
                ∷ (padded 2 t.tm_mday
                    ++ (32
                        ∷ (padded 2 t.tm_hour
                            ++ (58
                                ∷ (padded 2 t.tm_min
                                    ++ (58
                                        ∷ (padded 2 t.tm_sec
                                            ++ (32
                                                ∷ (padded 3 (t.tv_usec / 1_000)
                                                    ++ (109 ∷ 115 ∷ [])))))))))))))

-- `LOG_PrintLogTime` into a buffer of `n` bytes that is not NULL.
unfoldable pub print_log_time : (n : ℕ) → Time → List ℕ
print_log_time n t = snprintf (n - 1) (time_text t)

-- "DEBUG", "ERROR", "WARNING", "ACTION", "SYSTEM" and "UNKNOWN".
unfoldable pub type_name : ℕ → List ℕ
type_name type =
    if type == 0
    then 68 ∷ 69 ∷ 66 ∷ 85 ∷ 71 ∷ []
    else (if type == 1
        then 69 ∷ 82 ∷ 82 ∷ 79 ∷ 82 ∷ []
        else (if type == 2
            then 87 ∷ 65 ∷ 82 ∷ 78 ∷ 73 ∷ 78 ∷ 71 ∷ []
            else (if type == 3
                then 65 ∷ 67 ∷ 84 ∷ 73 ∷ 79 ∷ 78 ∷ []
                else (if type == 4
                    then 83 ∷ 89 ∷ 83 ∷ 84 ∷ 69 ∷ 77 ∷ []
                    else 85 ∷ 78 ∷ 75 ∷ 78 ∷ 79 ∷ 87 ∷ 78 ∷ []))))

-- `LOG_LogTypeToStr` into a buffer of `n` bytes that is not NULL and not empty: `strncpy` copies at
-- most n - 1 of them.
unfoldable pub log_type_to_str : (n type : ℕ) → List ℕ
log_type_to_str n type = take (n - 1) (type_name type)

-- The line that `LOG_PrintLog` puts together: "[%s] [%s] %s".
unfoldable pub log_message : Time → (type : ℕ) → (info : List ℕ) → List ℕ
log_message now type info = snprintf (str_max_size - 1) (
    91
    ∷ (print_log_time str_comm_size now
        ++ (93 ∷ 32 ∷ 91 ∷ (log_type_to_str str_comm_size type ++ (93 ∷ 32 ∷ info)))))

-- The line without its limit.
unfoldable pub full_line : Time → (type : ℕ) → (info : List ℕ) → List ℕ
full_line now type info =
    91 ∷ (print_log_time str_comm_size now ++ (93 ∷ 32 ∷ 91 ∷ (type_name type ++ (93 ∷ 32 ∷ info))))

type_name_whole : (type : ℕ) → log_type_to_str str_comm_size type ≡ type_name type
unfolding log_type_to_str type_name
type_name_whole type = ground arith

-- `LOG_PrintLog` cuts its line to 1022 bytes, and nothing else.
pub log_message_cut :
    (now : Time) (type : ℕ) (info : List ℕ)
    → log_message now type info ≡ take 1_022 (full_line now type info)
unfolding log_message full_line
log_message_cut now type info =
    ap
      (λ t.
        take 1_022
          (91 ∷ (print_log_time str_comm_size now ++ (93 ∷ 32 ∷ 91 ∷ (t ++ (93 ∷ 32 ∷ info))))))
      (type_name_whole type)

-- The name of the file with the number `i` that `LOG_Init` makes: "./%s_%02d".
unfoldable pub place_name : List ℕ → (i : ℕ) → List ℕ
place_name name i = snprintf (str_comm_size - 1) (46 ∷ 47 ∷ (name ++ (95 ∷ padded 2 i)))

-- A line has at most 1022 bytes.
pub length-log_message :
    (now : Time) (type : ℕ) (info : List ℕ) → length (log_message now type info) ≤ 1_022
unfolding log_message
length-log_message now type info = omega (
  arith,
  length-take 1_022 (
      91
      ∷ (print_log_time str_comm_size now
          ++ (93 ∷ 32 ∷ 91 ∷ (log_type_to_str str_comm_size type ++ (93 ∷ 32 ∷ info))))),
)
