-- ===== src/Crc/Tests.antt =====
-- Runs of the checksum of bin_crc_make/src/main.c, and its theorems at small files.
use linux_c_code.Base.{ℕ, ◌≡◌, ◌≢◌, refl, true, some, List, [], ◌∷◌, ◌++◌, arith}
use linux_c_code.Crc.{crc32, crc_buff, System, written, main, crc_loop, round, entry}
use linux_c_code.Crc.Bitwise.{bitwise_crc32, AreBytes, crc32_lem}
use linux_c_code.Crc.File.{residue, crc32-append, main_lem}
use linux_c_code.Crc.Detect.{crc32-change}

-- The digits from 1 to 9, as characters.
abbrev digits_file : List ℕ
digits_file = 49 ∷ 50 ∷ 51 ∷ 52 ∷ 53 ∷ 54 ∷ 55 ∷ 56 ∷ 57 ∷ []

digits_file-AreBytes : AreBytes digits_file
digits_file-AreBytes = (
  omega arith,
  (
    omega arith,
    (
      omega arith,
      (omega arith, (omega arith, (omega arith, (omega arith, (omega arith, (omega arith, tt)))))),
    ),
  ),
)

check_value : crc32 digits_file ≡ 0xcbf43926
unfolding crc32 crc_loop round entry
check_value = refl

crc32_example : crc32 digits_file ≡ bitwise_crc32 digits_file
crc32_example = crc32_lem digits_file digits_file-AreBytes

crc32-append_example : crc32 (digits_file ++ crc_buff (crc32 digits_file)) ≡ residue
crc32-append_example = crc32-append digits_file digits_file-AreBytes

crc32-change_example : crc32 (1 ∷ 2 ∷ 3 ∷ []) ≢ crc32 (1 ∷ 7 ∷ 3 ∷ [])
crc32-change_example =
    crc32-change (1 ∷ []) (3 ∷ []) 2 7 (omega arith, tt) (omega arith, tt) (omega arith)
      (omega arith) (omega arith)

abbrev system : System
system = record {
  size = some 9;
  contents = some digits_file;
  memory = [];
  created = true;
  first_write = 9;
  second_write = 4;
}

main_example :
    main system
    ≡ written (bitwise_crc32 digits_file) (digits_file ++ crc_buff (bitwise_crc32 digits_file))
main_example =
    main_lem system digits_file digits_file-AreBytes (omega arith) refl refl refl refl refl
