-- ===== src/Utils/BytesCount.antt =====
-- library/utils/bytes_helper.hpp: the literals `_B`, `_KB`, `_MB` and `_GB` on `unsigned long long`.
use ccnet_utilities.Common.{ℕ, ◌*◌, ◌%◌, ◌^◌}

abbrev pub bytes_count_mod : ℕ
bytes_count_mod = 2 ^ 64

abbrev pub b : ℕ
b = 1

abbrev pub kb : ℕ
kb = b * 1024

abbrev pub mb : ℕ
mb = kb * 1024

abbrev pub gb : ℕ
gb = mb * 1024

-- The literal operators.
abbrev pub of_b : ℕ → ℕ
of_b bs = bs * b % bytes_count_mod

abbrev pub of_kb : ℕ → ℕ
of_kb kbs = kbs * kb % bytes_count_mod

abbrev pub of_mb : ℕ → ℕ
of_mb mbs = mbs * mb % bytes_count_mod

abbrev pub of_gb : ℕ → ℕ
of_gb gbs = gbs * gb % bytes_count_mod
