-- ===== src/Wire/Crc.antt =====
-- tight/src/crc32.cpp: the table, and the checksum that reads it a byte at a time.
pub mod Bitwise
pub mod Errors
use damen.Common.{ℕ, zero, suc, ◌+◌, bit_and, bit_xor, List, [], ◌∷◌, ◌==◌, if◌then◌else◌, get_or}
use damen.Common.Bytes.{shr}

abbrev pub polynomial : ℕ
polynomial = 0xedb88320

-- One round of the inner loop of `init_crc_table`.
unfoldable pub crc_round : ℕ → ℕ
crc_round c = if bit_and c 1 == 0 then shr c 1 else bit_xor polynomial (shr c 1)

unfoldable pub crc_rounds : ℕ → ℕ → ℕ
unfolding crc_round
crc_rounds zero c = c
crc_rounds (suc k) c = crc_rounds k (crc_round c)

-- The outer loop from index `i`, with `n` entries left.
table_from : ℕ → ℕ → List ℕ
unfolding crc_rounds
table_from zero i = []
table_from (suc n) i = crc_rounds 8 i ∷ table_from n (i + 1)

unfoldable pub crc_table : List ℕ
unfolding table_from
crc_table = table_from 256 0

-- The loop of `crc32_update` over the bytes that are left.
unfoldable pub crc32_update : ℕ → List ℕ → ℕ
unfolding crc_table
crc32_update crc [] = crc
crc32_update crc (b ∷ bs) =
    crc32_update (bit_xor (get_or crc_table (bit_and (bit_xor crc b) 0xff) 0) (shr crc 8)) bs

unfoldable pub crc32_compute : List ℕ → ℕ
unfolding crc32_update
crc32_compute bs = bit_xor (crc32_update 0xffffffff bs) 0xffffffff
