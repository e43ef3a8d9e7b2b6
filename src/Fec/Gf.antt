-- ===== src/Fec/Gf.antt =====
-- The arithmetic of GF(2^8) in tight/src/fec.cpp: the two tables and the operations that read them.
pub mod Tables
pub mod Field
pub mod Laws
use damen.Common.{
  ℕ, zero, suc, ◌+◌, ◌-◌, ◌*◌, ◌%◌, bit_and, bit_xor, List, [], ◌∷◌, get_or, set, replicate, ◌==◌,
  if◌then◌else◌, ◌||◌,
}
use damen.Common.Bytes.{u8, u16, shl}

pub record GfTables : Type 0 where
  pub exp : List ℕ
  pub log : List ℕ

-- `x <<= 1; if (x & 0x100) x ^= 0x11D;`
unfoldable pub next_power : ℕ → ℕ
next_power x =
    let doubled = u16 (shl x 1) in
    if bit_and doubled 0x100 == 0 then doubled else bit_xor doubled 0x11d

-- The first loop of the constructor, from index `i` with `n` rounds left.
fill_tables : ℕ → ℕ → ℕ → GfTables → GfTables
unfolding next_power
fill_tables zero i x t = t
fill_tables (suc n) i x t =
    fill_tables n (i + 1) (next_power x)
      (record { exp = set t.exp i (u8 x); log = set t.log x (u8 i) })

-- The second loop.
repeat_powers : ℕ → ℕ → List ℕ → List ℕ
repeat_powers zero i exp = exp
repeat_powers (suc n) i exp = repeat_powers n (i + 1) (set exp i (get_or exp (i - 255) 0))

unfoldable pub gf : GfTables
unfolding fill_tables repeat_powers
gf =
    let t = fill_tables 255 0 1 (record { exp = replicate 512 0; log = replicate 256 0 }) in
    record { exp = repeat_powers 257 255 t.exp; log = t.log }

abbrev pub gf_exp : ℕ → ℕ
gf_exp i = get_or gf.exp i 0

abbrev pub gf_log : ℕ → ℕ
gf_log a = get_or gf.log a 0

unfoldable pub gf_mul : ℕ → ℕ → ℕ
gf_mul a b = if a == 0 || b == 0 then 0 else gf_exp (gf_log a + gf_log b)

unfoldable pub gf_pow : ℕ → ℕ → ℕ
gf_pow a e = if e == 0 then 1 else if a == 0 then 0 else gf_exp (gf_log a * e % 255)

unfoldable pub gf_inv : ℕ → ℕ
gf_inv a = gf_exp (255 - gf_log a)

-- The coefficient of a data fragment in a parity fragment. The index of a parity is below 2 ^ 16, as
-- the total count is, so the conversion to int keeps it and its product with a logarithm fits.
unfoldable pub coef : ℕ → ℕ → ℕ
unfolding gf_pow
coef parity_index data_index = gf_pow (u8 (data_index + 1)) parity_index
