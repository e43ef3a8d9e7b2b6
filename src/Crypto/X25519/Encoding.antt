-- ===== src/Crypto/X25519/Encoding.antt =====
-- Field elements from and to 32 bytes, in tight/src/crypto.cpp. The limbs of `fe_tobytes` are below 2^63
-- when they are taken as signed numbers.
use damen.Common.{
  ℕ, zero, suc, ◌+◌, ◌-◌, ◌*◌, bit_and, bit_or, [], ◌∷◌, drop, get_or, ltb, if◌then◌else◌,
}
use damen.Common.Bytes.{u8, u64, shr, shl}
use damen.Fec.Code.{Bytes}
use damen.Crypto.X25519.Field.{Fe, mask51, minus}

-- The loop of `load_le64`, with `n` bytes left from byte `i` on.
unfoldable pub load_loop : ℕ → ℕ → ℕ → Bytes → ℕ
load_loop zero i v b = v
load_loop (suc n) i v b = load_loop n (i + 1) (bit_or v (u64 (shl (get_or b i 0) (i * 8)))) b

unfoldable pub load_le64 : Bytes → ℕ
unfolding load_loop
load_le64 b = load_loop 8 0 0 b

unfoldable pub fe_frombytes : Bytes → Fe
unfolding load_le64
fe_frombytes s = record {
  l0 = bit_and (load_le64 s) mask51;
  l1 = bit_and (shr (load_le64 (drop 6 s)) 3) mask51;
  l2 = bit_and (shr (load_le64 (drop 12 s)) 6) mask51;
  l3 = bit_and (shr (load_le64 (drop 19 s)) 1) mask51;
  l4 = bit_and (shr (load_le64 (drop 24 s)) 12) mask51;
}

-- One pass of the carries.
unfoldable pub carry_pass : Fe → Fe
carry_pass h =
    let h1 = u64 (h.l1 + shr h.l0 51) in
    let h2 = u64 (h.l2 + shr h1 51) in
    let h3 = u64 (h.l3 + shr h2 51) in
    let h4 = u64 (h.l4 + shr h3 51) in
    record {
      l0 = u64 (bit_and h.l0 mask51 + u64 (19 * shr h4 51));
      l1 = bit_and h1 mask51;
      l2 = bit_and h2 mask51;
      l3 = bit_and h3 mask51;
      l4 = bit_and h4 mask51;
    }

-- A limb of `h - p` with the borrow into it.
abbrev borrow_out : ℕ → ℕ → ℕ → ℕ
borrow_out h p borrow = if ltb h (p + borrow) then 1 else 0

abbrev limb_out : ℕ → ℕ → ℕ → ℕ
limb_out h p borrow = bit_and (minus h (p + borrow)) mask51

abbrev chosen : ℕ → ℕ → ℕ → ℕ
chosen keep h m = bit_or (bit_and keep h) (bit_and (0xffffffffffffffff - keep) m)

-- The conditional subtraction of p.
unfoldable pub reduce : Fe → Fe
reduce h =
    let b0 = borrow_out h.l0 (mask51 - 18) 0 in
    let b1 = borrow_out h.l1 mask51 b0 in
    let b2 = borrow_out h.l2 mask51 b1 in
    let b3 = borrow_out h.l3 mask51 b2 in
    let b4 = borrow_out h.l4 mask51 b3 in
    let keep = minus 0 b4 in
    record {
      l0 = chosen keep h.l0 (limb_out h.l0 (mask51 - 18) 0);
      l1 = chosen keep h.l1 (limb_out h.l1 mask51 b0);
      l2 = chosen keep h.l2 (limb_out h.l2 mask51 b1);
      l3 = chosen keep h.l3 (limb_out h.l3 mask51 b2);
      l4 = chosen keep h.l4 (limb_out h.l4 mask51 b3);
    }

-- The packing of the limbs.
unfoldable pub pack : Fe → Bytes
pack out =
    u8 out.l0
    ∷ u8 (shr out.l0 8)
    ∷ u8 (shr out.l0 16)
    ∷ u8 (shr out.l0 24)
    ∷ u8 (shr out.l0 32)
    ∷ u8 (shr out.l0 40)
    ∷ u8 (bit_or (shr out.l0 48) (u64 (shl out.l1 3)))
    ∷ u8 (shr out.l1 5)
    ∷ u8 (shr out.l1 13)
    ∷ u8 (shr out.l1 21)
    ∷ u8 (shr out.l1 29)
    ∷ u8 (shr out.l1 37)
    ∷ u8 (bit_or (shr out.l1 45) (u64 (shl out.l2 6)))
    ∷ u8 (shr out.l2 2)
    ∷ u8 (shr out.l2 10)
    ∷ u8 (shr out.l2 18)
    ∷ u8 (shr out.l2 26)
    ∷ u8 (shr out.l2 34)
    ∷ u8 (shr out.l2 42)
    ∷ u8 (bit_or (shr out.l2 50) (u64 (shl out.l3 1)))
    ∷ u8 (shr out.l3 7)
    ∷ u8 (shr out.l3 15)
    ∷ u8 (shr out.l3 23)
    ∷ u8 (shr out.l3 31)
    ∷ u8 (shr out.l3 39)
    ∷ u8 (bit_or (shr out.l3 47) (u64 (shl out.l4 4)))
    ∷ u8 (shr out.l4 4)
    ∷ u8 (shr out.l4 12)
    ∷ u8 (shr out.l4 20)
    ∷ u8 (shr out.l4 28)
    ∷ u8 (shr out.l4 36)
    ∷ u8 (shr out.l4 44)
    ∷ []

unfoldable pub fe_tobytes : Fe → Bytes
unfolding carry_pass reduce pack
fe_tobytes h = pack (reduce (carry_pass (carry_pass (carry_pass h))))
