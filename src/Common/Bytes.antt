-- ===== src/Common/Bytes.antt =====
-- Byte buffers and machine words: unsigned wrap-around, shifts, the memory image of a word on a
-- little-endian host, and memcpy into and out of a buffer.
use Prim.Native.Nat.{ℕ, zero, suc, ◌+◌, ◌*◌, ◌/◌, ◌%◌, ◌^◌, ◌≤◌, ◌<◌}
use mathlib.Core.Path.{◌≡◌, refl, ap, ◌∙◌}
use mathlib.Core.List.{List, [], ◌∷◌, ◌++◌}
use native.Mathlib.Omega.{arith}
use damen.Common.Lists.{length, replicate, take}

abbrev pub u8 : ℕ → ℕ
u8 n = n % 2 ^ 8

abbrev pub u16 : ℕ → ℕ
u16 n = n % 2 ^ 16

abbrev pub u32 : ℕ → ℕ
u32 n = n % 2 ^ 32

abbrev pub u64 : ℕ → ℕ
u64 n = n % 2 ^ 64

-- `x >> k`; a left shift is `x * 2 ^ k`, cut off by the cast round it.
abbrev pub shr : ℕ → ℕ → ℕ
shr x k = x / 2 ^ k

abbrev pub shl : ℕ → ℕ → ℕ
shl x k = x * 2 ^ k

-- The bytes of a word in memory, lowest first, and the word that such bytes make.
abbrev pub mem16 : ℕ → List ℕ
mem16 v = v % 256 ∷ v / 256 % 256 ∷ []

abbrev pub mem32 : ℕ → List ℕ
mem32 v = v % 256 ∷ v / 256 % 256 ∷ v / 65536 % 256 ∷ v / 16777216 % 256 ∷ []

abbrev pub mem64 : ℕ → List ℕ
mem64 v = mem32 (v % 2 ^ 32) ++ mem32 (v / 2 ^ 32)

abbrev pub word16 : ℕ → ℕ → ℕ
word16 b0 b1 = b0 + b1 * 256

abbrev pub word32 : ℕ → ℕ → ℕ → ℕ → ℕ
word32 b0 b1 b2 b3 = b0 + b1 * 256 + b2 * 65536 + b3 * 16777216

-- The bytes of a word in network order.
abbrev pub be16 : ℕ → List ℕ
be16 v = v / 256 ∷ v % 256 ∷ []

abbrev pub be32 : ℕ → List ℕ
be32 v = v / 16777216 ∷ v / 65536 % 256 ∷ v / 256 % 256 ∷ v % 256 ∷ []

-- memcpy to the start of a buffer, and to an offset; a write past the end is dropped.
abbrev pub overwrite : List ℕ → List ℕ → List ℕ
overwrite buf [] = buf
overwrite [] (b ∷ bs) = []
overwrite (x ∷ buf) (b ∷ bs) = b ∷ overwrite buf bs

abbrev pub memcpy_to : List ℕ → ℕ → List ℕ → List ℕ
memcpy_to buf zero bs = overwrite buf bs
memcpy_to [] (suc off) bs = []
memcpy_to (x ∷ buf) (suc off) bs = x ∷ memcpy_to buf off bs

-- Every element is a byte.
abbrev pub AllBytes : List ℕ → Type 0
AllBytes [] = Unit {0}
AllBytes (b ∷ bs) = (b < 256) × AllBytes bs

pub overwrite-replicate : (bs : List ℕ) → overwrite (replicate (length bs) 0) bs ≡ bs
overwrite-replicate [] = refl
overwrite-replicate (b ∷ bs) = ap (◌∷◌ b) (overwrite-replicate bs)

pub length-overwrite : (buf bs : List ℕ) → length (overwrite buf bs) ≡ length buf
length-overwrite buf [] = refl
length-overwrite [] (b ∷ bs) = refl
length-overwrite (x ∷ buf) (b ∷ bs) = ap suc (length-overwrite buf bs)

pub length-memcpy_to :
    (buf : List ℕ) (off : ℕ) (bs : List ℕ) → length (memcpy_to buf off bs) ≡ length buf
length-memcpy_to buf zero bs = length-overwrite buf bs
length-memcpy_to [] (suc off) bs = refl
length-memcpy_to (x ∷ buf) (suc off) bs = ap suc (length-memcpy_to buf off bs)

pub AllBytes-append : (xs ys : List ℕ) → AllBytes xs → AllBytes ys → AllBytes (xs ++ ys)
AllBytes-append [] ys h k = k
AllBytes-append (x ∷ xs) ys h k = (h.0, AllBytes-append xs ys h.1 k)

pub AllBytes-split : (xs ys : List ℕ) → AllBytes (xs ++ ys) → AllBytes xs × AllBytes ys
AllBytes-split [] ys h = (tt, h)
AllBytes-split (x ∷ xs) ys h = let parts = AllBytes-split xs ys h.1 in ((h.0, parts.0), parts.1)

take-overwrite :
    (buf bs : List ℕ) → length bs ≤ length buf → take (length bs) (overwrite buf bs) ≡ bs
take-overwrite buf [] h = refl
take-overwrite [] (b ∷ bs) h = absurd (omega arith)
take-overwrite (x ∷ buf) (b ∷ bs) h = ap (◌∷◌ b) (take-overwrite buf bs (omega arith))

pub take-memcpy_to :
    (buf : List ℕ) (off : ℕ) (bs : List ℕ)
    → off + length bs ≤ length buf
    → take (off + length bs) (memcpy_to buf off bs) ≡ take off buf ++ bs
take-memcpy_to buf zero bs h =
    ap (λ n. take n (overwrite buf bs)) (from_start (length bs))
    ∙ take-overwrite buf bs (omega arith)
  where
    from_start : (n : ℕ) → 0 + n ≡ n
    from_start n = omega arith
take-memcpy_to [] (suc off) bs h = absurd (omega arith)
take-memcpy_to (x ∷ buf) (suc off) bs h =
    ap (λ n. take n (x ∷ memcpy_to buf off bs)) (moved off (length bs))
    ∙ ap (◌∷◌ x) (take-memcpy_to buf off bs (omega arith))
  where
    moved : (m n : ℕ) → suc m + n ≡ suc (m + n)
    moved m n = omega arith

-- A zeroed buffer for a header of 48 bytes and `n` more.
pub replicate_header : (n : ℕ) → replicate {A = ℕ} (48 + n) 0 ≡ replicate 48 0 ++ replicate n 0
replicate_header n = ap (λ k. replicate {A = ℕ} k 0) shifted
  where
    shifted :
        48 + n
        ≡ suc (
            suc (
              suc (
                suc (
                  suc (
                    suc (
                      suc (
                        suc (
                          suc (
                            suc (
                              suc (
                                suc (
                                  suc (
                                    suc (
                                      suc (
                                        suc (
                                          suc (
                                            suc (
                                              suc (
                                                suc (
                                                  suc (
                                                    suc (
                                                      suc (
                                                        suc (
                                                          suc (
                                                            suc (
                                                            suc (
                                                            suc (
                                                            suc (
                                                            suc (
                                                            suc (
                                                            suc (
                                                            suc (
                                                            suc (
                                                            suc (
                                                            suc (
                                                            suc (
                                                            suc (
                                                            suc (
                                                            suc (
                                                            suc (
                                                            suc
                                                            (suc (suc (suc (suc (suc (suc n)))))))))
                                                            ))))))))))))))))))))))))))))))))))))))
    shifted = omega arith
