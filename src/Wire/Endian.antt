-- ===== src/Wire/Endian.antt =====
-- tight/src/wire_format.hpp: the constants of the format and the byte-order conversions.
use damen.Common.{ℕ, ◌+◌, ◌*◌, ◌/◌, ◌%◌, ◌^◌, ◌<◌, ◌≡◌, ap, ap₂, ◌∙◌, arith, bit_and, bit_or, ◌++◌}
use damen.Common.Bytes.{u16, u32, u64, shl, shr, mem16, mem32, mem64, word16, word32, be16, be32}
use damen.Common.Bits.Masks.{bit_and_byte, bit_and_up_byte, bit_and_word, bit_or_field}

abbrev pub magic_number : ℕ
magic_number = 0x54474854

abbrev pub protocol_version : ℕ
protocol_version = 1

abbrev pub header_size : ℕ
header_size = 48

abbrev pub flag_encrypted : ℕ
flag_encrypted = 0x8000

unfoldable pub to_be16 : ℕ → ℕ
to_be16 v = u16 (bit_or (shl (bit_and v 0x00ff) 8) (shr (bit_and v 0xff00) 8))

unfoldable pub to_be32 : ℕ → ℕ
to_be32 v =
    bit_or
      (bit_or (bit_or (u32 (shl (bit_and v 0x000000ff) 24)) (u32 (shl (bit_and v 0x0000ff00) 8)))
        (shr (bit_and v 0x00ff0000) 8))
      (shr (bit_and v 0xff000000) 24)

-- The two halves keep their places in the 64-bit word, and each is turned round.
unfoldable pub to_be64 : ℕ → ℕ
to_be64 v =
    bit_or (u64 (shl (to_be32 (u32 (bit_and (shr v 32) 0xffffffff))) 32))
      (to_be32 (u32 (bit_and v 0xffffffff)))

byte1 : (v : ℕ) → bit_and v 0xff00 ≡ v / 256 % 256 * 256
byte1 v = bit_and_up_byte v 0xff ∙ ap (λ t. t * 256) (bit_and_byte (v / 256))

byte2 : (v : ℕ) → bit_and v 0xff0000 ≡ v / 65536 % 256 * 65536
byte2 v = omega (arith, bit_and_up_byte v 0xff00, byte1 (v / 256))

byte3 : (v : ℕ) → bit_and v 0xff000000 ≡ v / 16777216 % 256 * 16777216
byte3 v = omega (arith, bit_and_up_byte v 0xff0000, byte2 (v / 256))

-- `|` of two numbers of which the second keeps below the digits of the first.
or_below : (a q k r : ℕ) → a ≡ q * 2 ^ k → r < 2 ^ k → bit_or a r ≡ a + r
or_below a q k r e h = ap (λ t. bit_or t r) e ∙ bit_or_field k q r h ∙ omega arith

pub to_be16_sum : (v : ℕ) → v < 2 ^ 16 → to_be16 v ≡ v % 256 * 256 + v / 256
unfolding to_be16
to_be16_sum v h = omega (
  arith,
  bit_and_byte v,
  byte1 v,
  ap (λ (t : ℕ). bit_or (t * 256) (bit_and v 0xff00 / 256)) (bit_and_byte v),
  or_below (v % 256 * 256) (v % 256) 8 (bit_and v 0xff00 / 256) (omega arith)
      (omega (arith, byte1 v)),
)

or_four_bytes :
    (a b c d : ℕ)
    → b < 256
    → c < 256
    → d < 256
    → bit_or (bit_or (bit_or (a * 16777216) (b * 65536)) (c * 256)) d
      ≡ a * 16777216 + b * 65536 + c * 256 + d
or_four_bytes a b c d hb hc hd =
    ap (λ t. bit_or (bit_or t (c * 256)) d)
      (or_below (a * 16777216) a 24 (b * 65536) (omega arith) (omega arith))
    ∙ ap (λ t. bit_or t d)
        (or_below (a * 16777216 + b * 65536) (a * 256 + b) 16 (c * 256) (omega arith) (omega arith))
    ∙ or_below (a * 16777216 + b * 65536 + c * 256) (a * 65536 + b * 256 + c) 8 d (omega arith)
        (omega arith)

-- The conversion as arithmetic: the bytes in the other order.
pub to_be32_sum :
    (v : ℕ)
    → v < 2 ^ 32
    → to_be32 v ≡ v % 256 * 16777216 + v / 256 % 256 * 65536 + v / 65536 % 256 * 256 + v / 16777216
unfolding to_be32
to_be32_sum v h =
    rw (first, second, third, fourth)
      (or_four_bytes (v % 256) (v / 256 % 256) (v / 65536 % 256) (v / 16777216) (omega arith)
        (omega arith) (omega arith))
  where
    first : u32 (shl (bit_and v 0xff) 24) ≡ v % 256 * 16777216
    first = omega (arith, bit_and_byte v)

    second : u32 (shl (bit_and v 0xff00) 8) ≡ v / 256 % 256 * 65536
    second = omega (arith, byte1 v)

    third : shr (bit_and v 0xff0000) 8 ≡ v / 65536 % 256 * 256
    third = omega (arith, byte2 v)

    fourth : shr (bit_and v 0xff000000) 24 ≡ v / 16777216
    fourth = omega (arith, byte3 v)

-- What memcpy stores of a converted word is the word in network order, and back.
pub mem16-to_be16 : (v : ℕ) → v < 2 ^ 16 → mem16 (to_be16 v) ≡ be16 v
mem16-to_be16 v h = ground (arith, to_be16_sum v h)

pub mem32-to_be32 : (v : ℕ) → v < 2 ^ 32 → mem32 (to_be32 v) ≡ be32 v
mem32-to_be32 v h = ground (arith, to_be32_sum v h)

pub to_be16-word16 : (v : ℕ) → v < 2 ^ 16 → to_be16 (word16 (v / 256) (v % 256)) ≡ v
to_be16-word16 v h = omega (arith, to_be16_sum (word16 (v / 256) (v % 256)) (omega arith))

pub to_be32-word32 :
    (v : ℕ)
    → v < 2 ^ 32
    → to_be32 (word32 (v / 16777216) (v / 65536 % 256) (v / 256 % 256) (v % 256)) ≡ v
to_be32-word32 v h = omega (
  arith,
  to_be32_sum (word32 (v / 16777216) (v / 65536 % 256) (v / 256 % 256) (v % 256)) (omega arith),
)

pub to_be32-lt : (v : ℕ) → v < 2 ^ 32 → to_be32 v < 2 ^ 32
to_be32-lt v h = omega (arith, to_be32_sum v h)

-- The 64-bit conversion turns round each half, and leaves the low half low.
pub to_be64_sum :
    (v : ℕ) → v < 2 ^ 64 → to_be64 v ≡ to_be32 (v / 2 ^ 32) * 2 ^ 32 + to_be32 (v % 2 ^ 32)
unfolding to_be64
to_be64_sum v h =
    rw (high_half, low_half)
      (or_below (u64 (shl high 32)) high 32 (to_be32 (v % 2 ^ 32)) high_fits
          (to_be32-lt (v % 2 ^ 32) (omega arith))
        ∙ omega (arith, high_fits))
  where
    high : ℕ
    high = to_be32 (v / 2 ^ 32)

    high_half : u32 (bit_and (shr v 32) 0xffffffff) ≡ v / 2 ^ 32
    high_half = omega (arith, bit_and_word (v / 2 ^ 32))

    low_half : u32 (bit_and v 0xffffffff) ≡ v % 2 ^ 32
    low_half = omega (arith, bit_and_word v)

    high_fits : u64 (shl high 32) ≡ high * 2 ^ 32
    high_fits = omega (arith, to_be32-lt (v / 2 ^ 32) (omega arith))

-- So its memory image is the two halves in network order, the low half first.
pub mem64-to_be64 :
    (v : ℕ) → v < 2 ^ 64 → mem64 (to_be64 v) ≡ be32 (v % 2 ^ 32) ++ be32 (v / 2 ^ 32)
mem64-to_be64 v h =
    ap₂ (λ a b. mem32 a ++ mem32 b) low_word high_word
    ∙ ap₂ ◌++◌ (mem32-to_be32 (v % 2 ^ 32) (omega arith)) (mem32-to_be32 (v / 2 ^ 32) (omega arith))
  where
    fits : to_be32 (v % 2 ^ 32) < 2 ^ 32
    fits = to_be32-lt (v % 2 ^ 32) (omega arith)

    low_word : to_be64 v % 2 ^ 32 ≡ to_be32 (v % 2 ^ 32)
    low_word = omega (arith, to_be64_sum v h, fits)

    high_word : to_be64 v / 2 ^ 32 ≡ to_be32 (v / 2 ^ 32)
    high_word = omega (arith, to_be64_sum v h, fits)

-- The memory image of a converted word is the word in network order, for 16 and for 32 bits; for 64
-- bits it is the two halves in network order, the low half first.
pub conversions_network_order :
    (u v w : ℕ)
    → u < 2 ^ 16
    → v < 2 ^ 32
    → w < 2 ^ 64
    → (mem16 (to_be16 u) ≡ be16 u)
      × (mem32 (to_be32 v) ≡ be32 v)
      × (mem64 (to_be64 w) ≡ be32 (w % 2 ^ 32) ++ be32 (w / 2 ^ 32))
conversions_network_order u v w hu hv hw =
    (mem16-to_be16 u hu, mem32-to_be32 v hv, mem64-to_be64 w hw)
