-- ===== src/Fec/Code/Encode.antt =====
-- `gf_mul_add` of tight/src/fec.cpp, byte by byte.
use damen.Common.{
  ℕ, zero, suc, ◌+◌, ◌≤◌, ◌<◌, ◌≡◌, ◌≢◌, inl, inr, refl, sym, ap, ◌∙◌, arith, bit_xor, min, [], ◌∷◌,
  length, get_or, ◌==◌, if◌then◌else◌, ==_iff, ==_false→ne, Bool-cases, dec_lt, ==_ne,
}
use damen.Common.Bytes.{AllBytes}
use damen.Common.Bits.Xor.{bit_xor-zero}
use damen.Fec.Gf.{gf_exp, gf_log, gf_mul}
use damen.Fec.Gf.Field.{gf_mul-zero, zero-gf_mul}
use damen.Fec.Gf.Laws.{one-gf_mul}
use damen.Fec.Code.{Bytes, add_bytes, add_scaled, gf_mul_add}

-- Byte `i` of a fragment; past its end, zero.
abbrev pub byte : ℕ → Bytes → ℕ
byte i b = get_or b i 0

pub byte-lt : (i : ℕ) (b : Bytes) → AllBytes b → byte i b < 256
byte-lt i [] h = omega arith
byte-lt zero (x ∷ b) h = h.0
byte-lt (suc i) (x ∷ b) h = byte-lt i b h.1

byte_past : (i : ℕ) (b : Bytes) → length b ≤ i → byte i b ≡ 0
byte_past i [] h = refl
byte_past zero (x ∷ b) h = absurd (omega arith)
byte_past (suc i) (x ∷ b) h = byte_past i b (omega arith)

byte-add_bytes :
    (n i : ℕ) (dst src : Bytes)
    → i < n
    → i < length dst
    → i < length src
    → byte i (add_bytes n dst src) ≡ bit_xor (byte i dst) (byte i src)
unfolding add_bytes
byte-add_bytes zero i dst src h hd hs = absurd (omega arith)
byte-add_bytes (suc n) i [] src h hd hs = absurd (omega arith)
byte-add_bytes (suc n) i (d ∷ dst) [] h hd hs = absurd (omega arith)
byte-add_bytes (suc n) zero (d ∷ dst) (s ∷ src) h hd hs = refl
byte-add_bytes (suc n) (suc i) (d ∷ dst) (s ∷ src) h hd hs =
    byte-add_bytes n i dst src (omega arith) (omega arith) (omega arith)

bytes_past : (n i : ℕ) (dst src : Bytes) → n ≤ i → byte i (add_bytes n dst src) ≡ byte i dst
unfolding add_bytes
bytes_past zero i dst src h = refl
bytes_past (suc n) i [] src h = refl
bytes_past (suc n) i (d ∷ dst) [] h = refl
bytes_past (suc n) zero (d ∷ dst) (s ∷ src) h = absurd (omega arith)
bytes_past (suc n) (suc i) (d ∷ dst) (s ∷ src) h = bytes_past n i dst src (omega arith)

-- One byte of the table loop, which passes over a zero.
scaled_byte :
    (c d s : ℕ)
    → c ≢ 0
    → (if s == 0 then d else bit_xor d (gf_exp (gf_log c + gf_log s))) ≡ bit_xor d (gf_mul c s)
unfolding gf_mul
scaled_byte c d s h = elim (Bool-cases (s == 0)) [
  | inl e ↦ rw (e, ==_ne c 0 h) (sym (bit_xor-zero d))
  | inr e ↦ rw (e, ==_ne c 0 h)
]

byte-add_scaled :
    (n i c : ℕ) (dst src : Bytes)
    → c ≢ 0
    → i < n
    → i < length dst
    → i < length src
    → byte i (add_scaled n (gf_log c) dst src) ≡ bit_xor (byte i dst) (gf_mul c (byte i src))
unfolding add_scaled
byte-add_scaled zero i c dst src hc h hd hs = absurd (omega arith)
byte-add_scaled (suc n) i c [] src hc h hd hs = absurd (omega arith)
byte-add_scaled (suc n) i c (d ∷ dst) [] hc h hd hs = absurd (omega arith)
byte-add_scaled (suc n) zero c (d ∷ dst) (s ∷ src) hc h hd hs = scaled_byte c d s hc
byte-add_scaled (suc n) (suc i) c (d ∷ dst) (s ∷ src) hc h hd hs =
    byte-add_scaled n i c dst src hc (omega arith) (omega arith) (omega arith)

scaled_past : (n i lc : ℕ) (dst src : Bytes) → n ≤ i → byte i (add_scaled n lc dst src) ≡ byte i dst
unfolding add_scaled
scaled_past zero i lc dst src h = refl
scaled_past (suc n) i lc [] src h = refl
scaled_past (suc n) i lc (d ∷ dst) [] h = refl
scaled_past (suc n) zero lc (d ∷ dst) (s ∷ src) h = absurd (omega arith)
scaled_past (suc n) (suc i) lc (d ∷ dst) (s ∷ src) h = scaled_past n i lc dst src (omega arith)

plus_nothing : (c d s : ℕ) → s ≡ 0 → d ≡ bit_xor d (gf_mul c s)
plus_nothing c d s e = sym (ap (bit_xor d) (ap (gf_mul c) e ∙ gf_mul-zero c) ∙ bit_xor-zero d)

length-add_bytes : (n : ℕ) (dst src : Bytes) → length (add_bytes n dst src) ≡ length dst
unfolding add_bytes
length-add_bytes zero dst src = refl
length-add_bytes (suc n) [] src = refl
length-add_bytes (suc n) (d ∷ dst) [] = refl
length-add_bytes (suc n) (d ∷ dst) (s ∷ src) = ap suc (length-add_bytes n dst src)

length-add_scaled : (n lc : ℕ) (dst src : Bytes) → length (add_scaled n lc dst src) ≡ length dst
unfolding add_scaled
length-add_scaled zero lc dst src = refl
length-add_scaled (suc n) lc [] src = refl
length-add_scaled (suc n) lc (d ∷ dst) [] = refl
length-add_scaled (suc n) lc (d ∷ dst) (s ∷ src) = ap suc (length-add_scaled n lc dst src)

-- The two loops on all the bytes that the three lengths allow.
add_bytes-min :
    (i width : ℕ) (dst src : Bytes)
    → i < width
    → i < length dst
    → AllBytes src
    → byte i (add_bytes (min (length dst) (min (length src) width)) dst src)
      ≡ bit_xor (byte i dst) (gf_mul 1 (byte i src))
add_bytes-min i width dst src hw hd b = elim (dec_lt i (length src)) [
  | yes inside ↦
      byte-add_bytes _ i dst src (omega arith) hd inside
      ∙ ap (bit_xor (byte i dst)) (sym (one-gf_mul (byte i src) (byte-lt i src b)))
  | no past ↦
      bytes_past _ i dst src (omega arith)
      ∙ plus_nothing 1 (byte i dst) (byte i src) (byte_past i src (omega arith))
]

add_scaled-min :
    (i c width : ℕ) (dst src : Bytes)
    → c ≢ 0
    → i < width
    → i < length dst
    → byte i (add_scaled (min (length dst) (min (length src) width)) (gf_log c) dst src)
      ≡ bit_xor (byte i dst) (gf_mul c (byte i src))
add_scaled-min i c width dst src hc hw hd = elim (dec_lt i (length src)) [
  | yes inside ↦ byte-add_scaled _ i c dst src hc (omega arith) hd inside
  | no past ↦
      scaled_past _ i (gf_log c) dst src (omega arith)
      ∙ plus_nothing c (byte i dst) (byte i src) (byte_past i src (omega arith))
]

-- `gf_mul_add` adds `c` times the source, byte by byte; a short source counts as followed by zeros.
pub byte-gf_mul_add :
    (i c width : ℕ) (dst src : Bytes)
    → i < width
    → i < length dst
    → AllBytes src
    → byte i (gf_mul_add dst src c width) ≡ bit_xor (byte i dst) (gf_mul c (byte i src))
unfolding gf_mul_add
byte-gf_mul_add i c width dst src hw hd b = elim (Bool-cases (c == 0)) [
  | inl c0 ↦ rw (c0) (
      sym (
        ap (λ e. bit_xor (byte i dst) (gf_mul e (byte i src))) ((==_iff c 0).0 c0)
        ∙ ap (bit_xor (byte i dst)) (zero-gf_mul (byte i src))
        ∙ bit_xor-zero (byte i dst)))
  | inr c1 ↦ elim (Bool-cases (length src == 0)) [
    | inl empty ↦
        rw (c1, empty)
          (plus_nothing c (byte i dst) (byte i src)
            (byte_past i src (omega (arith, (==_iff (length src) 0).0 empty))))
    | inr some ↦ elim (Bool-cases (c == 1)) [
      | inl one ↦
          rw (c1, some, one)
            (add_bytes-min i width dst src hw hd b
              ∙ ap (λ e. bit_xor (byte i dst) (gf_mul e (byte i src))) (sym ((==_iff c 1).0 one)))
      | inr more ↦ rw (c1, some, more) (add_scaled-min i c width dst src (==_false→ne c 0 c1) hw hd)
    ]
  ]
]

pub length-gf_mul_add :
    (c width : ℕ) (dst src : Bytes) → length (gf_mul_add dst src c width) ≡ length dst
unfolding gf_mul_add
length-gf_mul_add c width dst src = ground (
  arith,
  length-add_bytes (min (length dst) (min (length src) width)) dst src,
  length-add_scaled (min (length dst) (min (length src) width)) (gf_log c) dst src,
)
