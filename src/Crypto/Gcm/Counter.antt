-- ===== src/Crypto/Gcm/Counter.antt =====
-- The counter of `aes256_gcm_crypt` of tight/src/crypto.cpp.
use damen.Common.{
  ℕ, ◌+◌, ◌/◌, ◌%◌, ◌^◌, ◌<◌, ◌≡◌, Bool, true, false, ==_iff, ==_false→ne, ap, ap₂, ◌∙◌, zero, suc,
  ◌≤◌, arith, [], ◌∷◌, ◌++◌, ◌==◌, length, get_or, set, Bool-cases, inl, inr, if◌then◌else◌, ◌-◌,
}
use damen.Common.Bytes.{u8, u32, be32}
use damen.Fec.Code.{Bytes}
use damen.Crypto.Gcm.{increment}

get_or-append : (pre xs : Bytes) (k : ℕ) → get_or (pre ++ xs) (length pre + k) 0 ≡ get_or xs k 0
get_or-append [] xs k = ap (λ i. get_or xs i 0) (from_zero k)
  where
    from_zero : (k : ℕ) → 0 + k ≡ k
    from_zero k = omega arith
get_or-append (x ∷ pre) xs k =
    ap (λ i. get_or (x ∷ (pre ++ xs)) i 0) (moved (length pre) k) ∙ get_or-append pre xs k
  where
    moved : (m k : ℕ) → suc m + k ≡ suc (m + k)
    moved m k = omega arith

set-append : (pre xs : Bytes) (k b : ℕ) → set (pre ++ xs) (length pre + k) b ≡ pre ++ set xs k b
set-append [] xs k b = ap (λ i. set xs i b) (from_zero k)
  where
    from_zero : (k : ℕ) → 0 + k ≡ k
    from_zero k = omega arith
set-append (x ∷ pre) xs k b =
    ap (λ i. set (x ∷ (pre ++ xs)) i b) (moved (length pre) k) ∙ ap (◌∷◌ x) (set-append pre xs k b)
  where
    moved : (m k : ℕ) → suc m + k ≡ suc (m + k)
    moved m k = omega arith

picked :
    (t : Bool) (pre x y x2 y2 : Bytes)
    → x ≡ pre ++ x2
    → y ≡ pre ++ y2
    → (if t then x else y) ≡ pre ++ (if t then x2 else y2)
picked true pre x y x2 y2 p q = p
picked false pre x y x2 y2 p q = q

-- The bytes before the counter are not reached.
increment-append :
    (n k i : ℕ) (pre xs : Bytes)
    → n ≤ k
    → i ≡ length pre + k
    → increment (suc n) i (pre ++ xs) ≡ pre ++ increment (suc n) k xs
unfolding increment
increment-append zero k i pre xs h e =
    let b = u8 (get_or xs k 0 + 1) in
    let same : u8 (get_or (pre ++ xs) i 0 + 1) ≡ b =
      ap (λ j. u8 (get_or (pre ++ xs) j 0 + 1)) e ∙ ap (λ t. u8 (t + 1)) (get_or-append pre xs k) in
    let written : set (pre ++ xs) i (u8 (get_or (pre ++ xs) i 0 + 1)) ≡ pre ++ set xs k b =
      ap₂ (set (pre ++ xs)) e same ∙ set-append pre xs k b in
    ap
      (λ v.
        if v == 0
        then set (pre ++ xs) i (u8 (get_or (pre ++ xs) i 0 + 1))
        else set (pre ++ xs) i (u8 (get_or (pre ++ xs) i 0 + 1)))
      same
    ∙ picked (b == 0) pre (set (pre ++ xs) i (u8 (get_or (pre ++ xs) i 0 + 1)))
        (set (pre ++ xs) i (u8 (get_or (pre ++ xs) i 0 + 1))) (set xs k b) (set xs k b) written
        written
increment-append (suc n) k i pre xs h e =
    let b = u8 (get_or xs k 0 + 1) in
    let old = set (pre ++ xs) i (u8 (get_or (pre ++ xs) i 0 + 1)) in
    let same : u8 (get_or (pre ++ xs) i 0 + 1) ≡ b =
      ap (λ j. u8 (get_or (pre ++ xs) j 0 + 1)) e ∙ ap (λ t. u8 (t + 1)) (get_or-append pre xs k) in
    let written : old ≡ pre ++ set xs k b = ap₂ (set (pre ++ xs)) e same ∙ set-append pre xs k b in
    ap (λ v. if v == 0 then increment (suc n) (i - 1) old else old) same
    ∙ picked (b == 0) pre (increment (suc n) (i - 1) old) old
        (increment (suc n) (k - 1) (set xs k b)) (set xs k b)
        (ap (increment (suc n) (i - 1)) written
          ∙ increment-append n (k - 1) (i - 1) pre (set xs k b) (omega arith) (omega arith))
        written

four :
    {a b c d a2 b2 c2 d2 : ℕ}
    → a ≡ a2
    → b ≡ b2
    → c ≡ c2
    → d ≡ d2
    → (a ∷ b ∷ c ∷ d ∷ []) ≡ (a2 ∷ b2 ∷ c2 ∷ d2 ∷ [])
four p q r s = ap₂ ◌∷◌ p (ap₂ ◌∷◌ q (ap₂ ◌∷◌ r (ap (λ t. t ∷ []) s)))

wraps : (b : ℕ) → b < 256 → (u8 (b + 1) == 0) ≡ true → b ≡ 255
wraps b h e = let zero_then = (==_iff (u8 (b + 1)) 0).0 e in omega arith

stays : (b : ℕ) → b < 256 → (u8 (b + 1) == 0) ≡ false → b < 255
stays b h e = let not_zero = ==_false→ne (u8 (b + 1)) 0 e in omega arith

increment_word : (v : ℕ) → v < 2 ^ 32 → increment 4 3 (be32 v) ≡ be32 (u32 (v + 1))
unfolding increment
increment_word v h = elim (Bool-cases (u8 (v % 256 + 1) == 0)) [
  | inr d ↦
      let low = stays (v % 256) (omega arith) d in
      rw (d) (four (omega arith) (omega arith) (omega arith) (omega arith))
  | inl d ↦
      let low = wraps (v % 256) (omega arith) d in
      rw (d) (elim (Bool-cases (u8 (v / 256 % 256 + 1) == 0)) [
        | inr c ↦
            let next = stays (v / 256 % 256) (omega arith) c in
            rw (c) (four (omega arith) (omega arith) (omega arith) (omega arith))
        | inl c ↦
            let next = wraps (v / 256 % 256) (omega arith) c in
            rw (c) (elim (Bool-cases (u8 (v / 65536 % 256 + 1) == 0)) [
              | inr b ↦
                  let high = stays (v / 65536 % 256) (omega arith) b in
                  rw (b) (four (omega arith) (omega arith) (omega arith) (omega arith))
              | inl b ↦
                  let high = wraps (v / 65536 % 256) (omega arith) b in
                  rw (b) (elim (Bool-cases (u8 (v / 16777216 + 1) == 0)) [
                    | inr a ↦ rw (a) (four (omega arith) (omega arith) (omega arith) (omega arith))
                    | inl a ↦ rw (a) (four (omega arith) (omega arith) (omega arith) (omega arith))
                  ])
            ])
      ])
]

-- The byte loop adds one to the big-endian counter in the last four bytes, round 2^32, and leaves
-- the nonce before it as it is.
pub increment-be32 :
    (nonce : Bytes) (v : ℕ)
    → length nonce ≡ 12
    → v < 2 ^ 32
    → increment 4 15 (nonce ++ be32 v) ≡ nonce ++ be32 (u32 (v + 1))
increment-be32 nonce v e h =
    increment-append 3 3 15 nonce (be32 v) (omega arith) (omega arith)
    ∙ ap (◌++◌ nonce) (increment_word v h)
