-- ===== src/Reassembler/Build/Stream.antt =====
-- The loops of `build_msg` in tight/src/reassembler.cpp, over the bytes of the pieces in a row.
use damen.Common.{
  ℕ, zero, suc, ◌+◌, ◌-◌, ◌≤◌, ◌≡◌, refl, sym, ap, ap₂, ◌∙◌, arith, min, List, [], ◌∷◌, ◌++◌, ◌==◌,
  ltb, length, take, drop, length-append, ltb→lt, ltb-false→le, Bool-cases, inl, inr, ==_iff,
}
use damen.Fec.Code.{Bytes}
use damen.Reassembler.Build.{stream_length, read_prefix, copy_out}

-- The bytes of the pieces in a row.
abbrev pub stream : List Bytes → Bytes
stream [] = []
stream (piece ∷ pieces) = piece ++ stream pieces

pub stream_length-stream : (pieces : List Bytes) → stream_length pieces ≡ length (stream pieces)
unfolding stream_length
stream_length-stream [] = refl
stream_length-stream (piece ∷ pieces) =
    ap (λ n. length piece + n) (stream_length-stream pieces)
    ∙ sym (length-append piece (stream pieces))

take_count : (j k : ℕ) (xs : Bytes) → j ≡ k → take j xs ≡ take k xs
take_count j k xs e = ap (λ n. take n xs) e

drop_count : (j k : ℕ) (xs : Bytes) → j ≡ k → drop j xs ≡ drop k xs
drop_count j k xs e = ap (λ n. drop n xs) e

-- Taking and dropping over two buffers in a row.
take_row : (n : ℕ) (xs ys : Bytes) → take n (xs ++ ys) ≡ take n xs ++ take (n - length xs) ys
take_row zero xs ys = take_count 0 (0 - length xs) ys (omega arith)
take_row (suc n) [] ys = take_count (suc n) (suc n - 0) ys (omega arith)
take_row (suc n) (x ∷ xs) ys = ap (◌∷◌ x) (
    take_row n xs ys
    ∙ ap (λ (t : Bytes). take n xs ++ t)
        (take_count (n - length xs) (suc n - suc (length xs)) ys (omega arith)))

drop_row : (n : ℕ) (xs ys : Bytes) → drop n (xs ++ ys) ≡ drop n xs ++ drop (n - length xs) ys
drop_row zero xs ys = ap (λ (t : Bytes). xs ++ t) (drop_count 0 (0 - length xs) ys (omega arith))
drop_row (suc n) [] ys = drop_count (suc n) (suc n - 0) ys (omega arith)
drop_row (suc n) (x ∷ xs) ys =
    drop_row n xs ys
    ∙ ap (λ (t : Bytes). drop n xs ++ t)
        (drop_count (n - length xs) (suc n - suc (length xs)) ys (omega arith))

pub take-min : (n : ℕ) (xs : Bytes) → take (min (length xs) n) xs ≡ take n xs
take-min zero [] = refl
take-min zero (x ∷ xs) = take_count (min (suc (length xs)) 0) 0 (x ∷ xs) (omega arith)
take-min (suc n) [] = take_count (min 0 (suc n)) 0 [] (omega arith)
take-min (suc n) (x ∷ xs) =
    take_count (min (suc (length xs)) (suc n)) (suc (min (length xs) n)) (x ∷ xs) (omega arith)
    ∙ ap (◌∷◌ x) (take-min n xs)

drop_past : (n : ℕ) (xs : Bytes) → length xs ≤ n → drop n xs ≡ []
drop_past zero [] h = refl
drop_past zero (x ∷ xs) h = absurd (omega arith)
drop_past (suc n) [] h = refl
drop_past (suc n) (x ∷ xs) h = drop_past n xs (omega arith)

pub read_prefix-take :
    (need : ℕ) (pieces : List Bytes) → read_prefix need pieces ≡ take need (stream pieces)
unfolding read_prefix
read_prefix-take zero [] = refl
read_prefix-take (suc need) [] = refl
read_prefix-take need (piece ∷ pieces) = elim (Bool-cases (need == 0)) [
  | inl done ↦ rw (done) (ap (λ k. take k (piece ++ stream pieces)) (sym ((==_iff need 0).0 done)))
  | inr more ↦ rw (more) (
      ap₂ (λ (xs ys : Bytes). xs ++ ys) (take-min need piece)
        (read_prefix-take (need - min (length piece) need) pieces
          ∙ take_count (need - min (length piece) need) (need - length piece) (stream pieces)
              (omega arith))
      ∙ sym (take_row need piece (stream pieces)))
]

pub copy_out-take :
    (pieces : List Bytes) (skip left : ℕ)
    → copy_out skip left pieces ≡ take left (drop skip (stream pieces))
unfolding copy_out
copy_out-take [] zero zero = refl
copy_out-take [] zero (suc left) = refl
copy_out-take [] (suc skip) zero = refl
copy_out-take [] (suc skip) (suc left) = refl
copy_out-take (piece ∷ pieces) skip left = elim (Bool-cases (left == 0)) [
  | inl done ↦
      rw (done)
        (ap (λ k. take k (drop skip (piece ++ stream pieces))) (sym ((==_iff left 0).0 done)))
  | inr more ↦ elim (Bool-cases (ltb skip (length piece))) [
    | inl inside ↦
        rw (more, inside)
          (ap₂ (λ (xs ys : Bytes). xs ++ ys) (take-min left (drop skip piece))
              (copy_out-take pieces 0 (left - min (length (drop skip piece)) left)
                ∙ take_count (left - min (length (drop skip piece)) left)
                    (left - length (drop skip piece)) (stream pieces) (omega arith))
            ∙ sym (take_row left (drop skip piece) (stream pieces))
            ∙ ap (λ (t : Bytes). take left (drop skip piece ++ t))
                (drop_count 0 (skip - length piece) (stream pieces)
                  (omega (arith, ltb→lt _ _ inside)))
            ∙ ap (take left) (sym (drop_row skip piece (stream pieces))))
    | inr past ↦
        rw (more, past)
          (copy_out-take pieces (skip - length piece) left
            ∙ ap (λ t. take left (t ++ drop (skip - length piece) (stream pieces)))
                (sym (drop_past skip piece (ltb-false→le _ _ past)))
            ∙ ap (take left) (sym (drop_row skip piece (stream pieces))))
  ]
]
