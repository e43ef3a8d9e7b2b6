-- ===== src/Fec/Code.antt =====
-- `ReedSolomon::encode_into` and `ReedSolomon::decode` of tight/src/fec.cpp. A fragment is the list
-- of its bytes; an absent one is `none`.
pub mod Encode
pub mod Parity
use damen.Common.{
  ℕ, zero, suc, ◌+◌, ◌-◌, bit_xor, min, List, [], ◌∷◌, ◌++◌, Option, none, some, Bool, true, false,
  length, take, drop, get_or, set, replicate, ltb, ◌==◌, ◌||◌, if◌then◌else◌,
}
use damen.Fec.Gf.{gf_exp, gf_log, gf_mul, gf_inv, coef}

abbrev pub Bytes : Type 0
Bytes = List ℕ

-- The two loops of `gf_mul_add`, over the first `n` bytes.
unfoldable pub add_bytes : ℕ → Bytes → Bytes → Bytes
add_bytes (suc n) (d ∷ dst) (s ∷ src) = bit_xor d s ∷ add_bytes n dst src
add_bytes _ dst _ = dst

unfoldable pub add_scaled : ℕ → ℕ → Bytes → Bytes → Bytes
add_scaled (suc n) lc (d ∷ dst) (s ∷ src) =
    (if s == 0 then d else bit_xor d (gf_exp (lc + gf_log s))) ∷ add_scaled n lc dst src
add_scaled _ _ dst _ = dst

unfoldable pub gf_mul_add : Bytes → Bytes → ℕ → ℕ → Bytes
gf_mul_add dst src c width =
    let n = min (length dst) (min (length src) width) in
    if c == 0 || length src == 0
    then dst
    else if c == 1
    then add_bytes n dst src
    else add_scaled n (gf_log c) dst src

-- A parity fragment from data fragment `j` on.
unfoldable pub add_fragments : ℕ → ℕ → List Bytes → ℕ → Bytes → Bytes
add_fragments p j [] width acc = acc
add_fragments p j (f ∷ fragments) width acc =
    add_fragments p (j + 1) fragments width (gf_mul_add acc f (coef p j) width)

-- The caller's buffer is used again where it is long enough, and its tail stays.
unfoldable pub cleared : ℕ → Bytes → Bytes
cleared width out =
    if ltb (length out) width then replicate width 0 else replicate width 0 ++ drop width out

unfoldable pub encode_parity : ℕ → List Bytes → ℕ → Bytes → Bytes
encode_parity p fragments width out = add_fragments p 0 fragments width (cleared width out)

-- The loop over the parities from `p` on; a missing buffer is an empty one.
unfoldable pub encode_from : ℕ → ℕ → List Bytes → ℕ → List Bytes → List Bytes
encode_from zero p fragments width out = out
encode_from (suc n) p fragments width [] =
    encode_parity p fragments width [] ∷ encode_from n (p + 1) fragments width []
encode_from (suc n) p fragments width (o ∷ out) =
    encode_parity p fragments width o ∷ encode_from n (p + 1) fragments width out

unfoldable pub encode_into : List Bytes → ℕ → ℕ → List Bytes → List Bytes
encode_into fragments parity_count width out = encode_from parity_count 0 fragments width out

unfoldable pub encode : List Bytes → ℕ → ℕ → List Bytes
encode fragments parity_count width = encode_into fragments parity_count width []

-- A row of the system that `decode` solves: the coefficients of the missing fragments, and the
-- syndrome.
pub record Equation : Type 0 where
  pub coefficients : List ℕ
  pub value : Bytes

abbrev pub blank : Equation
blank = record { coefficients = []; value = [] }

unfoldable pub missing_from : ℕ → List (Option Bytes) → List ℕ
missing_from i [] = []
missing_from i (none ∷ got) = i ∷ missing_from (i + 1) got
missing_from i (some f ∷ got) = missing_from (i + 1) got

-- `resize(width, 0)`
unfoldable pub resize : ℕ → Bytes → Bytes
resize width b = take width b ++ replicate (width - length b) 0

unfoldable pub add_present : ℕ → ℕ → List (Option Bytes) → ℕ → Bytes → Bytes
add_present p j [] width acc = acc
add_present p j (none ∷ got) width acc = add_present p (j + 1) got width acc
add_present p j (some f ∷ got) width acc =
    add_present p (j + 1) got width (gf_mul_add acc f (coef p j) width)

unfoldable pub coefs : ℕ → List ℕ → List ℕ
coefs p [] = []
coefs p (j ∷ missing) = coef p j ∷ coefs p missing

unfoldable pub equation : List (Option Bytes) → ℕ → ℕ × Bytes → Equation
equation got width (p, content) = record {
  coefficients = coefs p (missing_from 0 got);
  value = add_present p 0 got width (resize width content);
}

unfoldable pub equations : List (Option Bytes) → ℕ → ℕ → List (ℕ × Bytes) → List Equation
equations got width zero parity = []
equations got width (suc m) [] = []
equations got width (suc m) (p ∷ parity) = equation got width p ∷ equations got width m parity

abbrev pub entry : List Equation → ℕ → ℕ → ℕ
entry rows r c = get_or (get_or rows r blank).coefficients c 0

-- `while (pivot < m && a[pivot][col] == 0) ++pivot;` with `n` rows left.
unfoldable pub find_pivot : ℕ → ℕ → ℕ → List Equation → ℕ
find_pivot zero pivot col rows = pivot
find_pivot (suc n) pivot col rows =
    let next = find_pivot n (pivot + 1) col rows in
    if entry rows pivot col == 0 then next else pivot

unfoldable pub swap_rows : ℕ → ℕ → List Equation → List Equation
swap_rows i j rows =
    if i == j then rows else set (set rows i (get_or rows j blank)) j (get_or rows i blank)

unfoldable pub scale_all : ℕ → List ℕ → List ℕ
scale_all inv [] = []
scale_all inv (x ∷ xs) = gf_mul x inv ∷ scale_all inv xs

unfoldable pub scale_from : ℕ → ℕ → List ℕ → List ℕ
scale_from zero inv xs = scale_all inv xs
scale_from (suc col) inv [] = []
scale_from (suc col) inv (x ∷ xs) = x ∷ scale_from col inv xs

unfoldable pub normalise : ℕ → Equation → Equation
normalise col e =
    let inv = gf_inv (get_or e.coefficients col 0) in
    record { coefficients = scale_from col inv e.coefficients; value = scale_all inv e.value }

unfoldable pub add_all : ℕ → List ℕ → List ℕ → List ℕ
add_all f (x ∷ xs) (y ∷ ys) = bit_xor x (gf_mul f y) ∷ add_all f xs ys
add_all f xs _ = xs

unfoldable pub add_from : ℕ → ℕ → List ℕ → List ℕ → List ℕ
add_from zero f xs ys = add_all f xs ys
add_from (suc col) f (x ∷ xs) (y ∷ ys) = x ∷ add_from col f xs ys
add_from (suc col) f xs _ = xs

unfoldable pub clear_row : ℕ → ℕ → Equation → Equation → Equation
clear_row col width pivot e =
    let f = get_or e.coefficients col 0 in
    if f == 0 then e else record {
      coefficients = add_from col f e.coefficients pivot.coefficients;
      value = gf_mul_add e.value pivot.value f width;
    }

unfoldable pub clear_rows : ℕ → ℕ → ℕ → Equation → List Equation → List Equation
clear_rows r col width pivot [] = []
clear_rows r col width pivot (e ∷ es) =
    (if r == col then e else clear_row col width pivot e) ∷ clear_rows (r + 1) col width pivot es

-- One round for a column whose pivot is found: swap, normalise, clear the other rows.
unfoldable pub reduce_column : ℕ → ℕ → ℕ → List Equation → List Equation
reduce_column col width pivot rows =
    let swapped = swap_rows pivot col rows in
    let row = normalise col (get_or swapped col blank) in
    clear_rows 0 col width row (set swapped col row)

-- The columns from `col` on, with `n` left.
unfoldable pub eliminate : ℕ → ℕ → ℕ → List Equation → Option (List Equation)
eliminate zero col width rows = some rows
eliminate (suc n) col width rows =
    let pivot = find_pivot (suc n) col col rows in
    let rest = eliminate n (col + 1) width (reduce_column col width pivot rows) in
    if pivot == length rows then none else rest

unfoldable pub fill_missing : List ℕ → List Equation → List (Option Bytes) → List (Option Bytes)
fill_missing (j ∷ missing) (e ∷ rows) got = fill_missing missing rows (set got j (some e.value))
fill_missing _ _ got = got

abbrev pub fill_solved :
    List ℕ → Option (List Equation) → List (Option Bytes) → Option (List (Option Bytes))
fill_solved missing none got = none
fill_solved missing (some rows) got = some (fill_missing missing rows got)

-- `none` is the result `false`, after which the fragments are as they were.
unfoldable pub decode : List (Option Bytes) → List (ℕ × Bytes) → ℕ → Option (List (Option Bytes))
decode got parity width =
    let missing = missing_from 0 got in
    let m = length missing in
    if m == 0
    then some got
    else if ltb (length parity) m
    then none
    else fill_solved missing (eliminate m 0 width (equations got width m parity)) got
