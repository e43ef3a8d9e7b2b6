-- ===== src/Fec/Gf/Tables.antt =====
-- The entries of the two tables of tight/src/fec.cpp.
use damen.Common.{
  ℕ, zero, suc, ◌+◌, ◌<◌, ◌≡◌, refl, subst, arith, Bool, true, ◌&&◌, List, get_or, ◌==◌, ltb,
  ltb→lt, ==_iff,
}
use damen.Fec.Gf.{GfTables, gf, next_power}

-- A test that every number below a bound passes.
unfoldable pub holds_below : (ℕ → Bool) → ℕ → Bool
holds_below test zero = true
holds_below test (suc bound) = holds_below test bound && test bound

pub holds_below-lt :
    (test : ℕ → Bool) (bound i : ℕ) → i < bound → holds_below test bound ≡ true → test i ≡ true
unfolding holds_below
holds_below-lt test zero i inside passed = absurd (omega arith)
holds_below-lt test (suc bound) i inside passed = ground (arith, holds_below-lt test bound i)

-- Each entry of a table, as a test; the tables are computed once for the whole check.
powers_step : List ℕ → ℕ → Bool
powers_step exp i = get_or exp (i + 1) 0 == next_power (get_or exp i 0)

powers_repeat : List ℕ → ℕ → Bool
powers_repeat exp i = get_or exp (i + 255) 0 == get_or exp i 0

powers_are_bytes : List ℕ → ℕ → Bool
powers_are_bytes exp i = ltb 0 (get_or exp i 0) && ltb (get_or exp i 0) 256

log_of_power : GfTables → ℕ → Bool
log_of_power t i = get_or t.log (get_or t.exp i 0) 0 == i

power_of_log : GfTables → ℕ → Bool
power_of_log t a =
    ltb (get_or t.log (a + 1) 0) 255 && get_or t.exp (get_or t.log (a + 1) 0) 0 == a + 1

checks : GfTables → Bool
unfolding holds_below powers_step powers_repeat powers_are_bytes log_of_power power_of_log
    next_power
checks t =
    holds_below (powers_step t.exp) 511
    && holds_below (powers_repeat t.exp) 257
    && holds_below (powers_are_bytes t.exp) 512
    && holds_below (log_of_power t) 255
    && holds_below (power_of_log t) 255

tables_checked : checks gf ≡ true
unfolding checks gf
tables_checked = refl

-- A conjunction of five tests, apart.
five_parts :
    (a b c d e : Bool)
    → (a && b && c && d && e) ≡ true
    → (a ≡ true) × (b ≡ true) × (c ≡ true) × (d ≡ true) × (e ≡ true)
five_parts a b c d e h = ground arith

checked :
    (holds_below (powers_step gf.exp) 511 ≡ true)
    × (holds_below (powers_repeat gf.exp) 257 ≡ true)
    × (holds_below (powers_are_bytes gf.exp) 512 ≡ true)
    × (holds_below (log_of_power gf) 255 ≡ true)
    × (holds_below (power_of_log gf) 255 ≡ true)
unfolding checks
checked = five_parts _ _ _ _ _ tables_checked

abbrev pub gf_exp : ℕ → ℕ
gf_exp i = get_or gf.exp i 0

abbrev pub gf_log : ℕ → ℕ
gf_log a = get_or gf.log a 0

pub gf_exp_suc : (i : ℕ) → i < 511 → gf_exp (i + 1) ≡ next_power (gf_exp i)
unfolding powers_step
gf_exp_suc i h = (==_iff _ _).0 (holds_below-lt (powers_step gf.exp) 511 i h checked.0)

pub gf_exp_repeat : (i : ℕ) → i < 257 → gf_exp (i + 255) ≡ gf_exp i
unfolding powers_repeat
gf_exp_repeat i h = (==_iff _ _).0 (holds_below-lt (powers_repeat gf.exp) 257 i h checked.1)

both : (a b : Bool) → (a && b) ≡ true → (a ≡ true) × (b ≡ true)
both a b h = ground arith

pub gf_exp_byte : (i : ℕ) → i < 512 → (0 < gf_exp i) × (gf_exp i < 256)
unfolding powers_are_bytes
gf_exp_byte i h =
    let parts = both _ _ (holds_below-lt (powers_are_bytes gf.exp) 512 i h checked.2) in
    (ltb→lt _ _ parts.0, ltb→lt _ _ parts.1)

pub gf_log-gf_exp : (i : ℕ) → i < 255 → gf_log (gf_exp i) ≡ i
unfolding log_of_power
gf_log-gf_exp i h = (==_iff _ _).0 (holds_below-lt (log_of_power gf) 255 i h checked.3)

pub gf_exp-gf_log : (a : ℕ) → 0 < a → a < 256 → (gf_log a < 255) × (gf_exp (gf_log a) ≡ a)
unfolding power_of_log
gf_exp-gf_log zero h k = absurd (omega arith)
gf_exp-gf_log (suc a) h k =
    let parts = both _ _ (holds_below-lt (power_of_log gf) 255 a (omega arith) checked.4) in
    subst (λ (b : ℕ). (gf_log b < 255) × (gf_exp (gf_log b) ≡ b)) (omega arith)
      (ltb→lt _ _ parts.0, (==_iff _ _).0 parts.1)
