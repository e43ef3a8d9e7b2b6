-- ===== src/Reassembler/Track/Reordered.antt =====
-- A packet that comes after its successor, and the table of missing numbers in
-- tight/src/reassembler.cpp.
use damen.Common.{
  ℕ, suc, ◌+◌, ◌-◌, ◌^◌, ◌<◌, ◌≡◌, ◌≢◌, refl, ap, ◌∙◌, arith, [], ◌∷◌, true, ==_ne, lt→ltb, le→ltb,
}
use damen.Common.Bytes.{u32}
use damen.Common.OrdMap.{OrdMap, lookup, emplace, lookup_head, erase_head}
use damen.Reassembler.Track.{
  SeqSet, ReceiveState, count, add_missing, consume, consume_all, track_numbered, track,
}

-- A peer that has had its first packet.
abbrev pub tracking : OrdMap ℕ → SeqSet → ℕ → ReceiveState
tracking missing received next = record {
  missing_seqs = missing;
  recv_seqs = received;
  next_expected_seq = next;
  seq_initialized = true;
}

-- A round of the loop, and its end.
consume_one :
    (fuel n : ℕ) (missing : OrdMap ℕ) (received : SeqSet)
    → consume (suc fuel) (tracking missing ((n, tt) ∷ received) n)
      ≡ consume fuel (tracking missing received (u32 (n + 1)))
unfolding consume count
consume_one fuel n missing received =
    rw (lookup_head n tt received)
      (ap (λ r. consume fuel (tracking missing r (u32 (n + 1)))) (erase_head n tt received))

consume_none :
    (fuel n j : ℕ) (missing : OrdMap ℕ)
    → j ≢ n
    → consume (suc fuel) (tracking missing ((j, tt) ∷ []) n) ≡ tracking missing ((j, tt) ∷ []) n
unfolding consume count lookup
consume_none fuel n j missing ne = rw (==_ne j n ne) refl

added :
    (n now : ℕ) (missing : OrdMap ℕ)
    → add_missing (n + 1 - n) n [] now missing ≡ emplace n now missing
unfolding add_missing count lookup
added n now missing =
    let one : n + 1 - n ≡ 1 = omega arith in ap (λ k. add_missing k n [] now missing) one

none_added :
    (n now : ℕ) (received : SeqSet) (missing : OrdMap ℕ)
    → add_missing (n - n) n received now missing ≡ missing
unfolding add_missing
none_added n now received missing =
    let nothing : n - n ≡ 0 = omega arith in ap (λ k. add_missing k n received now missing) nothing

skip_one :
    (n now : ℕ) (missing : OrdMap ℕ)
    → track (tracking missing [] n) (n + 1) now
      ≡ tracking (emplace n now missing) ((n + 1, tt) ∷ []) n
unfolding track track_numbered consume_all emplace
skip_one n now missing =
    rw (==_ne (n + 1) 0 (omega arith), le→ltb (n + 1) n (omega arith))
      (ap (λ m. consume 1 (tracking m ((n + 1, tt) ∷ []) n)) (added n now missing)
        ∙ consume_none 0 n (n + 1) (emplace n now missing) (omega arith))

fill_one :
    (n now : ℕ) (missing : OrdMap ℕ)
    → n ≢ 0
    → n + 2 < 2 ^ 32
    → track (tracking missing ((n + 1, tt) ∷ []) n) n now ≡ tracking missing [] (n + 2)
unfolding track track_numbered consume_all emplace consume
fill_one n now missing ne w =
    rw (==_ne n 0 ne, le→ltb n n (omega arith), lt→ltb n (n + 1) (omega arith))
      (ap (λ m. consume 2 (tracking m ((n, tt) ∷ (n + 1, tt) ∷ []) n))
          (none_added n now ((n + 1, tt) ∷ []) missing)
        ∙ consume_one 1 n missing ((n + 1, tt) ∷ [])
        ∙ ap (λ k. consume 1 (tracking missing ((n + 1, tt) ∷ []) k)) (omega arith)
        ∙ consume_one 0 (n + 1) missing []
        ∙ ap (tracking missing []) (omega arith))

-- A packet that comes right after its successor fills the gap, and the cursor passes both; but its
-- number, noted as missing when the successor came, stays in the table of the missing numbers.
pub track_reordered :
    (n first second : ℕ) (missing : OrdMap ℕ)
    → n ≢ 0
    → n + 2 < 2 ^ 32
    → track (track (tracking missing [] n) (n + 1) first) n second
      ≡ tracking (emplace n first missing) [] (n + 2)
track_reordered n first second missing ne w =
    ap (λ st. track st n second) (skip_one n first missing)
    ∙ fill_one n second (emplace n first missing) ne w
