-- ===== src/Command.antt =====
-- tight/src/command.cpp and the `m_cmd_*` fields of tight/src/peer.hpp: ordered delivery of command
-- packets. Times are nanoseconds of the steady clock, and `now` is an argument of each call. The
-- mutex of the peer is held for the whole of each call, so a call is one step.
mod Tests
pub mod Drain
pub mod Order
pub mod History
pub mod Expiry
use damen.Common.{
  ℕ, zero, suc, ◌+◌, ◌-◌, ◌*◌, List, [], ◌∷◌, ◌++◌, Option, none, some, Bool, true, false, ◌==◌,
  ltb, if◌then◌else◌, length,
}
use damen.Common.Bytes.{u32}
use damen.Common.OrdMap.{OrdMap, lookup, emplace, erase}

-- The command fields of a peer. A payload is only stored and handed on.
pub record CommandState {ℓ} (A : Type ℓ) : Type ℓ where
  pub seq_out : ℕ
  pub next_expected : ℕ
  pub initialized : Bool
  pub held : OrdMap A
  pub gap_since : ℕ

-- What a call delivers, in order, and the peer after it.
abbrev pub Delivery {ℓ} : Type ℓ → Type ℓ
Delivery A = List A × CommandState A

abbrev pub max_wait_rtt : ℕ
max_wait_rtt = 3

-- `3 * rtt` microseconds, with 10 ms for an unknown RTT, in nanoseconds.
unfoldable pub wait_ns : ℕ → ℕ
wait_ns rtt_us = max_wait_rtt * (if ltb 0 rtt_us then rtt_us else 10000) * 1000

module _ {ℓ} {A : Type ℓ} where
  -- `m_cmd_held.erase(it); ++m_cmd_next_expected;`
  abbrev pub advance : CommandState A → CommandState A
  advance st = record st {
    held = erase st.next_expected st.held;
    next_expected = u32 (st.next_expected + 1);
  }

  -- The loop of `drain_locked`, on as many rounds as there are packets held.
  unfoldable pub drain : ℕ → CommandState A → Delivery A
  drain zero st = ([], st)
  drain (suc fuel) st = elim (lookup st.next_expected st.held) [
    | none ↦ ([], st)
    | some payload ↦ let (out, after) = drain fuel (advance st) in (payload ∷ out, after)
  ]

  unfoldable pub drain_locked : CommandState A → Delivery A
  drain_locked st = drain (length st.held) st

  -- A further gap may remain: its wait starts anew.
  abbrev pub restart_wait : OrdMap A → ℕ → CommandState A → CommandState A
  restart_wait [] now st = st
  restart_wait ((k, v) ∷ m) now st = record st { gap_since = now }

  -- `expire_locked` over the packets held: the first of them says where the gap ends. Where `now` is
  -- before `gap_since`, the difference is below every wait, here as in the source.
  unfoldable pub expire_held : OrdMap A → CommandState A → ℕ → ℕ → Delivery A
  expire_held [] st rtt_us now = ([], st)
  expire_held ((k, v) ∷ rest) st rtt_us now =
      if ltb (now - st.gap_since) (wait_ns rtt_us)
      then ([], st)
      else (let (out, drained) = drain_locked (record st { next_expected = k }) in
          (out, restart_wait drained.held now drained))

  unfoldable pub expire_locked : CommandState A → ℕ → ℕ → Delivery A
  expire_locked st rtt_us now = expire_held st.held st rtt_us now

  -- The first packet sets the number that is expected.
  abbrev pub first_packet : Bool → CommandState A → ℕ → CommandState A
  first_packet true st seq = st
  first_packet false st seq = record st { next_expected = seq; initialized = true }

  -- The hold of a packet beyond the next one.
  abbrev pub gap_start : OrdMap A → ℕ → ℕ → ℕ
  gap_start [] since now = now
  gap_start ((k, v) ∷ m) since now = since

  abbrev pub hold : CommandState A → ℕ → A → ℕ → CommandState A
  hold st seq payload now = record st {
    gap_since = gap_start st.held st.gap_since now;
    held = emplace seq payload st.held;
  }

  -- From the test of the sequence number against the next one expected.
  unfoldable pub accept : CommandState A → ℕ → A → ℕ → ℕ → Delivery A
  accept st seq payload rtt_us now =
      if ltb seq st.next_expected
      then ([], st)
      else if seq == st.next_expected
      then (let (out, drained) =
            drain_locked (record st { next_expected = u32 (st.next_expected + 1) }) in
          (payload ∷ out, drained))
      else expire_locked (hold st seq payload now) rtt_us now

  unfoldable pub handle : CommandState A → ℕ → A → ℕ → ℕ → Delivery A
  handle st seq payload rtt_us now =
      if seq == 0
      then ([], st)
      else accept (first_packet st.initialized st seq) seq payload rtt_us now

  unfoldable pub flush_expired : CommandState A → ℕ → ℕ → Delivery A
  flush_expired st rtt_us now = expire_locked st rtt_us now

  unfoldable pub reset : CommandState A → CommandState A
  reset st = record {
    seq_out = 1;
    next_expected = 0;
    initialized = false;
    held = [];
    gap_since = 0;
  }

-- What reaches the channel: a packet with its sequence number, or the reactor's periodic flush;
-- each with the RTT estimate and the time of the call.
pub data Event {ℓ} (A : Type ℓ) : Type ℓ where
  packet : ℕ → A → ℕ → ℕ → Event A
  flush : ℕ → ℕ → Event A

module _ {ℓ} {A : Type ℓ} where
  unfoldable pub step : CommandState A → Event A → Delivery A
  step st (packet seq payload rtt_us now) = handle st seq payload rtt_us now
  step st (flush rtt_us now) = flush_expired st rtt_us now

  unfoldable pub run : CommandState A → List (Event A) → Delivery A
  run st [] = ([], st)
  run st (e ∷ es) =
      let (out, after) = step st e in let (later, final) = run after es in (out ++ later, final)
