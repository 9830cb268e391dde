-- ===== src/Derive/Header.antt =====
-- The header of the window, by ui/src/derive.ts: its age and its state agree.
use throttle_deck.Base.{◌≡◌, Bool, true, false, some, arith, Bool-cases, inl, inr}
use throttle_deck.Platform.{Platform, Num, lit, Laws}
use throttle_deck.Contracts.{GovernorSnapshot, BrokerState}
use throttle_deck.Derive.Copy.{Tone, updated_now}
use throttle_deck.Derive.Freshness.{
  age_ms, format_age, is_snapshot_stale, broker_health_label, broker_health_tone, stale_after_ms,
}

true-ne-false : {b : Bool} → b ≡ true → b ≡ false → ⊥
true-ne-false e f = cc

module _ ⦃P : Platform⦄ (laws : Laws P) where
  not_both : (a : Num) → P.lt a (lit 5000) ≡ true → P.lt stale_after_ms a ≡ false
  not_both a h = elim (Bool-cases (P.lt stale_after_ms a)) [
    | inr within ↦ within
    | inl beyond ↦ absurd (
        true-ne-false (laws.lt_trans stale_after_ms a (lit 5000) beyond h)
          (laws.lit_lt 15000 5000 (omega arith) (omega arith)))
  ]

  fresh :
      (g : GovernorSnapshot) (now age : Num)
      → age_ms g.broker.sampled_at now ≡ some age
      → P.lt age (lit 5000) ≡ true
      → is_snapshot_stale g now ≡ false
  unfolding is_snapshot_stale
  fresh g now age e h = ground (arith, not_both age h)

  -- By the laws of the numbers: if the broker's sample has an age, below five seconds, then the
  -- header says that it was updated now, the snapshot is not stale, and the label and the tone of
  -- the broker are those of its state alone: healthy in the healthy tone, a degraded broker in need
  -- of an update in the warning tone, and one that is down not responding in the critical tone.
  pub updated_now-not_stale :
      (g : GovernorSnapshot) (now age : Num)
      → age_ms g.broker.sampled_at now ≡ some age
      → P.lt age (lit 5000) ≡ true
      → (format_age g.broker.sampled_at now ≡ updated_now)
        × (is_snapshot_stale g now ≡ false)
        × (broker_health_label g now ≡ (elim g.broker.state [
          | BrokerState.healthy ↦ "ThrottleDeck Broker healthy"
          | BrokerState.degraded ↦ "ThrottleDeck Broker update required"
          | BrokerState.down ↦ "ThrottleDeck Broker is not responding"
        ]))
        × (broker_health_tone g now ≡ (elim g.broker.state [
          | BrokerState.healthy ↦ Tone.healthy
          | BrokerState.degraded ↦ Tone.warning
          | BrokerState.down ↦ Tone.critical
        ]))
  unfolding format_age broker_health_label broker_health_tone
  updated_now-not_stale g now age e h =
      let stale : is_snapshot_stale g now ≡ false = fresh g now age e h in
      (ground (arith, e, h), stale, rw stale (ground arith), rw stale (ground arith))
