-- ===== src/Derive/Freshness.antt =====
-- The ages of samples in ui/src/derive.ts, and the state of the broker that the header shows.
use throttle_deck.Base.{
  String, Bool, true, false, Option, none, some, [], ◌∷◌, ◌==◌, if◌then◌else◌, template,
}
use throttle_deck.Platform.{Platform, Num, lit}
use throttle_deck.Contracts.{BrokerState, GovernorSnapshot}
use throttle_deck.Derive.Copy.{
  Tone, updated_now, broker_healthy, broker_not_responding, broker_update_required, broker_stale,
  unknown_value,
}

module _ ⦃P : Platform⦄ where
  abbrev pub stale_after_ms : Num
  stale_after_ms = lit 15000

  unfoldable pub age_ms : Option String → Num → Option Num
  age_ms none now = none
  age_ms (some sampled_at) now =
      if sampled_at == ""
      then none
      else if P.is_nan (P.date_parse sampled_at)
      then none
      else some (P.max (lit 0) (P.sub now (P.date_parse sampled_at)))

  abbrev age_text : Option Num → String
  age_text none = unknown_value
  age_text (some age) =
      if P.lt age (lit 5000)
      then updated_now
      else if P.lt age (lit 60000)
      then template ("Updated " ∷ P.show (P.round (P.div age (lit 1000))) ∷ "s ago" ∷ [])
      else template ("Updated " ∷ P.show (P.floor (P.div age (lit 60000))) ∷ "m ago" ∷ [])

  unfoldable pub format_age : Option String → Num → String
  format_age sampled_at now = age_text (age_ms sampled_at now)

  unfoldable pub snapshot_sample_age_ms : GovernorSnapshot → Num → Option Num
  snapshot_sample_age_ms snapshot now = elim (age_ms snapshot.broker.sampled_at now) [
    | some from_broker ↦ some from_broker
    | none ↦ age_ms (some snapshot.generated_at) now
  ]

  abbrev exceeds : Option Num → Num → Bool
  exceeds none limit = false
  exceeds (some age) limit = P.lt limit age

  abbrev pub is_down : BrokerState → Bool
  is_down BrokerState.down = true
  is_down _ = false

  unfoldable pub is_snapshot_stale : GovernorSnapshot → Num → Bool
  unfolding snapshot_sample_age_ms
  is_snapshot_stale snapshot now =
      if is_down snapshot.broker.state
      then false
      else exceeds (snapshot_sample_age_ms snapshot now) stale_after_ms

  abbrev pub label_of : BrokerState → Bool → String
  label_of BrokerState.down stale = broker_not_responding
  label_of BrokerState.degraded stale = broker_update_required
  label_of BrokerState.healthy stale = if stale then broker_stale else broker_healthy

  unfoldable pub broker_health_label : GovernorSnapshot → Num → String
  broker_health_label snapshot now = label_of snapshot.broker.state (is_snapshot_stale snapshot now)

  abbrev pub broker_tone_of : BrokerState → Bool → Tone
  broker_tone_of BrokerState.down stale = Tone.critical
  broker_tone_of BrokerState.degraded stale = Tone.warning
  broker_tone_of BrokerState.healthy stale = if stale then Tone.warning else Tone.healthy

  unfoldable pub broker_health_tone : GovernorSnapshot → Num → Tone
  broker_health_tone snapshot now =
      broker_tone_of snapshot.broker.state (is_snapshot_stale snapshot now)
