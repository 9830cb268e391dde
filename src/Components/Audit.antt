-- ===== src/Components/Audit.antt =====
-- How a traffic audit ends in ui/src/components/ActivityFeed.tsx, and what the strip of
-- ui/src/components/SafetyStrip.tsx depends on.
use throttle_deck.Base.{◌≡◌, refl, ◌⊎◌, inl, inr, Bool, true, false, Option, some}
use throttle_deck.Platform.{Platform}
use throttle_deck.Contracts.{GovernorSnapshot}
use throttle_deck.Api.{
  Outcome-cases, audit_response, audit_request, Codes, Document, Fetcher, thrown, read_csrf_token,
  run_traffic_audit, TrafficAuditResult,
}
use throttle_deck.Components.SafetyStrip.{StripButton, safety_strip}
use throttle_deck.Components.FeedLayout.{FeedState, begin_audit, finish_audit}

module _ ⦃P : Platform⦄ where
  -- An audit ends with a result that is shown and with its button enabled, whatever the service
  -- answers, except where the page's token cannot be read: then no result comes, and the feed stays
  -- as it was while it waited, with the button disabled.
  pub finish_audit-begin_audit :
      (decode : Codes → Option Codes) (document : Option Document) (fetcher : Fetcher)
      (s : FeedState)
      → let ended = finish_audit (run_traffic_audit decode document fetcher) (begin_audit s) in
        ((ended.auditing ≡ false) × ((r : TrafficAuditResult) × (ended.audit ≡ some r)))
        ⊎ ((read_csrf_token decode document ≡ thrown)
            × (ended ≡ begin_audit s)
            × (ended.auditing ≡ true))
  unfolding begin_audit finish_audit run_traffic_audit
  finish_audit-begin_audit decode document fetcher s =
      elim (Outcome-cases (read_csrf_token decode document)) [
        | inl e ↦ inr (
          e,
          rw (e, run_traffic_audit, finish_audit) refl,
          rw (e, run_traffic_audit, finish_audit) refl,
        )
        | inr (csrf, e) ↦ inl (
          rw (e, run_traffic_audit, finish_audit) refl,
          (
            audit_response (fetcher (audit_request csrf)),
            rw (e, run_traffic_audit, finish_audit) refl,
          ),
        )
      ]

  -- The strip shows and offers the same for any two snapshots with the same money lock and the same
  -- state of the global reads: nothing else that the service says, such as a paused collection, a
  -- broker that is down or a stale sample, changes the safety controls.
  pub safety_strip-same :
      {E : Type 0} (g other : GovernorSnapshot) (pending : Bool) (handler : StripButton → E)
      → g.trade_lock ≡ other.trade_lock
      → g.broker_access.global.state ≡ other.broker_access.global.state
      → safety_strip g pending handler ≡ safety_strip other pending handler
  unfolding safety_strip
  safety_strip-same g other pending handler same_lock same_reads = rw (same_lock, same_reads) refl
