-- ===== src/Derive/Copy.antt =====
-- The texts of `COPY` in ui/src/derive.ts that a function of the window returns, and `Tone`.
use throttle_deck.Base.{String}

pub data Tone : Type 0 where
  healthy warning critical stop neutral : Tone

-- A tone as the value of an attribute.
abbrev pub tone_text : Tone → String
tone_text Tone.healthy = "healthy"
tone_text Tone.warning = "warning"
tone_text Tone.critical = "critical"
tone_text Tone.stop = "stop"
tone_text Tone.neutral = "neutral"

abbrev pub updated_now : String
updated_now = "Updated now"

abbrev pub healthy_label : String
healthy_label = "Healthy"

abbrev pub broker_healthy : String
broker_healthy = "ThrottleDeck Broker healthy"

abbrev pub broker_not_responding : String
broker_not_responding = "ThrottleDeck Broker is not responding"

abbrev pub broker_update_required : String
broker_update_required = "ThrottleDeck Broker update required"

abbrev pub broker_stale : String
broker_stale = "ThrottleDeck Broker state is stale"

abbrev pub allowed_label : String
allowed_label = "Allowed"

abbrev pub stopped_label : String
stopped_label = "Stopped"

abbrev pub stopping_label : String
stopping_label = "Stopping"

abbrev pub unavailable_label : String
unavailable_label = "Unavailable"

abbrev pub not_configured : String
not_configured = "Not configured"

abbrev pub account_quota_unknown : String
account_quota_unknown = "Account quota unknown"

abbrev pub yes_label : String
yes_label = "Yes"

abbrev pub paper_label : String
paper_label = "Paper"

abbrev pub real_money_label : String
real_money_label = "Real money"

abbrev pub stop_new_money_orders_label : String
stop_new_money_orders_label = "Stop new money orders"

abbrev pub unlock_label : String
unlock_label = "Unlock"

abbrev pub possible_direct_caller : String
possible_direct_caller = "Possible direct caller"

abbrev pub direct_caller_detail : String
direct_caller_detail = "Polymarket throttled this machine while ThrottleDeck Broker still had room."

abbrev pub not_applied : String
not_applied = "Not applied — Governor did not confirm the change."

abbrev pub unknown_value : String
unknown_value = "Unknown"
