-- ===== src/Api/Audits.antt =====
-- What the traffic audit of ui/src/api.ts reports, for every answer of the service.
use throttle_deck.Base.{
  ◌≡◌, ◌≢◌, refl, ◌↔◌, String, true, Option, none, some, arith, eq_iff, Bool-cases, Option-cases,
  inl, inr, sym, ◌∙◌, ap,
}
use throttle_deck.Platform.{Platform}
use throttle_deck.Json.{Value, str, obj, Fields, get}
use throttle_deck.Api.Fetch.{Response, response_ok}
use throttle_deck.Api.Audit.{
  AuditStatus, read_audit_status, audit_fields, audit_payload, audit_response,
}

-- The service's word for a status.
abbrev pub status_word : AuditStatus → String
status_word AuditStatus.clear = "clear"
status_word AuditStatus.findings = "findings"
status_word AuditStatus.unavailable = "unavailable"
status_word AuditStatus.failed = "failed"

module _ ⦃P : Platform⦄ where
  -- A successful answer, an object with this word for its status.
  pub record Reports (answer : Option Response) (word : String) : Type 0 where
    pub response : Response
    pub is_answer : answer ≡ some response
    pub is_ok : response_ok response ≡ true
    pub payload : Fields
    pub has_payload : response.json ≡ some (obj payload)
    pub has_status : get "status" payload ≡ str word

  read_audit_status-word :
      (v : Value) (s : AuditStatus)
      → s ≢ AuditStatus.failed
      → read_audit_status v ≡ s
      → v ≡ str (status_word s)
  unfolding read_audit_status
  read_audit_status-word (str t) AuditStatus.clear ne e = ground (arith, eq_iff t "clear")
  read_audit_status-word (str t) AuditStatus.findings ne e = ground (arith, eq_iff t "findings")
  read_audit_status-word (str t) AuditStatus.unavailable ne e =
      ground (arith, eq_iff t "unavailable")
  read_audit_status-word (str t) AuditStatus.failed ne e = absurd (ne refl)
  read_audit_status-word _ s ne e = absurd (ne (sym e))

  word-read_audit_status :
      (s : AuditStatus) → s ≢ AuditStatus.failed → read_audit_status (str (status_word s)) ≡ s
  unfolding read_audit_status
  word-read_audit_status AuditStatus.clear ne = refl
  word-read_audit_status AuditStatus.findings ne = refl
  word-read_audit_status AuditStatus.unavailable ne = refl
  word-read_audit_status AuditStatus.failed ne = absurd (ne refl)

  audit_payload-word :
      (v : Value) (s : AuditStatus)
      → s ≢ AuditStatus.failed
      → (audit_payload v).status ≡ s
      → (fs : Fields) × (v ≡ obj fs) × (get "status" fs ≡ str (status_word s))
  unfolding audit_payload audit_fields read_audit_status
  audit_payload-word (obj fs) s ne e = (fs, refl, read_audit_status-word (get "status" fs) s ne e)
  audit_payload-word _ s ne e = absurd (ne (sym e))

  audit_response-Reports :
      (answer : Option Response) (s : AuditStatus)
      → s ≢ AuditStatus.failed
      → (audit_response answer).status ≡ s
      → Reports answer (status_word s)
  unfolding audit_response
  audit_response-Reports none s ne e = absurd (ne (sym e))
  audit_response-Reports (some r) s ne e = elim (Bool-cases (response_ok r)) [
    | inr refused ↦ absurd (ne (sym (rw refused at e)))
    | inl accepted ↦ elim (Option-cases r.json) [
      | inl missing ↦ absurd (ne (sym (rw (accepted, missing) at e)))
      | inr (v, has) ↦
          let (fs, is_obj, word) = audit_payload-word v s ne (rw (accepted, has) at e) in
          record {
            response = r;
            is_answer = refl;
            is_ok = accepted;
            payload = fs;
            has_payload = has ∙ ap some is_obj;
            has_status = word;
          }
    ]
  ]

  audit_response_of_Reports :
      (answer : Option Response) (s : AuditStatus)
      → s ≢ AuditStatus.failed
      → Reports answer (status_word s)
      → (audit_response answer).status ≡ s
  unfolding audit_response audit_payload audit_fields
  audit_response_of_Reports answer s ne r =
      rw (r.is_answer, r.is_ok, r.has_payload, r.has_status) (word-read_audit_status s ne)

  -- An audit has a status other than failed exactly if the service answered with a status from 200 to
  -- 299 and with an object that holds the word for it.
  pub audit_response-status_iff :
      (answer : Option Response) (s : AuditStatus)
      → s ≢ AuditStatus.failed
      → ((audit_response answer).status ≡ s) ↔ Reports answer (status_word s)
  audit_response-status_iff answer s ne =
      (audit_response-Reports answer s ne, audit_response_of_Reports answer s ne)
