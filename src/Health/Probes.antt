-- ===== src/Health/Probes.antt =====
-- What the probes report of the server and of its sidecar.
use dapr_mcp.Base.{
  String, Bool, true, false, not, Option, none, some, if◌then◌else◌, Result, ok, err, ◌≡◌, refl, ap,
  ◌∙◌, arith,
}
use dapr_mcp.Health.{
  healthy, unhealthy, degraded, Reply, Handler, check_dapr, readiness, reported, check_client,
  with_check, ready_with, CheckResult, ready_reply,
}

abbrev pub answered : Result String (Unit {0}) → Bool
answered (ok u) = true
answered (err e) = false

module _ {W : Type 0} where
  -- The sidecar is in order if there is none, or it answers.
  abbrev pub sidecar_ok : Option (W → Result String (Unit {0}) × W) → W → Bool
  sidecar_ok none w = true
  sidecar_ok (some get_metadata) w = answered (get_metadata w).0

  reported_status :
      (h : Handler W) (before : W) (r : Result String (Unit {0}) × W)
      → (reported h before r).0.status ≡ (if answered r.0 then healthy else unhealthy)
  unfolding reported
  reported_status h before (err e, w) = refl
  reported_status h before (ok u, w) = refl

  check_dapr_status :
      (h : Handler W) (w : W) (get : W → Result String (Unit {0}) × W)
      → h.dapr_client ≡ some get
      → (check_dapr h w).0.status ≡ (if answered (get w).0 then healthy else unhealthy)
  unfolding check_dapr check_client
  check_dapr_status h w get e =
      ap (λ o. (check_client h o w).0.status) e ∙ reported_status h w (get w)

  abbrev pub IsReply : Handler W → Bool → Reply → Type 0
  IsReply h sidecar r =
      (r.code ≡ (if h.ready then 200 else 503))
      × (r.response.status
          ≡ (if not h.ready then unhealthy else if sidecar then healthy else degraded))

  IsReply-with_check :
      (h : Handler W) (b : Bool) (check : CheckResult × W)
      → check.0.status ≡ (if b then healthy else unhealthy)
      → IsReply h b (with_check h check).0
  unfolding with_check ready_reply
  IsReply-with_check h b (check, w) e = rw e (ground arith)

  IsReply-ready_with :
      (h : Handler W) (client : Option (W → Result String (Unit {0}) × W)) (w : W)
      → h.dapr_client ≡ client
      → IsReply h (sidecar_ok client w) (ready_with h client w).0
  unfolding ready_with ready_reply
  IsReply-ready_with h none w e = ground arith
  IsReply-ready_with h (some get) w e =
      IsReply-with_check h (answered (get w).0) (check_dapr h w) (check_dapr_status h w get e)

  -- The readiness probe answers 503 exactly if the server is marked as not ready, whatever the state
  -- of the sidecar; the status it reports is `unhealthy` in that case, else `degraded` exactly if
  -- there is a client and the sidecar does not answer, else `healthy`.
  pub readiness-IsReply :
      (h : Handler W) (w : W) → IsReply h (sidecar_ok h.dapr_client w) (readiness h w).0
  unfolding readiness
  readiness-IsReply h w = IsReply-ready_with h h.dapr_client w refl
