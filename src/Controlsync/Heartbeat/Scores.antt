-- ===== src/Controlsync/Heartbeat/Scores.antt =====
-- What the heartbeat of internal/controlsync/heartbeat.go says and does, with the client and the
-- fail-safe around it.
use safeswitch_router.Common.{
  [], ℕ, ◌+◌, ◌≤◌, ◌≡◌, refl, Bool, true, false, Option, none, some, arith, Bytes, bytes, ltb,
  if◌then◌else◌, Option-cases, inl, inr,
}
use safeswitch_router.Common.Dict.{is_some}
use safeswitch_router.Policy.{Runtime}
use safeswitch_router.Enforcer.{FailsafeState}
use safeswitch_router.Controlsync.Client.{
  Client, Request, HttpAnswer, Reply, auth_node_token, resolve_opts, do_with_retry, post,
}
use safeswitch_router.Controlsync.Client.Retries.{do_with_retry-IsAccepted}
use safeswitch_router.Controlsync.Heartbeat.Messages.{Health, Node, ElectionHeartbeat}
use safeswitch_router.Controlsync.Heartbeat.{
  TunnelConfig, health_score, registration_state, cloud_reachable, Sent, send_heartbeat,
}

abbrev pub penalty : Health → Bool → Bool → ℕ
penalty h reachable failsafe =
    (if ltb 85 h.cpu then 20 else if ltb 70 h.cpu then 10 else 0)
    + (if ltb 80 h.mem then 10 else 0)
    + (if ltb 90 h.disk then 10 else 0)
    + (if reachable then 0 else 15)
    + (if failsafe then 25 else 0)

-- The score is 100 less the penalties, which never come near 100: the clamp at 0 is not reached.
pub health_score-penalty :
    (h : Health) (reachable failsafe : Bool)
    → (health_score h reachable failsafe + penalty h reachable failsafe ≡ 100)
      × (20 ≤ health_score h reachable failsafe)
unfolding health_score
health_score-penalty h true true = (ground arith, ground arith)
health_score-penalty h true false = (ground arith, ground arith)
health_score-penalty h false true = (ground arith, ground arith)
health_score-penalty h false false = (ground arith, ground arith)

-- The heartbeat goes out by `post`: the cloud counts as reachable exactly if there is a reply,
-- whatever its status, so that an error status below 500 counts as no cloud too, but for 416.
pub cloud_reachable-post :
    (answers : ℕ → Request → HttpAnswer) (ctx_done : ℕ → Bool) (c : Client) (path body : Bytes)
    → cloud_reachable (post answers ctx_done c path body).reply
      ≡ is_some (post answers ctx_done c path body).reply
unfolding cloud_reachable post
cloud_reachable-post answers ctx_done c path body =
    let opts = resolve_opts auth_node_token [] in
    elim (Option-cases
      (do_with_retry answers ctx_done c (bytes "POST") path (some body) opts).reply) [
        | inl n ↦ rw n refl
        | inr (r, n) ↦ ground (
          arith,
          n,
          do_with_retry-IsAccepted answers ctx_done c (bytes "POST") path (some body) opts r n,
        )
      ]

module _ (sha256_hex : Bytes → Bytes) (format_nano : ℕ → Bytes) (n : Node) (uptime : ℕ)
    (format_time : ℕ → Bytes) (parse_time : Bytes → Option ℕ) (scan_int : Bytes → ℕ) where
  abbrev beat :
      Option Reply
      → Bool
      → ℕ
      → Runtime
      → TunnelConfig × FailsafeState
      → Sent sha256_hex format_nano n uptime
  beat = send_heartbeat sha256_hex format_nano n uptime format_time parse_time scan_int

  -- The election heartbeat of a node of a family says what the fail-safe and the cloud are like now.
  abbrev pub Tells : Bool → Bool → Option ElectionHeartbeat → Type 0
  Tells reachable failsafe none = Unit {0}
  Tells reachable failsafe (some e) =
      (e.registration_state ≡ (
        if failsafe
        then bytes "failsafe"
        else if reachable
        then bytes "active"
        else bytes "degraded"))
      × (e.connectivity.cloud_connected ≡ reachable)
      × (20 ≤ e.health.health_score)
