-- ===== src/Controlsync/Heartbeat.antt =====
-- internal/controlsync/heartbeat.go: what the node tells the cloud of itself, and the fail-safe that
-- hangs on it. The percentages are whole numbers. The formats of times, `fmt.Sscan` (0 where it reads
-- nothing), the hexadecimal SHA-256, the replies of the cloud and whether SQLite takes a row are
-- parameters, and a grace period is one that fits 63 bits. Times are nanoseconds, 0 for Go's zero time.
pub mod Messages
pub mod Scores
use safeswitch_router.Common.{
  ℕ, ◌+◌, ◌-◌, ◌*◌, Bool, true, false, not, ◌&&◌, ◌||◌, Option, none, some, List, [], ◌∷◌, ◌++◌,
  Bytes, bytes, length, take, ltb, leb, same, ◌==◌, if◌then◌else◌,
}
use safeswitch_router.Common.Dict.{Dict, lookup, insert}
use safeswitch_router.Policy.{Bundle, Runtime, active_bundle}
use safeswitch_router.Enforcer.{
  FailsafeState, Report, check_and_enter_failsafe, update_emergency_domains, is_active,
}
use safeswitch_router.Controlsync.Client.{Reply}
use safeswitch_router.Controlsync.Blocklists.{config_value}
use safeswitch_router.Controlsync.Heartbeat.Messages.{
  Health, Node, HeartbeatPayload, EhConnectivity, EhHealth, EhPower, EhDnsMetrics, EhExitMetrics,
  EhPolicyMetrics, ElectionHeartbeat,
}

abbrev pub TunnelConfig : Type 0
TunnelConfig = Dict Bytes

abbrev pub bundle_version : Option Bundle → Bytes
bundle_version none = bytes "none"
bundle_version (some b) = b.version

abbrev pub last_health : Option Health → Health
last_health none = record { cpu = 0; mem = 0; disk = 0; dns_ok = none }
last_health (some h) = h

unfoldable pub is_dns_alive : Option Health → Bool
is_dns_alive none = true
is_dns_alive (some h) = elim h.dns_ok [ none ↦ true | some ok ↦ ok == 1 ]

unfoldable pub cloud_reachable : Option Reply → Bool
cloud_reachable none = false
cloud_reachable (some reply) = ltb reply.status 500

-- The clamp at 0 is that of the subtraction.
unfoldable pub health_score : Health → Bool → Bool → ℕ
health_score h reachable failsafe =
    let cpu = if ltb 85 h.cpu then 100 - 20 else if ltb 70 h.cpu then 100 - 10 else 100 in
    let mem = if ltb 80 h.mem then cpu - 10 else cpu in
    let disk = if ltb 90 h.disk then mem - 10 else mem in
    let cloud = if not reachable then disk - 15 else disk in if failsafe then cloud - 25 else cloud

unfoldable pub registration_state : Bool → Bool → Bytes
registration_state reachable failsafe =
    if failsafe
    then bytes "failsafe"
    else if not reachable
    then bytes "degraded"
    else bytes "active"

unfoldable pub load_bundle_expiry : (Bytes → Option ℕ) → TunnelConfig → ℕ
load_bundle_expiry parse_time config =
    let raw = config_value (bytes "bundle_expires_at") config in
    if length raw == 0 then 0 else elim (parse_time raw) [ none ↦ 0 | some t ↦ t ]

unfoldable pub persist_bundle_expiry : (ℕ → Bytes) → Bool → ℕ → TunnelConfig → TunnelConfig
persist_bundle_expiry format_time writes t config =
    if writes then insert (bytes "bundle_expires_at") (format_time t) config else config

unfoldable pub load_failsafe_grace : (Bytes → ℕ) → TunnelConfig → ℕ
load_failsafe_grace scan_int config =
    let raw = config_value (bytes "failsafe_grace_seconds") config in
    if length raw == 0 then 0 else scan_int raw * 1_000_000_000

unfoldable pub capability_hash : (Bytes → Bytes) → Bytes → Bytes
capability_hash sha256_hex node_id =
    take 24 (bytes "sha256:" ++ sha256_hex (bytes "nas:mains:ethernet:home_lan:v1:" ++ node_id))

-- What the bundle at hand leaves behind: its end in the configuration, and its emergency domains.
unfoldable pub note_bundle :
    (ℕ → Bytes) → Bool → Option Bundle → TunnelConfig × FailsafeState → TunnelConfig × FailsafeState
note_bundle format_time writes none (config, s) = (config, s)
note_bundle format_time writes (some b) (config, s) =
    let kept =
      if not (b.expires_at == 0)
      then persist_bundle_expiry format_time writes b.expires_at config
      else config in
    (
      kept,
      if ltb 0 (length b.emergency_domains)
          then update_emergency_domains b.emergency_domains s
          else s,
    )

module _ (sha256_hex : Bytes → Bytes) (format_nano : ℕ → Bytes) (n : Node) (uptime : ℕ) where
  -- The last call of the cloud for a node of a family, with the score beside it.
  unfoldable pub election_heartbeat :
      Bytes → Bool → Bool → ℕ → TunnelConfig → Option ElectionHeartbeat
  election_heartbeat version reachable failsafe now config =
      let family_id = config_value (bytes "family_id") config in
      let h = last_health n.snapshot in
      let dns_ok = is_dns_alive n.snapshot in
      let policy_ok = not (same version (bytes "none")) && not (length version == 0) in
      if length family_id == 0
      then none
      else some (record {
        wireguard_public_key = config_value (bytes "wireguard_public_key") config;
        schema_version = 1;
        family_id = family_id;
        node_id = n.node_id;
        node_epoch = 1;
        sent_at = format_nano now;
        agent_version = n.version;
        capability_hash = capability_hash sha256_hex n.node_id;
        registration_state = registration_state reachable failsafe;
        node_type = n.node_type;
        is_lan_local = n.is_lan_local;
        public_endpoint = n.public_endpoint;
        connectivity = record {
          cloud_connected = reachable;
          lan_ok = true;
          internet_ok = true;
          rtt_to_cloud_ms = 0;
          packet_loss_pct = 0;
        };
        health = record {
          health_score = health_score h reachable failsafe;
          cpu_pct = h.cpu;
          memory_pct = h.mem;
          disk_pct = h.disk;
          process_ok = true;
          dns_service_ok = dns_ok;
          wireguard_ok = leb 0 n.tunnel_peers;
          policy_cache_ok = policy_ok;
          uptime_seconds = uptime;
        };
        power = record { power_class = bytes "mains"; on_ac_power = true };
        dns = record {
          eligible = dns_ok;
          bind_ok = dns_ok;
          latency_ms_p50 = 3;
          error_rate_pct = 0;
        };
        exit = record { eligible = leb 0 n.tunnel_peers; wg_peers = n.tunnel_peers };
        policy = record { eligible = policy_ok; command_bus_ok = true; policy_version = version };
        presence_devices_seen = n.device_count;
      })

  -- The two messages, and the state behind.
  pub record Sent : Type 0 where
    pub payload : HeartbeatPayload
    pub election : Option ElectionHeartbeat
    pub config : TunnelConfig
    pub failsafe : FailsafeState
    pub reports : List Report

  module _ (format_time : ℕ → Bytes) (parse_time : Bytes → Option ℕ) (scan_int : Bytes → ℕ) where
    -- `reply` is that to the first message; one `now` stands for the times of both.
    unfoldable pub send_heartbeat :
        Option Reply → Bool → ℕ → Runtime → TunnelConfig × FailsafeState → Sent
    send_heartbeat reply writes now r (config, s) =
        let version = bundle_version (active_bundle r) in
        let h = last_health n.snapshot in
        let noted = note_bundle format_time writes (active_bundle r) (config, s) in
        let checked =
          check_and_enter_failsafe
            (record {
              now = now;
              bundle_expires_at = load_bundle_expiry parse_time noted.0;
              cloud_reachable = cloud_reachable reply;
              grace_period = load_failsafe_grace scan_int noted.0;
            })
            noted.1 in
        record {
          payload = record {
            node_id = n.node_id;
            node_name = n.node_name;
            version = n.version;
            uptime_seconds = uptime;
            cpu_pct = h.cpu;
            mem_pct = h.mem;
            disk_pct = h.disk;
            tunnel_peer_count = n.tunnel_peers;
            active_bundle_version = version;
            device_count = n.device_count;
          };
          election =
              election_heartbeat version (cloud_reachable reply) (is_active checked.0) now noted.0;
          config = noted.0;
          failsafe = checked.0;
          reports = checked.1;
        }
