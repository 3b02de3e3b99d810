-- ===== src/Controlsync/Heartbeat/Messages.antt =====
-- What internal/controlsync/heartbeat.go reads of the node, and the two messages to the cloud.
use safeswitch_router.Common.{ℕ, Bool, Option, Bytes}

-- What a heartbeat reads of the node: its identity and version, the last row of `health_snapshots`
-- (with `dns_ok`, `none` for NULL), and the two counts.
pub record Health : Type 0 where
  pub cpu : ℕ
  pub mem : ℕ
  pub disk : ℕ
  pub dns_ok : Option ℕ

pub record Node : Type 0 where
  pub node_id : Bytes
  pub node_name : Bytes
  pub version : Bytes
  pub node_type : Bytes
  pub is_lan_local : Bool
  pub public_endpoint : Bytes
  pub snapshot : Option Health
  pub tunnel_peers : ℕ
  pub device_count : ℕ

pub record HeartbeatPayload : Type 0 where
  pub node_id : Bytes
  pub node_name : Bytes
  pub version : Bytes
  pub uptime_seconds : ℕ
  pub cpu_pct : ℕ
  pub mem_pct : ℕ
  pub disk_pct : ℕ
  pub tunnel_peer_count : ℕ
  pub active_bundle_version : Bytes
  pub device_count : ℕ

pub record EhConnectivity : Type 0 where
  pub cloud_connected : Bool
  pub lan_ok : Bool
  pub internet_ok : Bool
  pub rtt_to_cloud_ms : ℕ
  pub packet_loss_pct : ℕ

pub record EhHealth : Type 0 where
  pub health_score : ℕ
  pub cpu_pct : ℕ
  pub memory_pct : ℕ
  pub disk_pct : ℕ
  pub process_ok : Bool
  pub dns_service_ok : Bool
  pub wireguard_ok : Bool
  pub policy_cache_ok : Bool
  pub uptime_seconds : ℕ

pub record EhPower : Type 0 where
  pub power_class : Bytes
  pub on_ac_power : Bool

pub record EhDnsMetrics : Type 0 where
  pub eligible : Bool
  pub bind_ok : Bool
  pub latency_ms_p50 : ℕ
  pub error_rate_pct : ℕ

pub record EhExitMetrics : Type 0 where
  pub eligible : Bool
  pub wg_peers : ℕ

pub record EhPolicyMetrics : Type 0 where
  pub eligible : Bool
  pub command_bus_ok : Bool
  pub policy_version : Bytes

pub record ElectionHeartbeat : Type 0 where
  pub wireguard_public_key : Bytes
  pub schema_version : ℕ
  pub family_id : Bytes
  pub node_id : Bytes
  pub node_epoch : ℕ
  pub sent_at : Bytes
  pub agent_version : Bytes
  pub capability_hash : Bytes
  pub registration_state : Bytes
  pub node_type : Bytes
  pub is_lan_local : Bool
  pub public_endpoint : Bytes
  pub connectivity : EhConnectivity
  pub health : EhHealth
  pub power : EhPower
  pub dns : EhDnsMetrics
  pub exit : EhExitMetrics
  pub policy : EhPolicyMetrics
  pub presence_devices_seen : ℕ
