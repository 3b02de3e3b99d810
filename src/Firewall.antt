-- ===== src/Firewall.antt =====
-- internal/firewall/rules.go: the iptables rules of a device in a state. The upstream interface,
-- which the source finds from the environment or from `ip route`, is an argument.
pub mod Enforcer
pub mod Rules
pub mod Syncs
use safeswitch_router.Common.{
  ℕ, Bool, true, false, List, [], ◌∷◌, ◌++◌, Bytes, bytes, same, drop, if◌then◌else◌,
}

abbrev pub Args : Type 0
Args = List Bytes

pub record Rule : Type 0 where
  pub args : Args
  pub comment : Bytes

pub record RuleSet : Type 0 where
  pub ip : Bytes
  pub state : Bytes
  pub rules : List Rule

abbrev pub state_paused : Bytes
state_paused = bytes "paused"

abbrev pub state_full_tunnel : Bytes
state_full_tunnel = bytes "full_tunnel"

abbrev pub state_service_only : Bytes
state_service_only = bytes "service_only"

abbrev pub state_full_access : Bytes
state_full_access = bytes "full_access"

abbrev pub ss_chain : Bytes
ss_chain = bytes "SAFESWITCH"

abbrev pub wg_iface : Bytes
wg_iface = bytes "wg0"

abbrev pub gateway : Bytes
gateway = bytes "10.10.0.1"

-- `-A SAFESWITCH -s ip -j target`
abbrev pub from_args : Bytes → Bytes → Args
from_args ip target = bytes "-A" ∷ ss_chain ∷ bytes "-s" ∷ ip ∷ bytes "-j" ∷ target ∷ []

-- `-A SAFESWITCH -d ip -j target`
abbrev pub to_args : Bytes → Bytes → Args
to_args ip target = bytes "-A" ∷ ss_chain ∷ bytes "-d" ∷ ip ∷ bytes "-j" ∷ target ∷ []

-- `-A SAFESWITCH -s src -d dst -j ACCEPT`
abbrev pub between_args : Bytes → Bytes → Args
between_args src dst =
    bytes "-A" ∷ ss_chain ∷ bytes "-s" ∷ src ∷ bytes "-d" ∷ dst ∷ bytes "-j" ∷ bytes "ACCEPT" ∷ []

abbrev pub rules_of : Bytes → Bytes → List Rule
rules_of ip state =
    if same state state_paused
    then record {
      args = from_args ip (bytes "DROP");
      comment = bytes "pause: drop outbound from " ++ ip;
    }
      ∷ record { args = to_args ip (bytes "DROP"); comment = bytes "pause: drop inbound to " ++ ip }
      ∷ []
    else if same state state_full_tunnel
    then record {
      args = from_args ip (bytes "ACCEPT");
      comment = bytes "full_tunnel: accept from " ++ ip;
    }
      ∷ record {
        args = to_args ip (bytes "ACCEPT");
        comment = bytes "full_tunnel: accept to " ++ ip;
      }
      ∷ []
    else if same state state_service_only
    then record {
      args = between_args ip gateway;
      comment = bytes "service_only: allow " ++ (ip ++ bytes " to gateway");
    }
      ∷ record {
        args = between_args gateway ip;
        comment = bytes "service_only: allow gateway to " ++ ip;
      }
      ∷ record {
        args = from_args ip (bytes "DROP");
        comment = bytes "service_only: drop outbound from " ++ ip;
      }
      ∷ record {
        args = to_args ip (bytes "DROP");
        comment = bytes "service_only: drop inbound to " ++ ip;
      }
      ∷ []
    else if same state state_full_access
    then record {
      args = from_args ip (bytes "ACCEPT");
      comment = bytes "full_access: accept outbound from " ++ ip;
    }
      ∷ record {
        args = to_args ip (bytes "ACCEPT");
        comment = bytes "full_access: accept inbound to " ++ ip;
      }
      ∷ []
    else []

unfoldable pub build_rules : Bytes → Bytes → RuleSet
build_rules ip state = record { ip = ip; state = state; rules = rules_of ip state }

-- The three checks, in the source's order.
abbrev pub ensure_forward_jump : Bytes → List Args
ensure_forward_jump iface =
    (bytes "-C"
      ∷ bytes "FORWARD"
      ∷ bytes "-m"
      ∷ bytes "conntrack"
      ∷ bytes "--ctstate"
      ∷ bytes "ESTABLISHED,RELATED"
      ∷ bytes "-j"
      ∷ bytes "ACCEPT"
      ∷ [])
    ∷ (bytes "-C"
        ∷ bytes "FORWARD"
        ∷ bytes "-i"
        ∷ wg_iface
        ∷ bytes "-o"
        ∷ iface
        ∷ bytes "-j"
        ∷ bytes "ACCEPT"
        ∷ [])
    ∷ (bytes "-C" ∷ bytes "FORWARD" ∷ bytes "-j" ∷ ss_chain ∷ [])
    ∷ []

abbrev pub insert_forward_jump : Args → Args
insert_forward_jump check_args = bytes "-I" ∷ bytes "FORWARD" ∷ bytes "1" ∷ drop 2 check_args

abbrev pub chain_ensure_args : Args
chain_ensure_args = bytes "-N" ∷ ss_chain ∷ []

abbrev pub chain_flush_args : Args
chain_flush_args = bytes "-F" ∷ ss_chain ∷ []
