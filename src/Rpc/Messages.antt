-- ===== src/Rpc/Messages.antt =====
-- The messages of proto/edgescope.proto that carry lists and metrics, with the fields of the proto.
use edge_scpoe.Base.Int.{ℤ}
use edge_scpoe.Base.{ℕ, Bool, List}
use edge_scpoe.Text.{Bytes}

pub record GetAgentInfoResponse : Type 0 where
  pub hostname : Bytes
  pub kernel_version : Bytes
  pub uptime_seconds : ℕ
  pub agent_version : Bytes

pub record GetSystemMetricsResponse (D : Type 0) : Type 0 where
  pub cpu_usage_percent : D
  pub memory_total_bytes : ℕ
  pub memory_available_bytes : ℕ
  pub memory_used_bytes : ℕ
  pub load_average_1m : D
  pub load_average_5m : D
  pub load_average_15m : D
  pub uptime_seconds : ℕ

pub record ProcessMessage (D : Type 0) : Type 0 where
  pub pid : ℤ
  pub ppid : ℤ
  pub name : Bytes
  pub state : Bytes
  pub command_line : Bytes
  pub cpu_usage_percent : D
  pub resident_memory_bytes : ℕ
  pub virtual_memory_bytes : ℕ
  pub thread_count : ℕ
  pub read_bytes : ℕ
  pub write_bytes : ℕ
  pub start_time_ticks : ℕ

pub record NetworkInterface : Type 0 where
  pub name : Bytes
  pub ipv4_addresses : List Bytes
  pub ipv6_addresses : List Bytes
  pub rx_bytes : ℕ
  pub tx_bytes : ℕ
  pub state : Bytes

pub record TcpConnection : Type 0 where
  pub protocol : Bytes
  pub local_address : Bytes
  pub local_port : ℕ
  pub remote_address : Bytes
  pub remote_port : ℕ
  pub state : Bytes
  pub inode : ℕ
  pub pid : ℕ

pub record LogSource : Type 0 where
  pub id : Bytes
  pub display_name : Bytes
  pub available : Bool

pub record ServiceMessage : Type 0 where
  pub name : Bytes
  pub description : Bytes
  pub load_state : Bytes
  pub active_state : Bytes
  pub sub_state : Bytes
