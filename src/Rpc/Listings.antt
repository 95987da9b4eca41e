-- ===== src/Rpc/Listings.antt =====
-- The handlers that answer with metrics, a list or details: `GetAgentInfo`, `GetSystemMetrics`,
-- `ListProcesses`, `GetProcessDetails`, `GetNetworkInterfaces`, `ListTcpConnections`, `ListLogs` and
-- `ListServices`. Each returns the response, or a status that is not OK.
use edge_scpoe.Base.{
  ℕ, Bool, ◌&&◌, ◌||◌, List, [], ◌∷◌, ◌++◌, Option, none, some, ◌==◌, if◌then◌else◌, map, null,
}
use edge_scpoe.Base.Int.{ℤ, pos}
use edge_scpoe.Base.Floats.{Floats}
use edge_scpoe.Base.Results.{Result, ok, err}
use edge_scpoe.Text.{Bytes, codes, lines}
use edge_scpoe.Rpc.{Status, invalid_argument, not_found, permission_denied, internal}
use edge_scpoe.Rpc.Messages.{
  GetAgentInfoResponse, GetSystemMetricsResponse, ProcessMessage, NetworkInterface, TcpConnection,
  LogSource, ServiceMessage,
}
use edge_scpoe.Logs.{AllowedLog, LogSourceInfo, list_logs}
use edge_scpoe.Services.{ServiceInfo, Listed, Runner, list_services}
use edge_scpoe.Sampler.{Collected, collected, failed}
use edge_scpoe.Metrics.{SystemMetrics}
use edge_scpoe.Network.Interfaces.{NetworkInterfaceInfo}
use edge_scpoe.Network.Tcp.{TcpConnectionInfo}
use edge_scpoe.ProcessList.{ProcessInfo, ProcessCollectorError}
use edge_scpoe.ProcessList.Collect.{System, Error, error, get_process, list_processes}

abbrev pub Answer : Type 0 → Type 0
Answer = Result Status

-- An error without a code of its own.
unfoldable pub internal_unless : {A B : Type 0} → (A → B) → Result Bytes A → Answer B
internal_unless fill (ok a) = ok (fill a)
internal_unless fill (err message) = err (record { code = internal; message = message })

-- `ReadFirstLine`.
unfoldable pub pop_line_ends : Bytes → Bytes
pop_line_ends [] = []
pop_line_ends (c ∷ cs) =
    let rest = pop_line_ends cs in if null rest && (c == b'\n' || c == b'\r') then [] else c ∷ rest

unfoldable pub first_stripped : List Bytes → Bytes
unfolding pop_line_ends
first_stripped [] = []
first_stripped (line ∷ rest) = pop_line_ends line

unfoldable pub read_first_line : Option Bytes → Bytes
unfolding first_stripped
read_first_line none = []
read_first_line (some text) = first_stripped (lines text)

-- `GetHostname`; an error has the text of `errno`.
unfoldable pub get_hostname : Result Bytes Bytes → Bytes
get_hostname (ok name) = name
get_hostname (err text) = codes "unknown (" ++ text ++ codes ")"

-- `GetKernelVersion`, over /proc/sys/kernel/osrelease.
unfoldable pub get_kernel_version : Option Bytes → Bytes
unfolding read_first_line
get_kernel_version file =
    let version = read_first_line file in if null version then codes "unknown" else version

module _ {D : Type 0} (floats : Floats D) where
  unfoldable pub seconds_of : Option (D × Bytes) → ℕ
  seconds_of none = 0
  seconds_of (some (uptime, rest)) = floats.to_u64 uptime

  -- `GetUptimeSeconds`, over /proc/uptime; `read_double` is `stream >> value` for a `double`.
  unfoldable pub get_uptime_seconds : (Bytes → Option (D × Bytes)) → Option Bytes → ℕ
  unfolding seconds_of read_first_line
  get_uptime_seconds read_double file =
      let line = read_first_line file in if null line then 0 else seconds_of (read_double line)

  unfoldable pub get_agent_info :
      (Bytes → Option (D × Bytes))
      → Result Bytes Bytes
      → Option Bytes
      → Option Bytes
      → GetAgentInfoResponse
  unfolding get_hostname get_kernel_version get_uptime_seconds
  get_agent_info read_double hostname osrelease uptime = record {
    hostname = get_hostname hostname;
    kernel_version = get_kernel_version osrelease;
    uptime_seconds = get_uptime_seconds read_double uptime;
    agent_version = codes "1.0.0";
  }

module _ {D : Type 0} where
  unfoldable pub fill_system_metrics_response : SystemMetrics D → GetSystemMetricsResponse D
  fill_system_metrics_response metrics = record {
    cpu_usage_percent = metrics.cpu_usage_percent;
    memory_total_bytes = metrics.memory_total_bytes;
    memory_available_bytes = metrics.memory_available_bytes;
    memory_used_bytes = metrics.memory_used_bytes;
    load_average_1m = metrics.load_average_1m;
    load_average_5m = metrics.load_average_5m;
    load_average_15m = metrics.load_average_15m;
    uptime_seconds = metrics.uptime_seconds;
  }

  -- `GetSystemMetrics`, over what `GetLatest` gives.
  unfoldable pub get_system_metrics :
      Collected (SystemMetrics D) → Answer (GetSystemMetricsResponse D)
  unfolding fill_system_metrics_response
  get_system_metrics (failed text) = err (record { code = internal; message = text })
  get_system_metrics (collected metrics) = ok (fill_system_metrics_response metrics)

  unfoldable pub fill_process_info : ProcessInfo D → ProcessMessage D
  fill_process_info process = record {
    pid = pos process.pid;
    ppid = pos process.ppid;
    name = process.name;
    state = process.state;
    command_line = process.command_line;
    cpu_usage_percent = process.cpu_usage_percent;
    resident_memory_bytes = process.resident_memory_bytes;
    virtual_memory_bytes = process.virtual_memory_bytes;
    thread_count = process.thread_count;
    read_bytes = process.read_bytes;
    write_bytes = process.write_bytes;
    start_time_ticks = process.start_time_ticks;
  }

  unfoldable pub list_processes_call :
      Floats D → System D → Result Bytes (List Bytes) → Answer (List (ProcessMessage D))
  unfolding internal_unless fill_process_info
  list_processes_call floats system entries =
      internal_unless (map fill_process_info) (list_processes floats system entries)

unfoldable pub process_collector_status : ProcessCollectorError → Bytes → Status
process_collector_status ProcessCollectorError.invalid_argument text = record {
  code = invalid_argument;
  message = text;
}
process_collector_status ProcessCollectorError.not_found text = record {
  code = not_found;
  message = text;
}
process_collector_status ProcessCollectorError.permission_denied text = record {
  code = permission_denied;
  message = text;
}
process_collector_status ProcessCollectorError.parse_error text = record {
  code = internal;
  message = text;
}
process_collector_status ProcessCollectorError.io_error text = record {
  code = internal;
  message = text;
}

unfoldable pub process_details :
    {D : Type 0} → Result Error (ProcessInfo D) → Answer (ProcessMessage D)
unfolding fill_process_info process_collector_status
process_details (ok process) = ok (fill_process_info process)
process_details (err (error code text)) = err (process_collector_status code text)

unfoldable pub get_process_details :
    {D : Type 0} → Floats D → System D → ℤ → Answer (ProcessMessage D)
unfolding process_details
get_process_details floats system pid = process_details (get_process floats system pid)

unfoldable pub fill_interface : NetworkInterfaceInfo → NetworkInterface
fill_interface interface = record {
  name = interface.name;
  ipv4_addresses = interface.ipv4_addresses;
  ipv6_addresses = interface.ipv6_addresses;
  rx_bytes = interface.rx_bytes;
  tx_bytes = interface.tx_bytes;
  state = interface.state;
}

-- `GetNetworkInterfaces`, over what `GetInterfaces` gives.
unfoldable pub get_network_interfaces :
    Result Bytes (List NetworkInterfaceInfo) → Answer (List NetworkInterface)
unfolding internal_unless fill_interface
get_network_interfaces interfaces = internal_unless (map fill_interface) interfaces

unfoldable pub fill_connection : TcpConnectionInfo → TcpConnection
fill_connection connection = record {
  protocol = connection.protocol;
  local_address = connection.local_address;
  local_port = connection.local_port;
  remote_address = connection.remote_address;
  remote_port = connection.remote_port;
  state = connection.state;
  inode = connection.inode;
  pid = connection.pid;
}

unfoldable pub list_tcp_connections_call :
    Result Bytes (List TcpConnectionInfo) → Answer (List TcpConnection)
unfolding internal_unless fill_connection
list_tcp_connections_call connections = internal_unless (map fill_connection) connections

unfoldable pub fill_log : LogSourceInfo → LogSource
fill_log log = record { id = log.id; display_name = log.display_name; available = log.available }

unfoldable pub list_logs_call : (Bytes → Bool) → List AllowedLog → Answer (List LogSource)
unfolding fill_log
list_logs_call is_regular_file logs = ok (map fill_log (list_logs is_regular_file logs))

unfoldable pub fill_service : ServiceInfo → ServiceMessage
fill_service service = record {
  name = service.name;
  description = service.description;
  load_state = service.load_state;
  active_state = service.active_state;
  sub_state = service.sub_state;
}

unfoldable pub services_answer : Listed → Option Bytes → Answer (List ServiceMessage)
unfolding fill_service
services_answer listed none = ok (map fill_service listed.services)
services_answer listed (some text) = err (record { code = internal; message = text })

unfoldable pub list_services_call : Runner → List Bytes → Answer (List ServiceMessage)
unfolding services_answer
list_services_call run names =
    let listed = list_services run names in services_answer listed listed.error
