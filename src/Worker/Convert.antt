-- ===== src/Worker/Convert.antt =====
-- From messages to the client's models: `ConvertProcess`, and the loops of the slots.
use edge_scpoe.Base.{ℕ, List, [], ◌∷◌, ◌++◌, map}
use edge_scpoe.Text.{Bytes, codes}
use edge_scpoe.Text.Decimal.{to_string}
use edge_scpoe.Client.{
  AgentInfoData, SystemMetricsData, ProcessData, NetworkInterfaceData, TcpConnectionData,
  LogSourceData, ServiceData,
}
use edge_scpoe.Rpc.Messages.{
  GetAgentInfoResponse, GetSystemMetricsResponse, ProcessMessage, NetworkInterface, TcpConnection,
  LogSource, ServiceMessage,
}

-- `QStringList::join(", ")`.
unfoldable pub join_list : List Bytes → Bytes
join_list [] = []
join_list (v ∷ []) = v
join_list (v ∷ w ∷ rest) = v ++ (codes ", " ++ join_list (w ∷ rest))

unfoldable pub convert_metrics : {D : Type 0} → GetSystemMetricsResponse D → SystemMetricsData D
convert_metrics response = record {
  cpu_usage_percent = response.cpu_usage_percent;
  memory_total_bytes = response.memory_total_bytes;
  memory_available_bytes = response.memory_available_bytes;
  memory_used_bytes = response.memory_used_bytes;
  load_average_1m = response.load_average_1m;
  load_average_5m = response.load_average_5m;
  load_average_15m = response.load_average_15m;
  uptime_seconds = response.uptime_seconds;
}

-- `from_std_string` is `QString::fromStdString`: the text that it gives, in UTF-8.
module _ (from_std_string : Bytes → Bytes) where
  unfoldable pub convert_agent_info : GetAgentInfoResponse → AgentInfoData
  convert_agent_info response = record {
    hostname = from_std_string response.hostname;
    kernel_version = from_std_string response.kernel_version;
    uptime_seconds = response.uptime_seconds;
    agent_version = from_std_string response.agent_version;
  }

  -- `ConvertProcess`.
  unfoldable pub convert_process : {D : Type 0} → ProcessMessage D → ProcessData D
  convert_process process = record {
    pid = process.pid;
    ppid = process.ppid;
    name = from_std_string process.name;
    state = from_std_string process.state;
    command_line = from_std_string process.command_line;
    cpu_usage_percent = process.cpu_usage_percent;
    resident_memory_bytes = process.resident_memory_bytes;
    virtual_memory_bytes = process.virtual_memory_bytes;
    thread_count = process.thread_count;
    read_bytes = process.read_bytes;
    write_bytes = process.write_bytes;
    start_time_ticks = process.start_time_ticks;
  }

  unfoldable pub convert_interface : NetworkInterface → NetworkInterfaceData
  unfolding join_list
  convert_interface interface = record {
    name = from_std_string interface.name;
    ipv4_addresses = join_list (map from_std_string interface.ipv4_addresses);
    ipv6_addresses = join_list (map from_std_string interface.ipv6_addresses);
    rx_bytes = interface.rx_bytes;
    tx_bytes = interface.tx_bytes;
    state = from_std_string interface.state;
  }

  -- `QString("%1:%2")` with both arguments, of which an address of the agent has no `%`.
  unfoldable pub endpoint_text : Bytes → ℕ → Bytes
  endpoint_text address port = from_std_string address ++ (b':' ∷ to_string port)

  unfoldable pub convert_connection : TcpConnection → TcpConnectionData
  unfolding endpoint_text
  convert_connection connection = record {
    protocol = from_std_string connection.protocol;
    local_endpoint = endpoint_text connection.local_address connection.local_port;
    remote_endpoint = endpoint_text connection.remote_address connection.remote_port;
    state = from_std_string connection.state;
    inode = connection.inode;
    pid = connection.pid;
  }

  unfoldable pub convert_log : LogSource → LogSourceData
  convert_log log = record {
    id = from_std_string log.id;
    display_name = from_std_string log.display_name;
    available = log.available;
  }

  unfoldable pub convert_service : ServiceMessage → ServiceData
  convert_service service = record {
    name = from_std_string service.name;
    description = from_std_string service.description;
    load_state = from_std_string service.load_state;
    active_state = from_std_string service.active_state;
    sub_state = from_std_string service.sub_state;
  }
