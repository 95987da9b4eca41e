-- ===== src/Window/Views.antt =====
-- What the window's slots for results write into its tabs.
use edge_scpoe.Base.{
  ℕ, ◌*◌, ◌/◌, ◌%◌, ◌^◌, Bool, List, [], ◌∷◌, ◌++◌, ◌==◌, if◌then◌else◌, map, length,
}
use edge_scpoe.Text.{Bytes, codes}
use edge_scpoe.Text.Decimal.{to_string, int_to_string}
use edge_scpoe.Client.{
  AgentInfoData, SystemMetricsData, ProcessData, NetworkInterfaceData, TcpConnectionData,
  LogSourceData, ServiceData,
}
use edge_scpoe.Window.{Qt, MainWindow, Overview, Handled, show_message, set_log_output}

-- `QStringList::join` of lines.
unfoldable pub join_lines : List Bytes → Bytes
join_lines [] = []
join_lines (l ∷ []) = l
join_lines (l ∷ m ∷ rest) = l ++ b'\n' ∷ join_lines (m ∷ rest)

-- The percentage of `UpdateDiagnosticProgress`, in 64 bits, and cut to the 32 bits of an `int`.
unfoldable pub percent_of : ℕ → ℕ → ℕ
percent_of received total = if total == 0 then 0 else (received * 100) % 2 ^ 64 / total % 2 ^ 32

unfoldable pub service_row : ServiceData → List Bytes
service_row s = s.name ∷ s.description ∷ s.load_state ∷ s.active_state ∷ s.sub_state ∷ []

unfoldable pub pid_text : ℕ → Bytes
pid_text pid = if pid == 0 then codes "-" else to_string pid

unfoldable pub connection_row : TcpConnectionData → List Bytes
unfolding pid_text
connection_row c =
    c.protocol
    ∷ c.local_endpoint
    ∷ c.remote_endpoint
    ∷ c.state
    ∷ pid_text c.pid
    ∷ to_string c.inode
    ∷ []

unfoldable pub log_entry : LogSourceData → Bytes × Bytes
log_entry log = (log.display_name ++ (if log.available then [] else codes " (unavailable)"), log.id)

module _ {D : Type 0} (q : Qt D) where
  -- `QString::arg` of a number, and of several texts one after the other.
  abbrev pub arg_number : Bytes → ℕ → Bytes
  arg_number template n = q.arg template (to_string n)

  unfoldable pub args : Bytes → List Bytes → Bytes
  args template [] = template
  args template (value ∷ rest) = args (q.arg template value) rest

  -- `FormatBytes`.
  unfoldable pub format_bytes : ℕ → Bytes
  format_bytes bytes =
      let f = q.floats in
      let k = f.of_nat 1024 in
      let gibibyte = f.times (f.times k k) k in
      let mebibyte = f.times k k in
      let b = f.of_nat bytes in
      if f.at_most gibibyte b
      then q.number (f.over b gibibyte) 1 ++ codes " GiB"
      else q.number (f.over b mebibyte) 1 ++ codes " MiB"

  -- The labels of `HandleConnected`.
  unfoldable pub show_agent : AgentInfoData → Overview → Overview
  show_agent info o = record o {
    hostname_value = info.hostname;
    kernel_value = info.kernel_version;
    agent_version_value = info.agent_version;
    uptime_value = to_string info.uptime_seconds ++ codes " s";
  }

  -- `UpdateMetrics`.
  unfoldable pub show_metrics : SystemMetricsData D → Overview → Overview
  unfolding format_bytes args
  show_metrics m o =
      let loads =
        q.number m.load_average_1m 2
        ∷ q.number m.load_average_5m 2
        ∷ q.number m.load_average_15m 2
        ∷ [] in
      record o {
        cpu_value = q.number m.cpu_usage_percent 1 ++ codes "%";
        memory_value =
            format_bytes m.memory_used_bytes ++ codes " / " ++ format_bytes m.memory_total_bytes;
        available_memory_value = format_bytes m.memory_available_bytes;
        load_value = args (codes "%1 / %2 / %3") loads;
        uptime_value = to_string m.uptime_seconds ++ codes " s";
      }

  unfoldable pub update_metrics : SystemMetricsData D → MainWindow D → Handled D
  unfolding show_metrics
  update_metrics m w = (record w { overview = show_metrics m w.overview }, [])

  -- `UpdateProcesses`.
  unfoldable pub update_processes : List (ProcessData D) → MainWindow D → Handled D
  update_processes processes w = (
    record w { process_model = processes },
    show_message (arg_number (codes "Loaded %1 processes") (length processes)) ∷ [],
  )

  -- The text of `UpdateProcessDetails`.
  unfoldable pub details_text : ProcessData D → Bytes
  unfolding format_bytes args
  details_text p =
      args
        (codes
          "PID: %1\nPPID: %2\nName: %3\nState: %4\nCommand: %5\nCPU: %6%\nRSS: %7\nVmSize: %8\nThreads: %9\nRead bytes: %10\nWrite bytes: %11\nStart ticks: %12")
        (int_to_string p.pid
          ∷ int_to_string p.ppid
          ∷ p.name
          ∷ p.state
          ∷ p.command_line
          ∷ q.number p.cpu_usage_percent 1
          ∷ format_bytes p.resident_memory_bytes
          ∷ format_bytes p.virtual_memory_bytes
          ∷ to_string p.thread_count
          ∷ to_string p.read_bytes
          ∷ to_string p.write_bytes
          ∷ to_string p.start_time_ticks
          ∷ [])

  unfoldable pub update_process_details : ProcessData D → MainWindow D → Handled D
  unfolding details_text
  update_process_details p w = (record w { process_details = details_text p }, [])

  unfoldable pub interface_row : NetworkInterfaceData → List Bytes
  unfolding format_bytes
  interface_row i =
      i.name
      ∷ i.ipv4_addresses
      ∷ i.ipv6_addresses
      ∷ i.state
      ∷ format_bytes i.rx_bytes
      ∷ format_bytes i.tx_bytes
      ∷ []

  -- `UpdateNetwork`.
  unfoldable pub update_network :
      List NetworkInterfaceData → List TcpConnectionData → MainWindow D → Handled D
  unfolding interface_row connection_row
  update_network interfaces connections w =
      let message = codes "Loaded %1 interfaces and %2 TCP connections" in
      (
        record w {
          interface_table = map interface_row interfaces;
          connection_table = map connection_row connections;
        },
        show_message (arg_number (arg_number message (length interfaces)) (length connections))
            ∷ [],
      )

  -- `UpdateLogs`.
  unfoldable pub update_logs : List LogSourceData → MainWindow D → Handled D
  unfolding log_entry
  update_logs logs w = (record w { log_source_combo = map log_entry logs }, [])

  -- `UpdateLogContent`.
  unfoldable pub update_log_content : List Bytes → Bool → MainWindow D → Handled D
  unfolding join_lines
  update_log_content lines truncated w =
      let end = if truncated then codes " (result truncated)" else [] in
      (
        w,
        set_log_output (join_lines lines)
            ∷ show_message (q.arg (arg_number (codes "Loaded %1 log lines%2") (length lines)) end)
            ∷ [],
      )

  -- `UpdateServices`.
  unfoldable pub update_services : List ServiceData → MainWindow D → Handled D
  unfolding service_row
  update_services services w = (
    record w { service_table = map service_row services },
    show_message (arg_number (codes "Loaded %1 allowed services") (length services)) ∷ [],
  )

  -- `UpdateDiagnosticProgress`.
  unfoldable pub update_diagnostic_progress : ℕ → ℕ → MainWindow D → Handled D
  unfolding percent_of format_bytes
  update_diagnostic_progress received total w = (
    record w {
      diagnostic_progress = percent_of received total;
      diagnostic_status =
          q.arg_two (codes "Downloading: %1 / %2") (format_bytes received) (format_bytes total);
    },
    [],
  )
