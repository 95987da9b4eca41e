-- ===== src/Bundles/Report.antt =====
-- The files of a bundle, as `CreateBundle` writes them into the staging directory.
use edge_scpoe.Base.{ℕ, Bool, List, [], ◌∷◌, ◌++◌, Option, none, some, if◌then◌else◌, map}
use edge_scpoe.Base.System.{Opened}
use edge_scpoe.Base.Results.{Result, ok, err, ◌>>=◌}
use edge_scpoe.Text.{Bytes, codes}
use edge_scpoe.Text.Decimal.{to_string}
use edge_scpoe.Logs
use edge_scpoe.Logs.{AllowedLog, LogSourceInfo, LogReadResult, list_logs, read_log}
use edge_scpoe.Metrics.{SystemMetrics}
use edge_scpoe.Network.Interfaces.{NetworkInterfaceInfo}
use edge_scpoe.Network.Tcp.{TcpConnectionInfo}
use edge_scpoe.ProcessList.{ProcessInfo}

abbrev pub recent_log_lines : ℕ
recent_log_lines = 200

-- A file below the staging directory: its path there, and its contents.
abbrev pub File : Type 0
File = Bytes × Bytes

-- What has been done so far: the files, and the text of the failures that the bundle lists.
pub record Progress : Type 0 where
  pub files : List File
  pub failures : Bytes

-- `Hostname`; `none` is a failure of `gethostname`.
unfoldable pub hostname_of : Option Bytes → Bytes
hostname_of none = codes "unknown"
hostname_of (some name) = name

-- `Join`.
unfoldable pub join : List Bytes → Bytes
join [] = []
join (v ∷ []) = v
join (v ∷ w ∷ rest) = v ++ b',' ∷ join (w ∷ rest)

unfoldable pub joined : List Bytes → Bytes
joined [] = []
joined (v ∷ rest) = v ++ joined rest

-- `WriteTextFile`; `writes` tells the paths below the staging directory that can be written.
unfoldable pub write_text_file :
    (Bytes → Bool) → Bytes → Bytes → Bytes → Progress → Result Bytes Progress
write_text_file writes directory filename contents progress =
    if writes (directory ++ filename)
    then ok (record progress { files = progress.files ++ (directory ++ filename, contents) ∷ [] })
    else err (codes "failed to write diagnostic file: " ++ filename)

-- What the streams write for a `double`: by default, and with two fixed digits.
pub record FloatText (D : Type 0) : Type 0 where
  pub plain : D → Bytes
  pub fixed : D → Bytes

module _ {D : Type 0} (show : FloatText D) where
  unfoldable pub system_text : Option Bytes → Bytes → SystemMetrics D → Bytes
  unfolding hostname_of
  system_text hostname release metrics =
      codes "hostname: "
      ++ hostname_of hostname
      ++ codes "\nkernel: "
      ++ release
      ++ codes "\ncpu_usage_percent: "
      ++ show.fixed metrics.cpu_usage_percent
      ++ codes "\nmemory_total_bytes: "
      ++ to_string metrics.memory_total_bytes
      ++ codes "\nmemory_available_bytes: "
      ++ to_string metrics.memory_available_bytes
      ++ codes "\nmemory_used_bytes: "
      ++ to_string metrics.memory_used_bytes
      ++ codes "\nload_average: "
      ++ show.fixed metrics.load_average_1m
      ++ b' ' ∷ show.fixed metrics.load_average_5m
      ++ b' ' ∷ show.fixed metrics.load_average_15m
      ++ codes "\nuptime_seconds: "
      ++ to_string metrics.uptime_seconds
      ++ codes "\n"

  unfoldable pub process_line : ProcessInfo D → Bytes
  process_line process =
      to_string process.pid
      ++ b'\t' ∷ to_string process.ppid
      ++ b'\t' ∷ process.state
      ++ b'\t' ∷ show.plain process.cpu_usage_percent
      ++ b'\t' ∷ to_string process.resident_memory_bytes
      ++ b'\t' ∷ to_string process.thread_count
      ++ b'\t' ∷ process.name
      ++ b'\t' ∷ process.command_line
      ++ b'\n' ∷ []

unfoldable pub interface_line : NetworkInterfaceInfo → Bytes
unfolding join
interface_line interface =
    interface.name
    ++ b'\t' ∷ interface.state
    ++ b'\t' ∷ join interface.ipv4_addresses
    ++ b'\t' ∷ join interface.ipv6_addresses
    ++ b'\t' ∷ to_string interface.rx_bytes
    ++ b'\t' ∷ to_string interface.tx_bytes
    ++ b'\n' ∷ []

unfoldable pub connection_line : TcpConnectionInfo → Bytes
connection_line connection =
    connection.protocol
    ++ b'\t' ∷ connection.local_address
    ++ b':' ∷ to_string connection.local_port
    ++ b'\t' ∷ connection.remote_address
    ++ b':' ∷ to_string connection.remote_port
    ++ b'\t' ∷ connection.state
    ++ b'\t' ∷ to_string connection.pid
    ++ b'\n' ∷ []

-- A collector that fails is a line of the failures, and its part is empty.
unfoldable pub failing : Bytes → Bytes → Progress → Progress
failing part message progress = record progress {
  failures = progress.failures ++ part ++ codes ": " ++ message ++ b'\n' ∷ [];
}

module _ {A : Type 0} (part heading : Bytes) (line : A → Bytes) where
  -- The text of a part of the network file, and the failures.
  unfoldable pub section : Result Bytes (List A) → Bytes × Progress → Bytes × Progress
  unfolding joined failing
  section (ok items) (text, progress) = (text ++ heading ++ joined (map line items), progress)
  section (err message) (text, progress) = (text, failing part message progress)

-- What a call finds: the collectors' answers, the files that can be written, and the logs.
pub record Findings (D : Type 0) : Type 0 where
  pub hostname : Option Bytes
  pub release : Bytes
  pub processes : Result Bytes (List (ProcessInfo D))
  pub interfaces : Result Bytes (List NetworkInterfaceInfo)
  pub connections : Result Bytes (List TcpConnectionInfo)
  pub logs : List AllowedLog
  pub is_regular_file : Bytes → Bool
  pub file_system : Bytes → Opened
  pub writes : Bytes → Bool
  pub logs_directory_made : Bool

module _ {D : Type 0} (show : FloatText D) (found : Findings D) where
  unfoldable pub write_processes :
      Result Bytes (List (ProcessInfo D)) → Progress → Result Bytes Progress
  unfolding write_text_file process_line joined failing
  write_processes (err message) progress = ok (failing (codes "processes") message progress)
  write_processes (ok processes) progress =
      write_text_file found.writes [] (codes "processes.txt")
        (codes "PID\tPPID\tSTATE\tCPU%\tRSS_BYTES\tTHREADS\tNAME\tCOMMAND\n"
          ++ joined (map (process_line show) processes))
        progress

  unfoldable pub write_network : Progress → Result Bytes Progress
  unfolding section interface_line connection_line write_text_file
  write_network progress =
      let first =
        section (codes "interfaces") (codes "INTERFACES\n") interface_line found.interfaces
          ([], progress) in
      let both =
        section (codes "tcp_connections") (codes "\nTCP_CONNECTIONS\n") connection_line
          found.connections first in
      write_text_file found.writes [] (codes "network.txt") both.0 both.1

  unfoldable pub write_log :
      LogSourceInfo → Logs.Result LogReadResult → Progress → Result Bytes Progress
  unfolding write_text_file joined failing
  write_log source (Logs.err e message) progress =
      ok (failing (codes "log " ++ source.id) message progress)
  write_log source (Logs.ok result) progress =
      write_text_file found.writes (codes "recent_logs/") (source.id ++ codes ".log")
        (joined (map (λ line. line ++ b'\n' ∷ []) result.lines)) progress

  unfoldable pub write_source : LogSourceInfo → Progress → Result Bytes Progress
  unfolding write_log
  write_source source progress =
      if source.available
      then write_log source (read_log found.file_system found.logs source.id recent_log_lines [])
          progress
      else ok progress

  unfoldable pub write_logs : List LogSourceInfo → Progress → Result Bytes Progress
  unfolding write_source
  write_logs [] progress = ok progress
  write_logs (source ∷ rest) progress = write_source source progress >>= write_logs rest

  unfoldable pub make_logs_directory : Progress → Result Bytes Progress
  make_logs_directory progress =
      if found.logs_directory_made
      then ok progress
      else err (codes "failed to create recent_logs directory")

  unfoldable pub write_errors : Progress → Result Bytes Progress
  unfolding write_text_file
  write_errors progress =
      write_text_file found.writes [] (codes "collection_errors.txt") progress.failures progress

  -- The part of `CreateBundle` from the system's text to the text of the failures.
  unfoldable pub collect : SystemMetrics D → Result Bytes Progress
  unfolding write_text_file system_text write_processes write_network make_logs_directory write_logs
      write_errors
  collect metrics =
      write_text_file found.writes [] (codes "system_info.txt")
        (system_text show found.hostname found.release metrics)
        (record { files = []; failures = [] })
      >>= write_text_file found.writes [] (codes "agent_version.txt") (codes "1.0.0\n")
      >>= write_processes found.processes
      >>= write_network
      >>= make_logs_directory
      >>= write_logs (list_logs found.is_regular_file found.logs)
      >>= write_errors
