-- ===== src/Lib.antt =====
-- EdgeScope: a monitoring agent and its clients.
--
-- The agent (agent/) is a gRPC server that samples system metrics, lists and controls processes and
-- systemd services, reads and follows logs, and packs diagnostic bundles. The clients (client/) call
-- it: a command line and a Qt window with a worker thread. Messages are those of
-- proto/edgescope.proto. This library models the agent's own logic, and of the clients the worker, the
-- window and the control of a process by the command line, each function from its C++ source:
--
--   Base       names of the libraries, lists measured by native numbers, `errno`, opened files
--   Text       `std::string` as a list of bytes: comparing, finding, trimming, `getline`, and the
--              number parsers `std::stoul`, `std::stoll` and `operator>>`
--   Utf8       `LogCollector::SanitizeUtf8` (agent/src/LogCollector.cpp)
--   Config     agent/src/AgentConfig.cpp: `load` is `AgentConfigLoader::Load`
--   Logs       agent/src/LogCollector.cpp: `list_logs`, `read_log` and `resolve_log_path`
--   Follow     `StreamLog` (agent/src/EdgeScopeServiceImpl.cpp): `stream_log` over the rounds of its
--              loop, on top of `Logs` and `Utf8`
--   Services   agent/src/ServiceManager.cpp: `list_services` and `control_service`
--   Processes  agent/src/ProcessController.cpp: `control`
--   Rpc        the handlers `ControlProcess`, `ControlService` and `ReadLog` and the tables from
--              error codes to statuses (agent/src/EdgeScopeServiceImpl.cpp), on top of the three;
--              Rpc.Messages has the messages of the proto, and Rpc.Listings the handlers that answer
--              with metrics, details or a list, over the collectors
--   Sampler    agent/src/MetricsSampler.cpp, and in Sampler.Stream the handler
--              `StreamSystemMetrics`
--   Metrics    agent/src/SystemCollector.cpp: Metrics.Collect has `collect`, on top of Memory and Cpu;
--              Metrics.Sampled puts the sampler over it
--   ProcessList agent/src/ProcessCollector.cpp: ProcessList.Collect has `get_process` and
--              `list_processes`, over the parsers in Stat and Status
--   Network    agent/src/NetworkCollector.cpp: the parsers of addresses, Network.Tcp with
--              `list_tcp_connections`, and Network.Interfaces with `get_interfaces`
--   Bundles    agent/src/DiagnosticCollector.cpp: the store of bundles, the files of a bundle in
--              Bundles.Report, and `create_bundle` in Bundles.Create
--   Transfer   Transfer.Server is the sending loop of `DownloadDiagnosticBundle`
--              (agent/src/EdgeScopeServiceImpl.cpp), Transfer.Client the receiving side in
--              client/src/RpcWorker.cpp and client/src/EdgeScopeClient.cpp
--   Diagnostics the handlers `CreateDiagnosticBundle` and `DownloadDiagnosticBundle`, which join
--              Bundles, Transfer and the sampler's metrics
--   Client     client/include/ClientModels.h, what the worker hands to the window
--   Worker     client/src/RpcWorker.cpp: Worker.Convert fills those models from the messages,
--              Worker.Slots and Worker.Download have each slot as a function from the worker to the
--              worker behind it and the signals that it emits, Worker.Actions the runs of
--              slots and of the thread that follows a log; Worker.Session is the automaton that the
--              worker implements
--   Window     client/src/MainWindow.cpp: Window.Handlers has the slots for signals, Window.Buttons those
--              for the user, Window.Views what goes into the tabs, Window.Table the model of
--              client/src/ProcessTableModel.cpp, and Window.System the window, its worker and the signals
--              that are queued between their threads
--   CommandLine the branch of client/src/main.cpp that controls a process, with the agent behind it
--
-- Bytes are natural numbers; a 64-bit counter wraps around where the source's does. An operation that
-- fails returns an error with the code and the text of the source. What the operating system, the
-- runner of `systemctl` and gRPC answer is a parameter: a function, or for a loop the list of what
-- its rounds meet. Calls with an effect (signals, commands) are returned as a list. Guards against
-- null pointers have no counterpart. A mutex makes a critical section one step. A `double` is of a type
-- with operations that are parameters (Base.Floats), and so is what a stream writes for it.
--
-- Fuel: the scan of `read_log` has 128 rounds, which is 8 MiB in blocks of 64 KiB, the bound that the
-- source sets; each round of `sanitize_utf8`, of the sending loop and of the inner loop of
-- `stream_log` consumes a byte at least, and their fuel is the length of the text, one more for the
-- sending loop. The words of a line and the fields of /proc/[pid]/io have the length of their text as
-- fuel, since each takes a byte, and a number has at most as many digits as it is large, and one.
--
-- Not modelled: fork, exec and pipes (`PosixServiceCommandRunner`, and of `CreateTarGzip` all but its
-- errors), the thread of the sampler, pauses and deadlines, the logger, the layout of the client's
-- window (`BuildUi`), and the rest of its command line, which prints what the calls return. The calls
-- of client/src/EdgeScopeClient.cpp are gRPC's. A box of the window that waits for the user is a step
-- of its own, since it runs the event loop. What a staging directory holds after a failed removal
-- is not told. A write to the client's local file is taken by the stream or not; how much of what it
-- took is in the file once it is closed is a parameter.
pub mod Base
pub mod Text
pub mod Utf8
pub mod Config
pub mod Logs
pub mod Transfer
pub mod Services
pub mod ProcessList
pub mod Processes
pub mod Rpc
pub mod Sampler
pub mod Follow
pub mod Network
pub mod Metrics
pub mod Bundles
pub mod Diagnostics
pub mod CommandLine
pub mod Client
pub mod Worker
pub mod Window
