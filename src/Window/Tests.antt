-- ===== src/Window/Tests.antt =====
-- Runs of the window, alone and with its worker.
use edge_scpoe.Base.{
  arith, take_last, map, ℕ, ◌-◌, ◌*◌, ◌/◌, true, List, [], ◌∷◌, ◌++◌, none, some, ◌≡◌, refl, All,
  leb, ltb,
}
use edge_scpoe.Base.Int.{pos}
use edge_scpoe.Base.Floats.{Floats}
use edge_scpoe.Base.Results.{ok}
use edge_scpoe.Text.{Bytes, codes, lines}
use edge_scpoe.Logs.Select.{kept}
use edge_scpoe.Text.Decimal.{to_string}
use edge_scpoe.Rpc.Messages.{GetAgentInfoResponse}
use edge_scpoe.Client.{AgentInfoData, ProcessData}
use edge_scpoe.Worker.{idle, connected, processes_ready}
use edge_scpoe.Worker.Slots
use edge_scpoe.Worker.Slots.{LogEnd}
use edge_scpoe.Worker.Simulates.{is_open}
use edge_scpoe.Worker.Actions
use edge_scpoe.Base.System.{opened}
use edge_scpoe.Logs.{cleaned, AllowedLog, allowed_logs, find_allowed_log}
use edge_scpoe.Logs.Scan.{steady}
use edge_scpoe.Window.LogTab.{IsShown, request_log, request_log-IsShown}
use edge_scpoe.Window.{Qt, MainWindow, Dialog, confirm_process, request_process_control}
use edge_scpoe.Window.Buttons.{terminate_button}
use edge_scpoe.Window.Actions.{
  Event, user, signal, connect_click, log_stream_start_click, disconnect_click, process_click,
  close_dialog, window_after, main_window, react,
}
use edge_scpoe.Window.Consistency.{IsConsistent}
use edge_scpoe.Window.Runs.{window_after-IsConsistent}
use edge_scpoe.Window.Requests.{IsAskedFor}
use edge_scpoe.Window.Asking.{react-IsAskedFor}
use edge_scpoe.Window.System.{Reachable, starts, clicks, handles, works}
use edge_scpoe.Window.Held.{linked-is_open}

abbrev whole_numbers : Floats ℕ
whole_numbers = record {
  of_nat = λ n. n;
  minus = λ a b. a - b;
  times = λ a b. a * b;
  over = λ a b. a / b;
  at_most = leb;
  below = ltb;
  is_finite = λ a. true;
  to_u64 = λ a. a;
}

abbrev plain : Qt ℕ
plain = record {
  floats = whole_numbers;
  number = λ d places. to_string d;
  arg = λ template value. template ++ value;
  arg_two = λ template first second. template ++ first ++ second;
  trimmed = λ bytes. bytes;
}

abbrev edge_info : AgentInfoData
edge_info = record {
  hostname = codes "edge";
  kernel_version = codes "6.1";
  agent_version = codes "0.3.0";
  uptime_seconds = 60;
}

abbrev editor : ProcessData ℕ
editor = record {
  pid = pos 7;
  ppid = pos 1;
  name = codes "vi";
  state = codes "S";
  command_line = codes "vi a";
  cpu_usage_percent = 3;
  resident_memory_bytes = 4096;
  virtual_memory_bytes = 8192;
  thread_count = 1;
  read_bytes = 0;
  write_bytes = 0;
  start_time_ticks = 5;
}

abbrev morning : List (Event ℕ)
morning =
    user (connect_click (codes "edge") 50051)
    ∷ signal (connected edge_info)
    ∷ signal (processes_ready (editor ∷ []))
    ∷ user (process_click terminate_button (some (pos 0)))
    ∷ []

window_after-IsConsistent_example : IsConsistent (window_after plain morning main_window).controls
window_after-IsConsistent_example = window_after-IsConsistent plain morning

abbrev yes : Event ℕ
yes = user (close_dialog (record { yes_button = true; path = [] }))

react-IsAskedFor_example :
    All
      (IsAskedFor yes (window_after plain morning main_window))
      (request_process_control (pos 7) 1 ∷ [])
unfolding react window_after edge_scpoe.Window.Buttons.closed
    edge_scpoe.Window.Buttons.confirm_process_control edge_scpoe.Window.Handlers.handle
react-IsAskedFor_example = react-IsAskedFor plain morning yes

abbrev no_log : LogEnd
no_log = record { lines = []; status = none }

abbrev edge_agent : GetAgentInfoResponse
edge_agent = record {
  agent_version = codes "0.3.0";
  hostname = codes "edge";
  kernel_version = codes "6.1";
  uptime_seconds = 60;
}

linked-is_open_example : is_open (some (codes "edge:50051")) ≡ true
unfolding Actions.perform Slots.connect_to_agent edge_scpoe.Window.System.linked_after
    edge_scpoe.Window.System.linked edge_scpoe.Window.Handlers.handle
    edge_scpoe.Window.Actions.click main_window edge_scpoe.Window.Buttons.connect_to_agent
linked-is_open_example =
    linked-is_open {q = plain} {from_std_string = λ bytes. bytes}
      (handles (
        works (Actions.connect_to_agent (codes "edge") 50051 no_log (ok edge_agent))
          (clicks (connect_click (codes "edge") 50051) starts)))
      refl

abbrev log_text : Bytes
log_text = codes "a\r\nb"

abbrev edge_logs : List AllowedLog
edge_logs = allowed_logs (codes "/tmp/agent.log")

packages_found :
    find_allowed_log (codes "packages") edge_logs
    ≡ some (record {
      id = codes "packages";
      display_name = codes "Package manager log";
      path = codes "/var/log/dpkg.log";
    })
unfolding find_allowed_log edge_scpoe.Text.equal
packages_found = refl

request_log-IsShown_example : IsShown (take_last 9 (map cleaned (kept [] (lines log_text)))) (
    (request_log plain
      (λ bytes. bytes)
      (λ path. opened (steady log_text))
      edge_logs
      (codes "packages")
      9
      []
      (record { client = some (codes "edge:50051"); stream = idle })
      main_window).1)
request_log-IsShown_example =
    request_log-IsShown plain (λ bytes. bytes) (λ path. opened (steady log_text)) edge_logs
      (codes "packages") _ 9 [] log_text (codes "edge:50051") idle main_window (λ t h. refl)
      packages_found refl (omega arith) (omega arith) (omega arith) (omega arith)
      (omega arith, (omega arith, (omega arith, (omega arith, tt))))
