-- ===== src/Window/LogTab.antt =====
-- A log from the agent's file to the window: the handler `ReadLog`, the slot of the worker, and the slots
-- of the window for what the worker emits.
use edge_scpoe.Base.{
  ℕ, ◌≤◌, ◌<◌, ◌≡◌, refl, sym, ap, ◌∙◌, subst, List, [], ◌∷◌, ◌++◌, All, map, some, length,
  take_last,
}
use edge_scpoe.Base.Results.{ok, err}
use edge_scpoe.Base.System.{Opened, opened}
use edge_scpoe.Text.{Bytes, lines}
use edge_scpoe.Utf8.Encoding.{IsUtf8, IsByte}
use edge_scpoe.Logs.{
  AllowedLog, cleaned, find_allowed_log, max_lines_limit, max_keyword_length, max_scan_bytes,
}
use edge_scpoe.Logs.Select.{kept}
use edge_scpoe.Logs.Scan.{steady}
use edge_scpoe.Logs.Tail.{read_log-Answers}
use edge_scpoe.Logs.Encoded.{last_lines-IsUtf8}
use edge_scpoe.Rpc.{StatusCode, read_log_call, log_outcome}
use edge_scpoe.Worker.{other, Call, RpcWorker, StreamThread, Signal}
use edge_scpoe.Worker.Slots
use edge_scpoe.Worker.Slots.{refresh, with_client, emit_response}
use edge_scpoe.Window.{Qt, MainWindow, Effect, set_log_output, Handled}
use edge_scpoe.Window.Views.{join_lines, update_log_content}
use edge_scpoe.Window.Handlers.{handle}

-- What a call over a working connection gives for the status and the response of the agent.
unfoldable pub delivered : {A : Type 0} → StatusCode → Bytes → A → Call A
delivered StatusCode.ok message response = ok response
delivered _ message response = err (record { code = other; message = message })

-- The window handles the signals that the worker emits, in their order.
unfoldable pub handle_all : {D : Type 0} → Qt D → List (Signal D) → MainWindow D → Handled D
unfolding handle
handle_all qt [] w = (w, [])
handle_all qt (s ∷ rest) w =
    let first = handle qt s w in
    let more = handle_all qt rest (first.0) in (more.0, first.1 ++ more.1)

-- The window puts these lines into its log view, first of all.
abbrev pub IsShown : List Bytes → List Effect → Type 0
IsShown shown (set_log_output text ∷ rest) = text ≡ join_lines shown
IsShown shown _ = ⊥

map-same :
    (f : Bytes → Bytes)
    → ((t : Bytes) → IsUtf8 t → f t ≡ t)
    → (ls : List Bytes) → All IsUtf8 ls
    → map f ls ≡ ls
map-same f h [] k = refl
map-same f h (l ∷ ls) k =
    ap (λ (x : Bytes). x ∷ map f ls) (h l k.0)
    ∙ ap {B = List Bytes} (λ r. l ∷ r) (map-same f h ls k.1)

-- What the agent answers for a log, the worker emits and the window does about it.
unfoldable pub request_log :
    {D : Type 0}
    → Qt D
    → (Bytes → Bytes)
    → (Bytes → Opened)
    → List AllowedLog
    → Bytes
    → ℕ
    → Bytes
    → RpcWorker
    → MainWindow D
    → Handled D
unfolding handle_all
request_log qt from_std_string file_system logs id max_lines keyword worker w =
    let answer = read_log_call file_system logs id max_lines keyword in
    let call = delivered (answer.0.code) (answer.0.message) (answer.1) in
    handle_all qt ((Slots.read_log from_std_string call worker).1) w

-- For an allowed log within the limits, whose file of at most 8 MiB does not change while it is read, if
-- the worker has a client and the call arrives: the window shows the last `max_lines` of the file's
-- lines that match the keyword, without their carriage returns, cut at 4096 bytes and sanitised, in
-- order. `QString::fromStdString` is taken to leave well-formed UTF-8 as it is.
pub request_log-IsShown :
    {D : Type 0} (qt : Qt D) (from_std_string : Bytes → Bytes) (file_system : Bytes → Opened)
    (logs : List AllowedLog) (id : Bytes) (log : AllowedLog) (max_lines : ℕ)
    (keyword text target : Bytes) (stream : StreamThread) (w : MainWindow D)
    → ((t : Bytes) → IsUtf8 t → from_std_string t ≡ t)
    → find_allowed_log id logs ≡ some log
    → file_system log.path ≡ opened (steady text)
    → 0 < max_lines
    → max_lines ≤ max_lines_limit
    → length keyword ≤ max_keyword_length
    → length text ≤ max_scan_bytes
    → All IsByte text
    → IsShown (take_last max_lines (map cleaned (kept keyword (lines text)))) (
        (request_log qt from_std_string file_system logs id max_lines keyword
          (record { client = some target; stream = stream })
          w).1)
unfolding request_log read_log_call log_outcome delivered refresh with_client emit_response handle
    update_log_content
request_log-IsShown qt q file_system logs id log max_lines keyword text target stream w same found
      opens lo hi short small bytes =
    let (r, reads, answers) =
      read_log-Answers file_system logs id log max_lines keyword text found opens lo hi short
        small in
    let shown = take_last max_lines (map cleaned (kept keyword (lines text))) in
    subst
      (λ result. IsShown shown (
        (handle_all qt
          ((Slots.read_log q
            (delivered ((log_outcome result).0.code) ((log_outcome result).0.message)
              ((log_outcome result).1))
            (record { client = some target; stream = stream })).1)
          w).1))
      (sym reads)
      (ap join_lines (
        ap (map q) answers.last
        ∙ map-same q same shown (last_lines-IsUtf8 max_lines keyword text bytes)))
