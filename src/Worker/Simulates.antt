-- ===== src/Worker/Simulates.antt =====
-- client/src/RpcWorker.cpp: the steps that the slots share, as moves of the session.
use edge_scpoe.Base.{ℕ, ◌≡◌, refl, Bool, true, false, List, [], ◌∷◌, Option, none, some}
use edge_scpoe.Base.Results.{ok, err}
use edge_scpoe.Text.{Bytes, codes}
use edge_scpoe.Rpc.Messages.{GetAgentInfoResponse}
use edge_scpoe.Worker.{
  ErrorCode, unavailable, deadline_exceeded, cancelled, other, CallError, Call, StreamThread, idle,
  following, ended, RpcWorker, Signal,
}
use edge_scpoe.Worker.Slots
use edge_scpoe.Worker.Slots.{
  LogEnd, connection_lost, without_client_if, Emitted, behind, emit_rpc_error, stream_error,
  stream_end, line_signals, joined_signals, agent_answered, following_if, with_client,
  emit_response, refresh, control_answered, connections_answered, interfaces_answered,
}
use edge_scpoe.Worker.Session.{
  Moves, accepts, fails, closes, result, refused, loses, line, breaks, stops, done, next, begins,
  is_result, is_call, Moves-append,
}

abbrev pub is_open : Option Bytes → Bool
is_open none = false
is_open (some target) = true

abbrev pub is_following : StreamThread → Bool
is_following following = true
is_following idle = false
is_following ended = false

-- What a slot emits is a run of the session between the states that the worker is in.
abbrev pub Simulates : (D : Type 0) → RpcWorker → Emitted D → Type 0
Simulates D w (w', signals) =
    Moves D (is_open w.client) (is_following w.stream) signals (is_open w'.client)
      (is_following w'.stream)

module _ {D : Type 0} (q : Bytes → Bytes) where
  -- An error of a call with a client.
  pub lost-Moves :
      (operation message target : Bytes) (lost : Bool) (s : StreamThread)
      → is_call operation ≡ true
      → Simulates D
          (record { client = some target; stream = s })
          (
            without_client_if lost (record { client = some target; stream = s }),
            Signal.rpc_error operation message lost ∷ [],
          )
  unfolding without_client_if
  lost-Moves operation message target true s call = next (loses operation message call) done
  lost-Moves operation message target false s call = next (refused operation message call) done

  pub error-Simulates :
      (operation target : Bytes) (s : StreamThread) (e : CallError)
      → is_call operation ≡ true
      → Simulates D
          (record { client = some target; stream = s })
          (emit_rpc_error q operation e (record { client = some target; stream = s }))
  unfolding emit_rpc_error
  error-Simulates operation target s e call =
      lost-Moves operation (q e.message) target (connection_lost e.code) s call

  pub lines-Moves : {o : Bool} (texts : List Bytes) → Moves D o true (line_signals q texts) o true
  unfolding line_signals
  lines-Moves [] = done
  lines-Moves (text ∷ rest) = next (line (q text)) (lines-Moves rest)

  pub stream_error-Moves :
      {o : Bool} (code : ErrorCode) (message : Bytes)
      → Moves D o true (stream_error q code message) o true
  unfolding stream_error
  stream_error-Moves cancelled message = done
  stream_error-Moves unavailable message = next (breaks (q message) true) done
  stream_error-Moves deadline_exceeded message = next (breaks (q message) false) done
  stream_error-Moves other message = next (breaks (q message) false) done

  pub stream_end-Moves :
      {o : Bool} (status : Option CallError) → Moves D o true (stream_end q status) o false
  unfolding stream_end
  stream_end-Moves none = next stops done
  stream_end-Moves (some e) = Moves-append (stream_error-Moves e.code e.message) (next stops done)

  pub joined-Moves :
      {o : Bool} (e : LogEnd) (s : StreamThread)
      → Moves D o (is_following s) (joined_signals q e s) o false
  unfolding joined_signals
  joined-Moves e following = Moves-append (lines-Moves e.lines) (stream_end-Moves e.status)
  joined-Moves e idle = done
  joined-Moves e ended = done

  pub stop-Simulates : (e : LogEnd) (w : RpcWorker) → Simulates D w (Slots.stop_log_stream q e w)
  unfolding Slots.stop_log_stream
  stop-Simulates e w = joined-Moves e w.stream

  pub fails-Moves :
      {o : Bool} (message : Bytes) (lost : Bool)
      → Moves D o false
          (Signal.rpc_error (codes "Connect") message lost ∷ [])
          (is_open (without_client_if lost (record { client = none; stream = idle })).client)
          (is_following (without_client_if lost (record { client = none; stream = idle })).stream)
  unfolding without_client_if
  fails-Moves message true = next (fails message true) done
  fails-Moves message false = next (fails message false) done

  pub answered-Moves :
      {o : Bool} (target : Bytes) (answer : Call GetAgentInfoResponse)
      → let end = agent_answered q answer (record { client = some target; stream = idle }) in
        Moves D o false (end.1) (is_open (end.0).client) (is_following (end.0).stream)
  unfolding agent_answered emit_rpc_error
  answered-Moves target (ok response) = next (accepts _) done
  answered-Moves target (err e) = fails-Moves (q e.message) (connection_lost e.code)

  pub connect-Simulates :
      (host : Bytes) (port : ℕ) (e : LogEnd) (answer : Call GetAgentInfoResponse) (w : RpcWorker)
      → Simulates D w (Slots.connect_to_agent q host port e answer w)
  unfolding Slots.connect_to_agent Slots.stop_log_stream
  connect-Simulates host port e answer w =
      Moves-append (joined-Moves e w.stream) (answered-Moves _ answer)

  pub disconnect-Simulates :
      (e : LogEnd) (w : RpcWorker) → Simulates D w (Slots.disconnect_from_agent q e w)
  unfolding Slots.disconnect_from_agent Slots.stop_log_stream
  disconnect-Simulates e w = Moves-append (joined-Moves e w.stream) (next closes done)

  pub following_if-Simulates :
      (c : Option Bytes)
      → let w : RpcWorker = record { client = c; stream = idle } in
        Simulates D w (following_if c w, [])
  unfolding following_if
  following_if-Simulates none = done
  following_if-Simulates (some target) = begins done

  pub with_client-Simulates :
      (emitted : RpcWorker → Emitted D) (w : RpcWorker)
      → ((target : Bytes)
          → let up : RpcWorker = record { client = some target; stream = w.stream } in
            Simulates D up (emitted up))
      → Simulates D w (Slots.with_client w.client (emitted w) w)
  unfolding with_client
  with_client-Simulates emitted w h = of_client w.client
    where
      of_client :
          (c : Option Bytes)
          → let up : RpcWorker = record { client = c; stream = w.stream } in
            Simulates D up (Slots.with_client c (emitted up) up)
      of_client none = done
      of_client (some target) = h target

  module _ {A : Type 0} (operation : Bytes) (signal : A → Signal D)
      (s : (a : A) → is_result (signal a) ≡ true) (call : is_call operation ≡ true) where
    pub response-Simulates :
        (answer : Call A) (target : Bytes) (t : StreamThread)
        → let w : RpcWorker = record { client = some target; stream = t } in
          Simulates D w (emit_response q operation signal answer w)
    unfolding emit_response
    response-Simulates (ok response) target t = next (result (signal response) (s response)) done
    response-Simulates (err e) target t = error-Simulates operation target t e call

    pub refresh-Simulates :
        (answer : Call A) (w : RpcWorker) → Simulates D w (refresh q operation signal answer w)
    unfolding refresh
    refresh-Simulates answer w =
        with_client-Simulates (emit_response q operation signal answer) w
          λ target. response-Simulates answer target w.stream

  pub control-Simulates :
      (operation text : Bytes) (answer : Call (Unit {0})) (refreshed : RpcWorker → Emitted D)
      → is_call operation ≡ true
      → ((w : RpcWorker) → Simulates D w (refreshed w))
      → (w : RpcWorker)
      → Simulates D w
          (Slots.with_client w.client (control_answered q operation text answer refreshed w) w)
  unfolding control_answered
  control-Simulates operation text answer refreshed call h w =
      with_client-Simulates (control_answered q operation text answer refreshed) w
        λ target. answered target answer
    where
      answered :
          (target : Bytes) (answer : Call (Unit {0}))
          → let up : RpcWorker = record { client = some target; stream = w.stream } in
            Simulates D up (control_answered q operation text answer refreshed up)
      answered target (err e) = error-Simulates operation target w.stream e call
      answered target (ok u) =
          next (result (Signal.operation_succeeded text) refl)
            (h (record { client = some target; stream = w.stream }))
