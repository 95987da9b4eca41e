-- ===== src/Worker/Refines.antt =====
-- client/src/RpcWorker.cpp: the slots, the thread that follows a log, and their runs, as moves of the
-- session.
use edge_scpoe.Base.Int.{ℤ}
use edge_scpoe.Base.{
  ℕ, suc, ◌+◌, refl, subst, Bool, true, not, ◌||◌, List, [], ◌∷◌, Option, some, ◌==◌, if_intro,
  length, append-nil,
}
use edge_scpoe.Base.Results.{ok, err}
use edge_scpoe.Text.{Bytes, equal}
use edge_scpoe.Diagnostics.{CreateDiagnosticBundleResponse}
use edge_scpoe.Transfer.{DiagnosticChunk}
use edge_scpoe.Transfer.Client.{Receiver, receive, start}
use edge_scpoe.Rpc.Messages.{ProcessMessage, ServiceMessage, NetworkInterface, TcpConnection}
use edge_scpoe.Worker.{CallError, Call, StreamThread, idle, following, ended, RpcWorker, Signal}
use edge_scpoe.Worker.Slots
use edge_scpoe.Worker.Slots.{
  LogEnd, connection_lost, without_client_if, Emitted, behind, emit_rpc_error, stream_error,
  stream_end, line_signals, joined_signals, agent_answered, following_if, with_client,
  emit_response, refresh, control_answered, connections_answered, interfaces_answered,
}
use edge_scpoe.Worker.Download
use edge_scpoe.Worker.Download.{progress, received_all, judged, downloaded, bundle_created}
use edge_scpoe.Worker.Actions.{Action, perform, run, line_read, call_ended}
use edge_scpoe.Worker.Session.{is_call, Moves, result, refused, line, done, next, Moves-append}
use edge_scpoe.Worker.Simulates.{
  Simulates, error-Simulates, stream_end-Moves, joined-Moves, stop-Simulates, connect-Simulates,
  disconnect-Simulates, following_if-Simulates, with_client-Simulates, refresh-Simulates,
  control-Simulates,
}

module _ {D : Type 0} (q : Bytes → Bytes) where
  connections-Simulates :
      (interfaces : List NetworkInterface) (connections : Call (List TcpConnection))
      (target : Bytes) (s : StreamThread)
      → let up : RpcWorker = record { client = some target; stream = s } in
        Simulates D up (connections_answered q interfaces connections up)
  unfolding connections_answered is_call equal
  connections-Simulates interfaces (err e) target s = error-Simulates q _ target s e refl
  connections-Simulates interfaces (ok connections) target s =
      next (result (Signal.network_ready _ _) refl) done

  interfaces-Simulates :
      (interfaces : Call (List NetworkInterface)) (connections : Call (List TcpConnection))
      (target : Bytes) (s : StreamThread)
      → let up : RpcWorker = record { client = some target; stream = s } in
        Simulates D up (interfaces_answered q interfaces connections up)
  unfolding interfaces_answered is_call equal
  interfaces-Simulates (err e) connections target s = error-Simulates q _ target s e refl
  interfaces-Simulates (ok interfaces) connections target s =
      connections-Simulates interfaces connections target s

  network-Simulates :
      (interfaces : Call (List NetworkInterface)) (connections : Call (List TcpConnection))
      (w : RpcWorker)
      → Simulates D w (Slots.refresh_network q interfaces connections w)
  unfolding Slots.refresh_network
  network-Simulates interfaces connections w =
      with_client-Simulates q (interfaces_answered q interfaces connections) w
        λ target. interfaces-Simulates interfaces connections target w.stream

  progress-Moves :
      {f : Bool} (size : ℕ) (disk_writes : ℕ → Bool) (n received : ℕ)
      (chunks : List DiagnosticChunk)
      → Moves D true f (progress q size disk_writes n received chunks) true f
  unfolding progress
  progress-Moves size disk_writes n received [] = done
  progress-Moves {f = f} size disk_writes n received (chunk ∷ chunks) =
      let received' = received + length chunk.chunk_bytes in
      let rest = progress-Moves size disk_writes (suc n) received' chunks in
      if_intro P (not (chunk.offset == received) || not (chunk.total_size_bytes == size)) _ _
        (λ t. done)
        λ u.
          if_intro P (not (disk_writes n)) _ _ (λ t. done)
            λ v.
              next (result (Signal.diagnostic_progress received' chunk.total_size_bytes) refl) rest
    where
      P : List (Signal D) → Type 0
      P signals = Moves D true f signals true f

  ready-Simulates :
      (destination : Bytes) (size received : ℕ) (status : Call (Unit {0})) (target : Bytes)
      (s : StreamThread)
      → let up : RpcWorker = record { client = some target; stream = s } in
        Simulates D up (received_all q destination size received status up)
  unfolding received_all is_call equal
  ready-Simulates destination size received (err e) target s = error-Simulates q _ target s e refl
  ready-Simulates destination size received (ok u) target s =
      if_intro (Simulates D (record { client = some target; stream = s })) _ _ _
        (λ t. next (refused _ _ refl) done)
        λ t. next (result (Signal.diagnostic_ready destination received) refl) done

  judged-Simulates :
      (destination : Bytes) (size : ℕ) (r : Receiver) (status : Call (Unit {0})) (target : Bytes)
      (s : StreamThread)
      → let up : RpcWorker = record { client = some target; stream = s } in
        Simulates D up (judged q destination size r status up)
  unfolding judged is_call equal
  judged-Simulates destination size r status target s =
      if_intro (Simulates D (record { client = some target; stream = s })) _ _ _
        (λ t. next (refused _ _ refl) done)
        λ t. ready-Simulates destination size r.received status target s

  module _ (destination : Bytes) (opens : Bool) (disk_writes : ℕ → Bool)
      (chunks : List DiagnosticChunk) (status : Call (Unit {0})) where
    created-Simulates :
        (created : Call CreateDiagnosticBundleResponse) (target : Bytes) (s : StreamThread)
        → let up : RpcWorker = record { client = some target; stream = s } in
          Simulates D up (bundle_created q destination opens disk_writes chunks status created up)
    unfolding bundle_created downloaded is_call equal
    created-Simulates (err e) target s = error-Simulates q _ target s e refl
    created-Simulates (ok bundle) target s =
        let size = bundle.total_size_bytes in
        if_intro (Simulates D (record { client = some target; stream = s })) opens _ _
          (λ t. Moves-append (progress-Moves size disk_writes 0 0 chunks) (
            judged-Simulates destination size (receive size disk_writes 0 start chunks) status
              target s))
          λ t. next (refused _ _ refl) done

    diagnostic-Simulates :
        (created : Call CreateDiagnosticBundleResponse) (w : RpcWorker)
        → Simulates D w (
            Download.create_and_download_diagnostic q destination opens disk_writes created chunks
              status w)
    unfolding Download.create_and_download_diagnostic
    diagnostic-Simulates created w =
        with_client-Simulates q
          (bundle_created q destination opens disk_writes chunks status created) w
          λ target. created-Simulates created target w.stream

  start-Simulates : (e : LogEnd) (w : RpcWorker) → Simulates D w (Slots.start_log_stream q e w)
  unfolding Slots.start_log_stream Slots.stop_log_stream
  start-Simulates e w =
      let stopped : Simulates D w
          (record { client = w.client; stream = idle }, joined_signals q e w.stream) =
        joined-Moves q e w.stream in
      subst
        (λ signals.
          Simulates D w
            (following_if w.client (record { client = w.client; stream = idle }), signals))
        (append-nil (joined_signals q e w.stream))
        (Moves-append stopped (following_if-Simulates q w.client))

  process-Simulates :
      (pid : ℤ) (answer : Call (Unit {0})) (processes : Call (List (ProcessMessage D)))
      (w : RpcWorker)
      → Simulates D w (Slots.control_process q pid answer processes w)
  unfolding Slots.control_process is_call equal
  process-Simulates pid answer processes w =
      control-Simulates q _ _ answer (Slots.refresh_processes q processes) refl
        (refresh-Simulates q _ _ (λ a. refl) refl processes) w

  service-Simulates :
      (name : Bytes) (answer : Call (Unit {0})) (services : Call (List ServiceMessage))
      (w : RpcWorker)
      → Simulates D w (Slots.control_service q name answer services w)
  unfolding Slots.control_service is_call equal
  service-Simulates name answer services w =
      control-Simulates q _ _ answer (Slots.refresh_services q services) refl
        (refresh-Simulates q _ _ (λ a. refl) refl services) w

  line-Simulates :
      (text : Bytes) (c : Option Bytes) (s : StreamThread)
      → let w : RpcWorker = record { client = c; stream = s } in
        Simulates D w (line_read q text s w)
  unfolding line_read
  line-Simulates text c following = next (line (q text)) done
  line-Simulates text c idle = done
  line-Simulates text c ended = done

  end-Simulates :
      (status : Option CallError) (c : Option Bytes) (s : StreamThread)
      → let w : RpcWorker = record { client = c; stream = s } in
        Simulates D w (call_ended q status s w)
  unfolding call_ended
  end-Simulates status c following = stream_end-Moves q status
  end-Simulates status c idle = done
  end-Simulates status c ended = done

  pub perform-Simulates : (a : Action D) (w : RpcWorker) → Simulates D w (perform q a w)
  unfolding perform is_call equal
  perform-Simulates (Action.connect_to_agent host port e answer) w =
      connect-Simulates q host port e answer w
  perform-Simulates (Action.disconnect_from_agent e) w = disconnect-Simulates q e w
  perform-Simulates (Action.start_log_stream e) w = start-Simulates e w
  perform-Simulates (Action.stop_log_stream e) w = stop-Simulates q e w
  perform-Simulates (Action.refresh_metrics answer) w =
      refresh-Simulates q _ _ (λ a. refl) refl answer w
  perform-Simulates (Action.refresh_processes answer) w =
      refresh-Simulates q _ _ (λ a. refl) refl answer w
  perform-Simulates (Action.get_process_details answer) w =
      refresh-Simulates q _ _ (λ a. refl) refl answer w
  perform-Simulates (Action.control_process pid answer processes) w =
      process-Simulates pid answer processes w
  perform-Simulates (Action.refresh_network interfaces connections) w =
      network-Simulates interfaces connections w
  perform-Simulates (Action.list_logs answer) w = refresh-Simulates q _ _ (λ a. refl) refl answer w
  perform-Simulates (Action.read_log answer) w = refresh-Simulates q _ _ (λ a. refl) refl answer w
  perform-Simulates (Action.refresh_services answer) w =
      refresh-Simulates q _ _ (λ a. refl) refl answer w
  perform-Simulates (Action.control_service name answer services) w =
      service-Simulates name answer services w
  perform-Simulates
        (Action.create_and_download_diagnostic destination opens disk_writes created chunks status)
        w =
      diagnostic-Simulates destination opens disk_writes chunks status created w
  perform-Simulates (Action.thread_line text) w = line-Simulates text w.client w.stream
  perform-Simulates (Action.thread_end status) w = end-Simulates status w.client w.stream

  -- Any run of slots and of the thread that follows a log emits, in order, a run of the session, from
  -- the state that the worker starts in to the one that it ends in: whether it has a client, and
  -- whether a log is followed. In the session, results and errors of calls come only while it is open,
  -- and a lost connection of a call closes it, also while a log is followed. A connect, which opens it,
  -- a connect that fails and a disconnect, which close it, come only while no log is followed. Lines
  -- come only while a log is followed, whose end is told once; a stream that breaks leaves the session
  -- as it is.
  pub run-Simulates : (actions : List (Action D)) (w : RpcWorker) → Simulates D w (run q actions w)
  unfolding run
  run-Simulates [] w = done
  run-Simulates (a ∷ rest) w =
      Moves-append (perform-Simulates a w) (run-Simulates rest ((perform q a w).0))
