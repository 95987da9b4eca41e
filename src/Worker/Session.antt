-- ===== src/Worker/Session.antt =====
-- The session that the worker of client/src/RpcWorker.cpp keeps with an agent, as an automaton over
-- signals. A session is open or not, and a log is followed or not.
use edge_scpoe.Base.{◌≡◌, Bool, true, false, not, ◌&&◌, List, [], ◌∷◌, ◌++◌}
use edge_scpoe.Text.{Bytes, codes, equal}
use edge_scpoe.Client.{AgentInfoData}
use edge_scpoe.Worker.{
  Signal, connected, disconnected, log_stream_stopped, log_line_ready, rpc_error,
}

-- The signals that tell of an answer of the agent.
abbrev pub is_result : {D : Type 0} → Signal D → Bool
is_result (connected info) = false
is_result disconnected = false
is_result log_stream_stopped = false
is_result (log_line_ready line) = false
is_result (rpc_error operation message lost) = false
is_result _ = true

-- The errors of calls name the call; those of connecting and of following a log have names of their
-- own.
unfoldable pub is_call : Bytes → Bool
is_call operation =
    not (equal operation (codes "Connect")) && not (equal operation (codes "StreamLog"))

-- `Move open following signal open' following'`: results and errors of calls come in an open session
-- only, and a lost connection of a call closes it, also while a log is followed. A connect and a
-- disconnect come while no log is followed: a connect opens the session, a connect that fails and a
-- disconnect close it. Lines come while a log is followed, whose end is told once, and a stream that
-- breaks leaves the session as it is, also by a lost connection.
pub data Move (D : Type 0) : Bool → Bool → Signal D → Bool → Bool → Type 0 where
  accepts : {o : Bool} (info : AgentInfoData) → Move D o false (connected info) true false
  fails :
      {o : Bool} (message : Bytes) (lost : Bool)
      → Move D o false (rpc_error (codes "Connect") message lost) false false
  closes : {o : Bool} → Move D o false disconnected false false
  result : {f : Bool} (s : Signal D) → is_result s ≡ true → Move D true f s true f
  refused :
      {f : Bool} (operation message : Bytes)
      → is_call operation ≡ true
      → Move D true f (rpc_error operation message false) true f
  loses :
      {f : Bool} (operation message : Bytes)
      → is_call operation ≡ true
      → Move D true f (rpc_error operation message true) false f
  line : {o : Bool} (text : Bytes) → Move D o true (log_line_ready text) o true
  breaks :
      {o : Bool} (message : Bytes) (lost : Bool)
      → Move D o true (rpc_error (codes "StreamLog") message lost) o true
  stops : {o : Bool} → Move D o true log_stream_stopped o false

-- A row of signals. In an open session with no log followed, following may begin, with no signal.
pub data Moves (D : Type 0) : Bool → Bool → List (Signal D) → Bool → Bool → Type 0 where
  done : {o f : Bool} → Moves D o f [] o f
  next :
      {o f o' f' o'' f'' : Bool} {s : Signal D} {rest : List (Signal D)}
      → Move D o f s o' f'
      → Moves D o' f' rest o'' f''
      → Moves D o f (s ∷ rest) o'' f''
  begins :
      {o' f' : Bool} {rest : List (Signal D)}
      → Moves D true true rest o' f'
      → Moves D true false rest o' f'

pub Moves-append :
    {D : Type 0} {o f o' f' o'' f'' : Bool} {xs ys : List (Signal D)}
    → Moves D o f xs o' f'
    → Moves D o' f' ys o'' f''
    → Moves D o f (xs ++ ys) o'' f''
Moves-append done k = k
Moves-append (next m h) k = next m (Moves-append h k)
Moves-append (begins h) k = begins (Moves-append h k)
