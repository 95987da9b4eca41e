-- ===== src/Network/Tcp.antt =====
-- `ParseTcpLine`, `ReadTcpFile`, `BuildSocketPidMap` and `ListTcpConnections`.
use edge_scpoe.Base.{
  ℕ, zero, suc, ◌-◌, Bool, true, false, ◌&&◌, List, [], ◌∷◌, ◌++◌, Option, none, some, leb, ltb,
  ◌==◌, if◌then◌else◌, length, take, drop, map, get_or,
}
use edge_scpoe.Base.Results.{Result, ok, err, ◌>>=◌, ◌>>◌, fail_if, or_fail}
use edge_scpoe.Text.{Bytes, codes, lines, starts_with}
use edge_scpoe.Text.Numbers.{max_i32, read_word}
use edge_scpoe.Network.{parse_unsigned, parse_endpoint, tcp_state_name}

pub record TcpConnectionInfo : Type 0 where
  pub protocol : Bytes
  pub local_address : Bytes
  pub local_port : ℕ
  pub remote_address : Bytes
  pub remote_port : ℕ
  pub state : Bytes
  pub inode : ℕ
  pub pid : ℕ

-- `while (stream >> field) fields.push_back(field)`: a word for each unit of fuel.
unfoldable pub next_field : Option (Bytes × Bytes) → (Bytes → List Bytes) → List Bytes
next_field none more = []
next_field (some (field, rest)) more = field ∷ more rest

unfoldable pub fields_of : ℕ → Bytes → List Bytes
unfolding next_field
fields_of zero s = []
fields_of (suc fuel) s = next_field (read_word s) (fields_of fuel)

abbrev pub protocol_name : Bool → Bytes
protocol_name true = codes "tcp6"
protocol_name false = codes "tcp4"

module _ (inet_ntop : Bool → Bytes → Option Bytes) where
  unfoldable pub parse_tcp_line : Bytes → Bool → Result Bytes TcpConnectionInfo
  unfolding fields_of
  parse_tcp_line line ipv6 = do
    let fields = fields_of (length line) line
    fail_if (ltb (length fields) 10) (codes "not enough fields in /proc/net/tcp line")
    (local_address, local_port) ←
        or_fail (parse_endpoint inet_ntop (get_or [] fields 1) ipv6)
          (codes "invalid endpoint in /proc/net/tcp line")
    (remote_address, remote_port) ←
        or_fail (parse_endpoint inet_ntop (get_or [] fields 2) ipv6)
          (codes "invalid endpoint in /proc/net/tcp line")
    inode ←
        or_fail (parse_unsigned (get_or [] fields 9) 10)
          (codes "invalid inode in /proc/net/tcp line")
    ok (record {
      protocol = protocol_name ipv6;
      local_address = local_address;
      local_port = local_port;
      remote_address = remote_address;
      remote_port = remote_port;
      state = tcp_state_name (get_or [] fields 3);
      inode = inode;
      pid = 0;
    })

  unfoldable pub kept_connection : Result Bytes TcpConnectionInfo → List TcpConnectionInfo
  kept_connection (ok connection) = connection ∷ []
  kept_connection (err e) = []

  unfoldable pub connections_of : Bool → List Bytes → List TcpConnectionInfo
  unfolding parse_tcp_line kept_connection
  connections_of ipv6 [] = []
  connections_of ipv6 (line ∷ rest) =
      kept_connection (parse_tcp_line line ipv6) ++ connections_of ipv6 rest

  -- The first line is the heading. `none` is a file that cannot be opened.
  unfoldable pub read_tcp_file : Bool → Option Bytes → Option (List TcpConnectionInfo)
  unfolding connections_of
  read_tcp_file ipv6 none = none
  read_tcp_file ipv6 (some text) = some (connections_of ipv6 (drop 1 (lines text)))

-- A process as the scan sees it: the name of its directory in /proc, and what its descriptors link to;
-- `none` is a link that cannot be read.
pub record ProcessLinks : Type 0 where
  pub directory : Bytes
  pub links : List (Option Bytes)

unfoldable pub scanned_pid : Option ℕ → Option ℕ
scanned_pid none = none
scanned_pid (some n) = if ltb 0 n && leb n max_i32 then some n else none

-- The number in `socket:[…]`.
unfoldable pub ends_in : ℕ → Bytes → Bool
ends_in c [] = false
ends_in c (x ∷ []) = x == c
ends_in c (x ∷ y ∷ s) = ends_in c (y ∷ s)

unfoldable pub socket_inode : Option Bytes → Option ℕ
unfolding ends_in
socket_inode none = none
socket_inode (some target) =
    if starts_with (codes "socket:[") target && ends_in b']' target
    then parse_unsigned (take (length target - 9) (drop 8 target)) 10
    else none

-- `std::unordered_map`: `find`, and `emplace`, which keeps a value that is there.
unfoldable pub find_pid : ℕ → List (ℕ × ℕ) → Option ℕ
find_pid inode [] = none
find_pid inode ((key, pid) ∷ rest) = if key == inode then some pid else find_pid inode rest

unfoldable pub absent : Option ℕ → Bool
absent none = true
absent (some n) = false

unfoldable pub emplace : ℕ → ℕ → List (ℕ × ℕ) → List (ℕ × ℕ)
unfolding find_pid absent
emplace inode pid entries =
    if absent (find_pid inode entries) then (inode, pid) ∷ entries else entries

unfoldable pub add_socket : Option ℕ → ℕ → List (ℕ × ℕ) → List (ℕ × ℕ)
unfolding emplace
add_socket none pid entries = entries
add_socket (some inode) pid entries = emplace inode pid entries

unfoldable pub add_links : List (Option Bytes) → ℕ → List (ℕ × ℕ) → List (ℕ × ℕ)
unfolding add_socket
add_links [] pid entries = entries
add_links (link ∷ rest) pid entries =
    add_links rest pid (add_socket (socket_inode link) pid entries)

unfoldable pub add_process : Option ℕ → List (Option Bytes) → List (ℕ × ℕ) → List (ℕ × ℕ)
unfolding add_links
add_process none links entries = entries
add_process (some pid) links entries = add_links links pid entries

unfoldable pub socket_pids : List ProcessLinks → List (ℕ × ℕ) → List (ℕ × ℕ)
unfolding add_process scanned_pid
socket_pids [] entries = entries
socket_pids (p ∷ rest) entries =
    socket_pids rest (add_process (scanned_pid (parse_unsigned p.directory 10)) p.links entries)

unfoldable pub assigned : Option ℕ → TcpConnectionInfo → TcpConnectionInfo
assigned none connection = connection
assigned (some pid) connection = record connection { pid = pid }

unfoldable pub or_empty : Option (List TcpConnectionInfo) → List TcpConnectionInfo
or_empty none = []
or_empty (some connections) = connections

-- `ListTcpConnections`, over the contents of the two files and the processes.
unfoldable pub list_tcp_connections :
    (Bool → Bytes → Option Bytes)
    → Option Bytes
    → Option Bytes
    → List ProcessLinks
    → Result Bytes (List TcpConnectionInfo)
unfolding read_tcp_file socket_pids assigned or_empty
list_tcp_connections inet_ntop tcp tcp6 processes = do
  connections ← or_fail (read_tcp_file inet_ntop false tcp) (codes "failed to open /proc/net/tcp")
  let all = connections ++ or_empty (read_tcp_file inet_ntop true tcp6)
  let pids = socket_pids processes []
  ok (map (λ (c : TcpConnectionInfo). assigned (find_pid c.inode pids) c) all)
