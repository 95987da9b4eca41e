-- ===== src/Network/Owners.antt =====
-- The map from sockets to processes gives each socket its first holder.
use edge_scpoe.Base.{
  ℕ, ◌≡◌, refl, ap, subst, Bool, true, false, List, [], ◌∷◌, ◌++◌, Option, none, some, ◌==◌,
  if◌then◌else◌, arith, map, Bool-cases, inl, inr, ◌∙◌, suc, ◌-◌, &&_true, length, length-drop,
  drop, take,
}
use edge_scpoe.Base.Results.{Result, ok, err}
use mathlib.Core.Option
use mathlib.Core.Bool.{false≢true}
use edge_scpoe.Text.{Bytes, codes, starts_with, lines}
use edge_scpoe.Network.{parse_unsigned}
use edge_scpoe.Network.Tcp.{
  ends_in, parse_tcp_line, kept_connection, connections_of, TcpConnectionInfo, ProcessLinks,
  scanned_pid, socket_inode, find_pid, absent, emplace, add_socket, add_links, add_process,
  socket_pids, assigned, or_empty, read_tcp_file, list_tcp_connections,
}

-- The first of two answers.
abbrev or_else : Option ℕ → Option ℕ → Option ℕ
or_else none b = b
or_else (some a) b = some a

-- What is behind a prefix, and before a last byte.
abbrev pub behind : Bytes → Bytes → Option Bytes
behind [] t = some t
behind (c ∷ cs) [] = none
behind (c ∷ cs) (d ∷ t) = if c == d then behind cs t else none

abbrev pub before_last : ℕ → Bytes → Option Bytes
before_last c [] = none
before_last c (x ∷ []) = if x == c then some [] else none
before_last c (x ∷ y ∷ s) = Option.map (◌∷◌ x) (before_last c (y ∷ s))

-- The inode of a link `socket:[…]` with a number between the brackets.
abbrev pub number_in : Option Bytes → Option ℕ
number_in none = none
number_in (some digits) = parse_unsigned digits 10

abbrev pub within_brackets : Option Bytes → Option ℕ
within_brackets none = none
within_brackets (some rest) = number_in (before_last b']' rest)

abbrev pub inode_of : Option Bytes → Option ℕ
inode_of none = none
inode_of (some target) = within_brackets (behind (codes "socket:[") target)

behind-drop :
    (p t : Bytes) → behind p t ≡ (if starts_with p t then some (drop (length p) t) else none)
unfolding starts_with
behind-drop [] t = refl
behind-drop (c ∷ cs) [] = refl
behind-drop (c ∷ cs) (d ∷ t) = elim (Bool-cases (c == d)) [
  | inl e ↦ rw e (behind-drop cs t)
  | inr e ↦ rw e refl
]

ends_in-behind :
    (c : ℕ) (p t : Bytes)
    → ends_in c p ≡ false
    → starts_with p t ≡ true
    → ends_in c t ≡ ends_in c (drop (length p) t)
unfolding ends_in starts_with
ends_in-behind c [] t h k = refl
ends_in-behind c (a ∷ p) [] h k = absurd (false≢true k)
ends_in-behind c (a ∷ []) (x ∷ []) h k = ground arith
ends_in-behind c (a ∷ []) (x ∷ y ∷ s) h k = refl
ends_in-behind c (a ∷ b ∷ p) (x ∷ []) h k = ground arith
ends_in-behind c (a ∷ b ∷ p) (x ∷ y ∷ s) h k =
    ends_in-behind c (b ∷ p) (y ∷ s) h ((&&_true _ _ k).1)

map-take :
    (b : Bool) (x m n : ℕ) (s : Bytes)
    → n ≡ suc m
    → Option.map (◌∷◌ x) (if b then some (take m s) else none)
      ≡ (if b then some (take n (x ∷ s)) else none)
map-take true x m n s e = rw e refl
map-take false x m n s e = refl

before_last-take :
    (c : ℕ) (s : Bytes)
    → before_last c s ≡ (if ends_in c s then some (take (length s - 1) s) else none)
unfolding ends_in
before_last-take c [] = refl
before_last-take c (x ∷ []) = refl
before_last-take c (x ∷ y ∷ s) =
    ap (Option.map (◌∷◌ x)) (before_last-take c (y ∷ s))
    ∙ map-take (ends_in c (y ∷ s)) x _ _ (y ∷ s) (omega arith)

-- The code's reading of a link.
inode_of-socket : (link : Option Bytes) → socket_inode link ≡ inode_of link
unfolding socket_inode
inode_of-socket none = refl
inode_of-socket (some target) = elim (Bool-cases (starts_with (codes "socket:[") target)) [
  | inl e ↦
      let rest = drop 8 target in
      let ends : ends_in b']' target ≡ ends_in b']' rest =
        ends_in-behind b']' (codes "socket:[") target (unfold ends_in in refl) e in
      let n : length target - 9 ≡ length rest - 1 = omega (arith, length-drop 8 target) in
      rw (behind-drop (codes "socket:[") target, e, ends, before_last-take b']' rest, n)
        (brackets (ends_in b']' rest) (take (length rest - 1) rest))
  | inr e ↦ rw (behind-drop (codes "socket:[") target, e) refl
]
  where
    brackets :
        (b : Bool) (digits : Bytes)
        → (if b then parse_unsigned digits 10 else none)
          ≡ number_in (if b then some digits else none)
    brackets true digits = refl
    brackets false digits = refl

-- Whether a process holds a socket, by looking through its links.
abbrev pub links_to : ℕ → Option ℕ → Bool
links_to inode none = false
links_to inode (some n) = n == inode

abbrev pub holds : ℕ → List (Option Bytes) → Bool
holds inode [] = false
holds inode (link ∷ rest) = if links_to inode (inode_of link) then true else holds inode rest

-- The first process, in the order of /proc, that holds a socket.
abbrev pub held_by : ℕ → Option ℕ → List (Option Bytes) → Option ℕ
held_by inode none links = none
held_by inode (some pid) links = if holds inode links then some pid else none

abbrev pub first_holder : ℕ → List ProcessLinks → Option ℕ
first_holder inode [] = none
first_holder inode (p ∷ rest) =
    or_else (held_by inode (scanned_pid (parse_unsigned p.directory 10)) p.links)
      (first_holder inode rest)

or_else_assoc : (a b c : Option ℕ) → or_else (or_else a b) c ≡ or_else a (or_else b c)
or_else_assoc none b c = refl
or_else_assoc (some n) b c = refl

or_else-none : (a : Option ℕ) → a ≡ or_else a none
or_else-none none = refl
or_else-none (some n) = refl

-- The map after an attempt to add a socket, by the answer that it had for the new key.
find-answered :
    (inode n pid : ℕ) (entries : List (ℕ × ℕ)) (answer : Option ℕ)
    → find_pid n entries ≡ answer
    → find_pid inode (if absent answer then (n, pid) ∷ entries else entries)
      ≡ or_else (find_pid inode entries) (if n == inode then some pid else none)
unfolding find_pid absent
find-answered inode n pid entries none free = elim (Bool-cases (n == inode)) [
  | inl e ↦
      let same : n ≡ inode = ground arith in
      let free' : find_pid inode entries ≡ none =
        subst (λ k. find_pid k entries ≡ none) same free in
      rw (e, free') refl
  | inr e ↦ rw e (or_else-none (find_pid inode entries))
]
find-answered inode n pid entries (some p) used = elim (Bool-cases (n == inode)) [
  | inl e ↦
      let same : n ≡ inode = ground arith in
      let used' : find_pid inode entries ≡ some p =
        subst (λ k. find_pid k entries ≡ some p) same used in
      rw (e, used') refl
  | inr e ↦ rw e (or_else-none (find_pid inode entries))
]

find-emplace :
    (inode n pid : ℕ) (entries : List (ℕ × ℕ))
    → find_pid inode (emplace n pid entries)
      ≡ or_else (find_pid inode entries) (if n == inode then some pid else none)
unfolding emplace
find-emplace inode n pid entries = find-answered inode n pid entries (find_pid n entries) refl

find-add_socket :
    (inode pid : ℕ) (s : Option ℕ) (entries : List (ℕ × ℕ))
    → find_pid inode (add_socket s pid entries)
      ≡ or_else (find_pid inode entries) (if links_to inode s then some pid else none)
unfolding find_pid add_socket absent
find-add_socket inode pid none entries = or_else-none (find_pid inode entries)
find-add_socket inode pid (some n) entries = find-emplace inode n pid entries

find-add_links :
    (inode pid : ℕ) (links : List (Option Bytes)) (entries : List (ℕ × ℕ))
    → find_pid inode (add_links links pid entries)
      ≡ or_else (find_pid inode entries) (if holds inode links then some pid else none)
unfolding add_links
find-add_links inode pid [] entries = find-add_socket inode pid none entries
find-add_links inode pid (link ∷ rest) entries =
    rw
      (
        inode_of-socket link,
        find-add_links inode pid rest (add_socket (inode_of link) pid entries),
        find-add_socket inode pid (inode_of link) entries,
        or_else_assoc,
      )
      (ap (or_else (find_pid inode entries))
        (either (links_to inode (inode_of link)) (holds inode rest)))
  where
    either :
        (a b : Bool)
        → or_else (if a then some pid else none) (if b then some pid else none)
          ≡ (if if a then true else b then some pid else none)
    either true b = refl
    either false b = refl

find-add_process :
    (inode : ℕ) (pid : Option ℕ) (links : List (Option Bytes)) (entries : List (ℕ × ℕ))
    → find_pid inode (add_process pid links entries)
      ≡ or_else (find_pid inode entries) (held_by inode pid links)
unfolding add_process
find-add_process inode none links entries = or_else-none (find_pid inode entries)
find-add_process inode (some pid) links entries = find-add_links inode pid links entries

find-socket_pids :
    (inode : ℕ) (processes : List ProcessLinks) (entries : List (ℕ × ℕ))
    → find_pid inode (socket_pids processes entries)
      ≡ or_else (find_pid inode entries) (first_holder inode processes)
unfolding socket_pids
find-socket_pids inode [] entries = or_else-none (find_pid inode entries)
find-socket_pids inode (p ∷ rest) entries =
    let pid = scanned_pid (parse_unsigned p.directory 10) in
    rw
      (
        find-socket_pids inode rest (add_process pid p.links entries),
        find-add_process inode pid p.links entries,
      )
      (or_else_assoc (find_pid inode entries) (held_by inode pid p.links) (first_holder inode rest))

-- The connections of both files, each with the pid of the first process that holds its socket.
abbrev pub owned : List ProcessLinks → List TcpConnectionInfo → List TcpConnectionInfo
owned processes = map (λ (c : TcpConnectionInfo). assigned (first_holder c.inode processes) c)

-- The lines of a file that can be parsed, but for the heading.
abbrev or_passed : Result Bytes TcpConnectionInfo → List TcpConnectionInfo → List TcpConnectionInfo
or_passed (ok connection) others = connection ∷ others
or_passed (err e) others = others

module _ (inet_ntop : Bool → Bytes → Option Bytes) where
  abbrev pub parsed_lines : Bool → List Bytes → List TcpConnectionInfo
  parsed_lines ipv6 [] = []
  parsed_lines ipv6 (line ∷ rest) =
      or_passed (parse_tcp_line inet_ntop line ipv6) (parsed_lines ipv6 rest)

  abbrev pub table : Bool → Bytes → List TcpConnectionInfo
  table ipv6 text = parsed_lines ipv6 (drop 1 (lines text))

  abbrev pub table_or_empty : Bool → Option Bytes → List TcpConnectionInfo
  table_or_empty ipv6 none = []
  table_or_empty ipv6 (some text) = table ipv6 text

  -- What the two files and the processes should give.
  abbrev pub expected :
      List ProcessLinks → Option Bytes → Option Bytes → Result Bytes (List TcpConnectionInfo)
  expected processes none tcp6 = err (codes "failed to open /proc/net/tcp")
  expected processes (some tcp) tcp6 =
      ok (owned processes (table false tcp ++ table_or_empty true tcp6))

  kept-passed :
      (r : Result Bytes TcpConnectionInfo) (others : List TcpConnectionInfo)
      → kept_connection inet_ntop r ++ others ≡ or_passed r others
  unfolding kept_connection
  kept-passed (ok connection) others = refl
  kept-passed (err e) others = refl

  lines-parsed :
      (ipv6 : Bool) (ls : List Bytes) → connections_of inet_ntop ipv6 ls ≡ parsed_lines ipv6 ls
  unfolding connections_of
  lines-parsed ipv6 [] = refl
  lines-parsed ipv6 (line ∷ rest) =
      ap (λ others. kept_connection inet_ntop (parse_tcp_line inet_ntop line ipv6) ++ others)
        (lines-parsed ipv6 rest)
      ∙ kept-passed (parse_tcp_line inet_ntop line ipv6) (parsed_lines ipv6 rest)

  file-table :
      (tcp6 : Option Bytes)
      → or_empty (read_tcp_file inet_ntop true tcp6) ≡ table_or_empty true tcp6
  unfolding read_tcp_file or_empty
  file-table none = refl
  file-table (some text) = lines-parsed true (drop 1 (lines text))

assigned_all :
    (processes : List ProcessLinks) (cs : List TcpConnectionInfo)
    → map (λ (c : TcpConnectionInfo). assigned (find_pid c.inode (socket_pids processes [])) c) cs
      ≡ owned processes cs
unfolding find_pid
assigned_all processes [] = refl
assigned_all processes (c ∷ cs) =
    rw (find-socket_pids c.inode processes [], assigned_all processes cs) refl

-- `ListTcpConnections` fails exactly if /proc/net/tcp cannot be opened. Else it gives the lines of
-- both files behind their headings that ParseTcpLine takes, in order, those of a missing /proc/net/tcp6
-- being none, and gives each the pid of the first process of the scan with a link `socket:[…]` to its
-- inode, if there is one.
pub list_tcp_connections-owned :
    (inet_ntop : Bool → Bytes → Option Bytes) (tcp tcp6 : Option Bytes)
    (processes : List ProcessLinks)
    → list_tcp_connections inet_ntop tcp tcp6 processes ≡ expected inet_ntop processes tcp tcp6
unfolding list_tcp_connections read_tcp_file
list_tcp_connections-owned inet_ntop none tcp6 processes = refl
list_tcp_connections-owned inet_ntop (some tcp) tcp6 processes =
    rw (lines-parsed inet_ntop false (drop 1 (lines tcp)), file-table inet_ntop tcp6)
      (ap ok
        (assigned_all processes (table inet_ntop false tcp ++ table_or_empty inet_ntop true tcp6)))
