-- ===== src/Network/Interfaces.antt =====
-- `GetInterfaces`, over what `getifaddrs` lists and the files of /sys/class/net.
use edge_scpoe.Base.{
  ℕ, Bool, true, false, ◌&&◌, ◌||◌, List, [], ◌∷◌, ◌++◌, Option, none, some, ltb, ◌==◌,
  if◌then◌else◌, map, null,
}
use edge_scpoe.Base.Results.{Result, ok, err}
use edge_scpoe.Text.{Bytes, codes, lines, equal}
use edge_scpoe.Text.Numbers.{read_u64}

pub record NetworkInterfaceInfo : Type 0 where
  pub name : Bytes
  pub ipv4_addresses : List Bytes
  pub ipv6_addresses : List Bytes
  pub rx_bytes : ℕ
  pub tx_bytes : ℕ
  pub state : Bytes

-- `ifa_addr`: none, an address of one of the two families, or of another.
pub data SocketAddress : Type 0 where
  no_address other_family : SocketAddress
  ipv4 ipv6 : Bytes → SocketAddress

-- An entry of the list; the name may be missing.
pub record AddressEntry : Type 0 where
  pub name : Option Bytes
  pub address : SocketAddress

unfoldable pub new_interface : Bytes → NetworkInterfaceInfo
new_interface name = record {
  name = name;
  ipv4_addresses = [];
  ipv6_addresses = [];
  rx_bytes = 0;
  tx_bytes = 0;
  state = [];
}

-- The order of `std::string`.
unfoldable pub less : Bytes → Bytes → Bool
less s [] = false
less [] (d ∷ t) = true
less (c ∷ s) (d ∷ t) = ltb c d || c == d && less s t

-- `by_name[name]`, changed by `change`: the entry is made where it is missing, and the keys stay sorted.
unfoldable pub update_named :
    Bytes
    → (NetworkInterfaceInfo → NetworkInterfaceInfo)
    → List NetworkInterfaceInfo
    → List NetworkInterfaceInfo
unfolding new_interface
update_named name change [] = change (new_interface name) ∷ []
update_named name change (i ∷ rest) =
    if equal name i.name
    then change i ∷ rest
    else if less name i.name
    then change (new_interface name) ∷ i ∷ rest
    else i ∷ update_named name change rest

unfoldable pub add_ipv4 : Option Bytes → NetworkInterfaceInfo → NetworkInterfaceInfo
add_ipv4 none i = i
add_ipv4 (some text) i = record i { ipv4_addresses = i.ipv4_addresses ++ text ∷ [] }

unfoldable pub add_ipv6 : Option Bytes → NetworkInterfaceInfo → NetworkInterfaceInfo
add_ipv6 none i = i
add_ipv6 (some text) i = record i { ipv6_addresses = i.ipv6_addresses ++ text ∷ [] }

module _ (inet_ntop : Bool → Bytes → Option Bytes) where
  unfoldable pub add_address : SocketAddress → NetworkInterfaceInfo → NetworkInterfaceInfo
  unfolding add_ipv4 add_ipv6
  add_address no_address i = i
  add_address other_family i = i
  add_address (ipv4 bytes) i = add_ipv4 (inet_ntop false bytes) i
  add_address (ipv6 bytes) i = add_ipv6 (inet_ntop true bytes) i

  unfoldable pub add_named :
      Option Bytes → SocketAddress → List NetworkInterfaceInfo → List NetworkInterfaceInfo
  unfolding update_named add_address
  add_named none a interfaces = interfaces
  add_named (some name) a interfaces = update_named name (add_address a) interfaces

  unfoldable pub by_name : List AddressEntry → List NetworkInterfaceInfo → List NetworkInterfaceInfo
  unfolding add_named
  by_name [] interfaces = interfaces
  by_name (e ∷ rest) interfaces = by_name rest (add_named e.name e.address interfaces)

-- The first line of a file, which may be missing, and a counter that it holds.
unfoldable pub first_of : List Bytes → Bytes
first_of [] = []
first_of (line ∷ rest) = line

unfoldable pub read_text_file : Option Bytes → Bytes
unfolding first_of
read_text_file none = []
read_text_file (some text) = first_of (lines text)

unfoldable pub counted : Option (ℕ × Bytes) → ℕ
counted none = 0
counted (some (value, rest)) = value

unfoldable pub read_counter : Option Bytes → ℕ
unfolding counted
read_counter none = 0
read_counter (some text) = counted (read_u64 text)

module _ (files : Bytes → Option Bytes) where
  abbrev statistic : Bytes → Bytes → ℕ
  statistic name key =
      read_counter (files (codes "/sys/class/net/" ++ name ++ codes "/statistics/" ++ key))

  unfoldable pub with_counters : NetworkInterfaceInfo → NetworkInterfaceInfo
  unfolding read_counter read_text_file
  with_counters i =
      let state =
        read_text_file (files (codes "/sys/class/net/" ++ i.name ++ codes "/operstate")) in
      record i {
        rx_bytes = statistic i.name (codes "rx_bytes");
        tx_bytes = statistic i.name (codes "tx_bytes");
        state = if null state then codes "unknown" else state;
      }

-- `GetInterfaces`; `entries` is the list, or the text of the error.
unfoldable pub get_interfaces :
    (Bool → Bytes → Option Bytes)
    → (Bytes → Option Bytes)
    → Result Bytes (List AddressEntry)
    → Result Bytes (List NetworkInterfaceInfo)
unfolding by_name with_counters
get_interfaces inet_ntop files (err text) = err (codes "getifaddrs failed: " ++ text)
get_interfaces inet_ntop files (ok entries) =
    ok (map (with_counters files) (by_name inet_ntop entries []))
