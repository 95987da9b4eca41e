-- ===== src/Network/Tests.antt =====
-- Tests of the address parsers.
use edge_scpoe.Base.{◌≡◌, refl, Bool, false, List, [], ◌∷◌, ◌++◌, Option, none, some, arith}
use edge_scpoe.Text.{Bytes, codes, equal, find_char, pieces, starts_with}
use edge_scpoe.Network.{parse_endpoint, tcp_state_name, parse_words, parse_unsigned, digits_value}
use edge_scpoe.Base.Results.{ok}
use edge_scpoe.Text.Numbers.{read_word}
use edge_scpoe.Network.Tcp.{ProcessLinks, list_tcp_connections, socket_inode}
use edge_scpoe.Network.Owners.{expected, list_tcp_connections-owned}
use edge_scpoe.Network.Interfaces.{
  AddressEntry, ipv4, ipv6, no_address, by_name, new_interface, less,
}
use edge_scpoe.Network.Endpoint.{hex_words, hex_port, parse_endpoint-hex_words}

-- Writes the bytes as they are.
abbrev plain : Bool → Bytes → Option Bytes
plain six bytes = some bytes

abbrev localhost : Bytes
localhost = 127 ∷ 0 ∷ 0 ∷ 1 ∷ []

loopback : parse_endpoint plain (codes "0100007F:1F90") false ≡ some (localhost, 8080)
unfolding parse_endpoint find_char parse_unsigned digits_value parse_words
loopback = refl

listening : tcp_state_name (codes "0A") ≡ codes "LISTEN"
unfolding tcp_state_name equal
listening = refl

parse_endpoint-hex_words_example :
    parse_endpoint plain (hex_words localhost ++ b':' ∷ hex_port 8080) false
    ≡ some (localhost, 8080)
parse_endpoint-hex_words_example =
    parse_endpoint-hex_words plain false localhost 8080 localhost
      (omega arith, omega arith, omega arith, omega arith, tt) (omega arith) refl

abbrev tcp_text : Bytes
tcp_text =
    codes
      "  sl  local_address rem_address   st\n   0: 0100007F:1F90 00000000:0000 0A 00000000:00000000 00:00000000 00000000     0        0 77 1\n"

abbrev holders : List ProcessLinks
holders =
    record { directory = codes "self"; links = some (codes "socket:[77]") ∷ [] }
    ∷ record { directory = codes "12"; links = none ∷ some (codes "socket:[77]") ∷ [] }
    ∷ record { directory = codes "13"; links = some (codes "socket:[77]") ∷ [] }
    ∷ []

listening_owner :
    list_tcp_connections plain (some tcp_text) none holders
    ≡ ok (
        record {
          protocol = codes "tcp4";
          local_address = localhost;
          local_port = 8080;
          remote_address = 0 ∷ 0 ∷ 0 ∷ 0 ∷ [];
          remote_port = 0;
          state = codes "LISTEN";
          inode = 77;
          pid = 12;
        }
        ∷ [])
unfolding list_tcp_connections socket_inode parse_endpoint find_char parse_unsigned digits_value
    parse_words tcp_state_name equal read_word pieces starts_with
listening_owner = refl

list_tcp_connections-owned_example :
    list_tcp_connections plain (some tcp_text) none holders
    ≡ expected plain holders (some tcp_text) none
list_tcp_connections-owned_example = list_tcp_connections-owned plain (some tcp_text) none holders

abbrev addresses : List AddressEntry
addresses =
    record { name = some (codes "lo"); address = ipv4 localhost }
    ∷ record { name = some (codes "eth0"); address = no_address }
    ∷ record { name = some (codes "lo"); address = ipv6 (1 ∷ []) }
    ∷ []

abbrev no_files : Bytes → Option Bytes
no_files path = none

interface_names :
    by_name plain addresses []
    ≡ new_interface (codes "eth0")
      ∷ record (new_interface (codes "lo")) {
        ipv4_addresses = localhost ∷ [];
        ipv6_addresses = (1 ∷ []) ∷ [];
      }
      ∷ []
unfolding by_name new_interface equal less
interface_names = refl
