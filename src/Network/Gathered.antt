-- ===== src/Network/Gathered.antt =====
-- agent/src/NetworkCollector.cpp: what `GetInterfaces` gathers under one name.
use edge_scpoe.Base.{◌≡◌, Bool, true, false, List, [], ◌∷◌, ◌++◌, Option, none, some, if◌then◌else◌}
use edge_scpoe.Base.Results.{Result, ok, err}
use edge_scpoe.Text.{Bytes, equal}
use edge_scpoe.Network.Interfaces.{
  NetworkInterfaceInfo, SocketAddress, ipv4, ipv6, AddressEntry, new_interface, add_address,
  with_counters,
}
use edge_scpoe.Network.ByName.{Ascends, named, or_new}

abbrev or_none : Option Bytes → List Bytes
or_none none = []
or_none (some text) = text ∷ []

abbrev pub is_named : Bytes → Option Bytes → Bool
is_named x none = false
is_named x (some n) = equal x n

module _ (inet_ntop : Bool → Bytes → Option Bytes) where
  -- The texts of the addresses of one family.
  abbrev pub texts : Bool → SocketAddress → List Bytes
  texts false (ipv4 bytes) = or_none (inet_ntop false bytes)
  texts true (ipv6 bytes) = or_none (inet_ntop true bytes)
  texts _ _ = []

  -- Those of the entries under a name, in order.
  abbrev pub texts_under : Bool → Bytes → List AddressEntry → List Bytes
  texts_under family x [] = []
  texts_under family x (e ∷ rest) =
      (if is_named x e.name then texts family e.address else []) ++ texts_under family x rest

  abbrev pub occurs : Bytes → List AddressEntry → Bool
  occurs x [] = false
  occurs x (e ∷ rest) = if is_named x e.name then true else occurs x rest

  -- An interface with more addresses.
  abbrev extended : List Bytes → List Bytes → NetworkInterfaceInfo → NetworkInterfaceInfo
  extended v4 v6 i = record i {
    ipv4_addresses = i.ipv4_addresses ++ v4;
    ipv6_addresses = i.ipv6_addresses ++ v6;
  }

  -- What the entries under a name should give.
  abbrev pub gathered : Bytes → List AddressEntry → Option NetworkInterfaceInfo
  gathered x entries =
      if occurs x entries
      then some
          (extended (texts_under false x entries) (texts_under true x entries) (new_interface x))
      else none

  -- One entry, as the name sees it.
  abbrev seen : Bytes → AddressEntry → Option NetworkInterfaceInfo → Option NetworkInterfaceInfo
  seen x e o = if is_named x e.name then some (add_address inet_ntop e.address (or_new x o)) else o

  abbrev all_seen :
      Bytes → List AddressEntry → Option NetworkInterfaceInfo → Option NetworkInterfaceInfo
  all_seen x [] o = o
  all_seen x (e ∷ rest) o = all_seen x rest (seen x e o)

module _ (files : Bytes → Option Bytes) where
  abbrev pub counted_up : Option NetworkInterfaceInfo → Option NetworkInterfaceInfo
  counted_up none = none
  counted_up (some i) = some (with_counters files i)

  -- The answer of `GetInterfaces`, as far as one name goes.
  abbrev pub Gathers :
      (Bool → Bytes → Option Bytes)
      → Bytes
      → Result Bytes (List AddressEntry)
      → Result Bytes (List NetworkInterfaceInfo)
      → Type 0
  Gathers inet_ntop x (err e) (err message) = Unit
  Gathers inet_ntop x (err e) (ok is) = ⊥
  Gathers inet_ntop x (ok entries) (err message) = ⊥
  Gathers inet_ntop x (ok entries) (ok is) =
      Ascends is × (named x is ≡ counted_up (gathered inet_ntop x entries))
