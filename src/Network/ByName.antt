-- ===== src/Network/ByName.antt =====
-- The interfaces are grouped by name, in the order of the names.
use edge_scpoe.Base.{
  ◌≡◌, refl, subst, sym, Bool, true, false, List, [], ◌∷◌, Option, none, some, map, arith, All,
  if_intro, ap, ◌∙◌, Bool-cases, inl, inr, if◌then◌else◌,
}
use mathlib.Core.Bool.{false≢true}
use edge_scpoe.Text.Laws.{equal_iff, equal_refl}
use edge_scpoe.Text.{Bytes, equal}
use edge_scpoe.Network.Interfaces.{
  NetworkInterfaceInfo, SocketAddress, no_address, other_family, ipv4, ipv6, AddressEntry,
  new_interface, less, update_named, add_ipv4, add_ipv6, add_address, add_named, by_name,
  with_counters,
}

less_trans : (s t u : Bytes) → less s t ≡ true → less t u ≡ true → less s u ≡ true
unfolding less
less_trans s [] u h k = cc
less_trans s (d ∷ t) [] h k = cc
less_trans [] (d ∷ t) (e ∷ u) h k = refl
less_trans (c ∷ s) (d ∷ t) (e ∷ u) h k = let rest = less_trans s t u in ground arith

less_total : (s t : Bytes) → equal s t ≡ false → less s t ≡ false → less t s ≡ true
unfolding less equal
less_total [] [] e h = cc
less_total [] (d ∷ t) e h = cc
less_total (c ∷ s) [] e h = refl
less_total (c ∷ s) (d ∷ t) e h = let rest = less_total s t in ground arith

-- Every name of the list is behind `name`.
abbrev Behind : Bytes → List NetworkInterfaceInfo → Type 0
Behind name = All (λ (i : NetworkInterfaceInfo). less name i.name ≡ true)

-- Each name stands once, and the names ascend.
abbrev pub Ascends : List NetworkInterfaceInfo → Type 0
Ascends [] = Unit
Ascends (i ∷ rest) = Behind i.name rest × Ascends rest

-- A change that leaves the name.
abbrev pub KeepsName : (NetworkInterfaceInfo → NetworkInterfaceInfo) → Type 0
KeepsName change = (i : NetworkInterfaceInfo) → (change i).name ≡ i.name

Behind-lower :
    (m n : Bytes) (is : List NetworkInterfaceInfo) → less m n ≡ true → Behind n is → Behind m is
Behind-lower m n [] h b = tt
Behind-lower m n (i ∷ is) h b = (less_trans m n i.name h b.0, Behind-lower m n is h b.1)

update-Behind :
    (m name : Bytes) (change : NetworkInterfaceInfo → NetworkInterfaceInfo)
    (is : List NetworkInterfaceInfo)
    → KeepsName change
    → less m name ≡ true
    → Behind m is
    → Behind m (update_named name change is)
unfolding update_named new_interface
update-Behind m name change [] k h b = (rw (k (new_interface name)) h, tt)
update-Behind m name change (i ∷ is) k h b =
    if_intro (Behind m) (equal name i.name) _ _ (λ _. (rw (k i) (b.0), b.1))
      λ _.
        if_intro (Behind m) (less name i.name) _ _ (λ _. (rw (k (new_interface name)) h, b))
          λ _. (b.0, update-Behind m name change is k h b.1)

update-Ascends :
    (name : Bytes) (change : NetworkInterfaceInfo → NetworkInterfaceInfo)
    (is : List NetworkInterfaceInfo)
    → KeepsName change
    → Ascends is
    → Ascends (update_named name change is)
unfolding update_named new_interface
update-Ascends name change [] k a = (tt, tt)
update-Ascends name change (i ∷ is) k a =
    if_intro Ascends (equal name i.name) _ _
      (λ _. (subst (λ n. Behind n is) (sym (k i)) (a.0), a.1))
      λ other.
        if_intro Ascends (less name i.name) _ _
          (λ before.
            let front = k (new_interface name) in
            (
              subst (λ n. Behind n (i ∷ is)) (sym front)
                  (before, Behind-lower name i.name is before a.0),
              a,
            ))
          λ behind. (
            update-Behind i.name name change is k (less_total name i.name other behind) a.0,
            update-Ascends name change is k a.1,
          )

module _ (inet_ntop : Bool → Bytes → Option Bytes) where
  pub add_address-KeepsName : (a : SocketAddress) → KeepsName (add_address inet_ntop a)
  unfolding add_address
  add_address-KeepsName no_address i = refl
  add_address-KeepsName other_family i = refl
  add_address-KeepsName (ipv4 bytes) i = added (inet_ntop false bytes)
    where
      added : (t : Option Bytes) → (add_ipv4 t i).name ≡ i.name
      added none = refl
      added (some text) = refl
  add_address-KeepsName (ipv6 bytes) i = added (inet_ntop true bytes)
    where
      added : (t : Option Bytes) → (add_ipv6 t i).name ≡ i.name
      added none = refl
      added (some text) = refl

  pub add_named-Ascends :
      (name : Option Bytes) (a : SocketAddress) (is : List NetworkInterfaceInfo)
      → Ascends is
      → Ascends (add_named inet_ntop name a is)
  unfolding add_named
  add_named-Ascends none a is s = s
  add_named-Ascends (some name) a is s =
      update-Ascends name (add_address inet_ntop a) is (add_address-KeepsName a) s

  pub by_name-Ascends :
      (entries : List AddressEntry) (is : List NetworkInterfaceInfo)
      → Ascends is
      → Ascends (by_name inet_ntop entries is)
  unfolding by_name
  by_name-Ascends [] is s = s
  by_name-Ascends (e ∷ rest) is s =
      by_name-Ascends rest (add_named inet_ntop e.name e.address is)
        (add_named-Ascends e.name e.address is s)

counters-Behind :
    (files : Bytes → Option Bytes) (m : Bytes) (is : List NetworkInterfaceInfo)
    → Behind m is
    → Behind m (map (with_counters files) is)
unfolding with_counters
counters-Behind files m [] b = tt
counters-Behind files m (i ∷ is) b = (b.0, counters-Behind files m is b.1)

pub counters-Ascends :
    (files : Bytes → Option Bytes) (is : List NetworkInterfaceInfo)
    → Ascends is
    → Ascends (map (with_counters files) is)
unfolding with_counters
counters-Ascends files [] a = tt
counters-Ascends files (i ∷ is) a =
    (counters-Behind files i.name is a.0, counters-Ascends files is a.1)

-- The interface of a list with a name.
abbrev pub named : Bytes → List NetworkInterfaceInfo → Option NetworkInterfaceInfo
named x [] = none
named x (i ∷ is) = if equal x i.name then some i else named x is

abbrev pub or_new : Bytes → Option NetworkInterfaceInfo → NetworkInterfaceInfo
or_new name none = new_interface name
or_new name (some i) = i

less_irrefl : (s : Bytes) → less s s ≡ false
unfolding less
less_irrefl [] = refl
less_irrefl (c ∷ s) = let rest = less_irrefl s in ground arith

Behind-named : (x : Bytes) (is : List NetworkInterfaceInfo) → Behind x is → named x is ≡ none
Behind-named x [] b = refl
Behind-named x (i ∷ is) b =
    if_intro (λ (o : Option NetworkInterfaceInfo). o ≡ none) (equal x i.name) _ _
      (λ t.
        let same : x ≡ i.name = (equal_iff x i.name).0 t in
        absurd (false≢true (sym (less_irrefl x) ∙ subst (λ n. less x n ≡ true) (sym same) b.0)))
      λ f. Behind-named x is b.1

named-head :
    (x : Bytes) (i : NetworkInterfaceInfo) (is : List NetworkInterfaceInfo)
    → equal x i.name ≡ true
    → named x (i ∷ is) ≡ some i
named-head x i is e = rw e refl

-- The change of one name leaves the others, and makes the interface where it is missing.
module _ (name : Bytes) (change : NetworkInterfaceInfo → NetworkInterfaceInfo)
    (k : KeepsName change) where
  pub named-own :
      (is : List NetworkInterfaceInfo)
      → Ascends is
      → named name (update_named name change is) ≡ some (change (or_new name (named name is)))
  unfolding update_named new_interface
  named-own [] a = rw (k (new_interface name), equal_refl name) refl
  named-own (i ∷ is) a = elim (Bool-cases (equal name i.name)) [
    | inl e ↦ rw e (rw (k i, e) refl)
    | inr e ↦ elim (Bool-cases (less name i.name)) [
      | inl l ↦
          let fresh : named name is ≡ none =
            Behind-named name is (Behind-lower name i.name is l a.0) in
          rw (e, l)
            (named-head name (change (new_interface name)) (i ∷ is)
                (subst (λ n. equal name n ≡ true) (sym (k (new_interface name))) (equal_refl name))
              ∙ ap (λ o. some (change (or_new name o))) (sym fresh))
      | inr l ↦ rw (e, l) (rw e (named-own is a.1))
    ]
  ]

  pub named-other :
      (x : Bytes) (is : List NetworkInterfaceInfo)
      → equal x name ≡ false
      → named x (update_named name change is) ≡ named x is
  unfolding update_named new_interface
  named-other x [] d = rw (k (new_interface name), d) refl
  named-other x (i ∷ is) d = elim (Bool-cases (equal name i.name)) [
    | inl e ↦
        let same : name ≡ i.name = (equal_iff name i.name).0 e in
        let d' : equal x i.name ≡ false = subst (λ n. equal x n ≡ false) same d in
        rw e (rw (k i, d') refl)
    | inr e ↦ elim (Bool-cases (less name i.name)) [
      | inl l ↦ rw (e, l) (rw (k (new_interface name), d) refl)
      | inr l ↦ rw (e, l) (ap (λ o. if equal x i.name then some i else o) (named-other x is d))
    ]
  ]
