-- ===== src/Bundles/Names.antt =====
-- The sequence number of a bundle is in its id and in its path, so that names do not repeat.
use mathlib.Core.Option
use edge_scpoe.Base.{
  ℕ, ◌≡◌, refl, subst, Bool, true, false, [], ◌∷◌, ◌++◌, Option, none, some, ◌==◌, All, arith,
  append_assoc, append-nil,
}
use edge_scpoe.Text.{Bytes, codes, is_digit}
use edge_scpoe.Text.Numbers.{take_digits, magnitude}
use edge_scpoe.Text.Decimal.{
  Digits, to_string, magnitude-to_string, to_string-Digits, take_digits-append, take_digits-all,
}
use edge_scpoe.Bundles.Create.{bundle_id, archive_name, archive_path}

-- What is behind the last dash.
behind : Bool → Bytes → Option Bytes → Option Bytes
behind dash s (some t) = some t
behind true s none = some s
behind false s none = none

unfoldable pub after_dash : Bytes → Option Bytes
unfolding behind
after_dash [] = none
after_dash (c ∷ s) = behind (c == b'-') s (after_dash s)

-- A text without a dash.
abbrev Dashless : Bytes → Type 0
Dashless = All (λ c. (c == b'-') ≡ false)

after_dash-Dashless : (s : Bytes) → Dashless s → after_dash s ≡ none
unfolding after_dash behind
after_dash-Dashless [] h = refl
after_dash-Dashless (c ∷ s) h = rw (after_dash-Dashless s h.1, h.0) refl

after_dash-append : (s t : Bytes) → Dashless t → after_dash (s ++ b'-' ∷ t) ≡ some t
unfolding after_dash behind
after_dash-append [] t h = rw (after_dash-Dashless t h) refl
after_dash-append (c ∷ s) t h = rw (after_dash-append s t h) refl

-- The number behind the last dash.
unfoldable pub number_of : Bytes → Option ℕ
unfolding after_dash
number_of s = Option.map (λ t. magnitude (take_digits t)) (after_dash s)

Digits-Dashless : (s t : Bytes) → Digits s → Dashless t → Dashless (s ++ t)
unfolding is_digit
Digits-Dashless [] t h k = k
Digits-Dashless (c ∷ s) t h k = (dashless c h.0, Digits-Dashless s t h.1 k)
  where
    dashless : (d : ℕ) → is_digit d ≡ true → (d == b'-') ≡ false
    dashless d e = ground (arith, e)

after_dash-prefix : (s t u : Bytes) → after_dash t ≡ some u → after_dash (s ++ t) ≡ some u
unfolding after_dash behind
after_dash-prefix [] t u h = h
after_dash-prefix (c ∷ s) t u h = rw (after_dash-prefix s t u h) refl

numbered :
    (timestamp pid : Bytes) (n : ℕ) (end : Bytes)
    → Dashless end
    → after_dash ((timestamp ++ b'-' ∷ pid ++ b'-' ∷ to_string n) ++ end)
      ≡ some (to_string n ++ end)
numbered timestamp pid n end h =
    let front = timestamp ++ b'-' ∷ pid in
    rw (append_assoc front (b'-' ∷ to_string n) end) (
      after_dash-append front (to_string n ++ end)
        (Digits-Dashless (to_string n) end (to_string-Digits n) h))

pub number_of-id : (timestamp pid n : ℕ) → number_of (bundle_id timestamp pid n) ≡ some n
unfolding number_of
number_of-id timestamp pid n =
    let e = numbered (to_string timestamp) (to_string pid) n [] tt in
    let e' =
      subst (λ s. after_dash s ≡ some (to_string n ++ [])) (append-nil (bundle_id timestamp pid n))
        e in
    rw
      (
        e',
        append-nil (to_string n),
        take_digits-all (to_string n) (to_string-Digits n),
        magnitude-to_string n,
      )
      refl

pub number_of-path :
    (root : Bytes) (timestamp pid n : ℕ)
    → number_of (archive_path root (bundle_id timestamp pid n)) ≡ some n
unfolding number_of is_digit
number_of-path root timestamp pid n =
    let end = codes ".tar.gz" in
    let id = bundle_id timestamp pid n in
    let e = after_dash-prefix root (b'/' ∷ archive_name id) _ (
      after_dash-prefix (b'/' ∷ codes "edgescope-diagnostic-") (id ++ end) _
        (numbered (to_string timestamp) (to_string pid) n end (ground arith))) in
    rw
      (
        e,
        take_digits-append (to_string n) b'.' (codes "tar.gz") (to_string-Digits n) refl,
        magnitude-to_string n,
      )
      refl
