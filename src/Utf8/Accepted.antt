-- ===== src/Utf8/Accepted.antt =====
-- One round of the loop: what it copies is the encoding of one scalar value, and an encoding at the
-- front is copied whole.
use edge_scpoe.Base.{
  ℕ, suc, ◌+◌, ◌/◌, ◌%◌, ◌≤◌, ◌<◌, ◌≡◌, ◌≢◌, inl, inr, refl, true, [], ◌∷◌, ◌++◌, Option, none,
  some, arith, leb, ltb, ◌==◌, length, take, All, Bool-cases, if_intro, ==_iff, ltb→lt, ltb→le, ◌∙◌,
}
use edge_scpoe.Text.{Bytes}
use edge_scpoe.Utf8.{Lead, lead, continue, in_range, checked, sequence, accepted}
use edge_scpoe.Utf8.Encoding.{IsScalar, encode, IsByte}

in_range-IsScalar : (m v : ℕ) → in_range m v ≡ true → IsScalar v × (m ≤ v)
unfolding in_range
in_range-IsScalar m v h = ground arith

two_bytes :
    (c v : ℕ) (cs : Bytes)
    → c / 32 ≡ 6
    → All IsByte cs
    → continue 1 (c % 32) cs ≡ some v
    → 0x80 ≤ v
    → take 2 (c ∷ cs) ≡ encode v
unfolding continue encode
two_bytes c v [] a b h m = cc
two_bytes c v (d ∷ cs) a b h m = ground arith

three_bytes :
    (c v : ℕ) (cs : Bytes)
    → c / 16 ≡ 14
    → All IsByte cs
    → continue 2 (c % 16) cs ≡ some v
    → 0x800 ≤ v
    → take 3 (c ∷ cs) ≡ encode v
unfolding continue encode
three_bytes c v [] a b h m = cc
three_bytes c v (d ∷ []) a b h m = ground arith
three_bytes c v (d ∷ e ∷ cs) a b h m = ground arith

four_bytes :
    (c v : ℕ) (cs : Bytes)
    → c / 8 ≡ 30
    → All IsByte cs
    → continue 3 (c % 8) cs ≡ some v
    → 0x10000 ≤ v
    → take 4 (c ∷ cs) ≡ encode v
unfolding continue encode
four_bytes c v [] a b h m = cc
four_bytes c v (d ∷ []) a b h m = ground arith
four_bytes c v (d ∷ e ∷ []) a b h m = ground arith
four_bytes c v (d ∷ e ∷ f ∷ cs) a b h m = ground arith

-- What a copying round copies.
pub record Copies (c : ℕ) (cs : Bytes) : Type 0 where
  pub scalar : ℕ
  pub is_scalar : IsScalar scalar
  pub copies : take (accepted c cs) (c ∷ cs) ≡ encode scalar

-- The rounds that a lead byte opens: its payload, its minimum, and the proof for its length.
checked-Copies :
    (n m : ℕ) (c : ℕ) (cs : Bytes) (found : Option ℕ)
    → ((v : ℕ) → found ≡ some v → m ≤ v → take (suc n) (c ∷ cs) ≡ encode v)
    → checked n m found ≢ 0
    → (v : ℕ) × IsScalar v × (take (checked n m found) (c ∷ cs) ≡ encode v)
unfolding checked
checked-Copies n m c cs none same h = absurd (h refl)
checked-Copies n m c cs (some v) same h = elim (Bool-cases (in_range m v)) [
  | inl ok ↦
      let (scalar, above) = in_range-IsScalar m v ok in
      (v, scalar, unfold in_range in rw ok (same v refl above))
  | inr bad ↦ absurd (h (unfold in_range in rw bad))
]

-- What a lead byte promises of the bytes that its loop takes.
abbrev Promises : ℕ → Option Lead → Type 0
Promises c none = Unit {0}
Promises c (some l) =
    (cs : Bytes) (v : ℕ)
    → All IsByte cs
    → continue l.continuations l.code_point cs ≡ some v
    → l.minimum ≤ v
    → take (suc l.continuations) (c ∷ cs) ≡ encode v

lead-Promises : (c : ℕ) → Promises c (lead c)
unfolding lead
lead-Promises c =
    if_intro (Promises c) (c / 32 == 6) _ _
      (λ e cs v b h m. two_bytes c v cs ((==_iff (c / 32) 6).0 e) b h m)
      λ _.
        if_intro (Promises c) (c / 16 == 14) _ _
          (λ e cs v b h m. three_bytes c v cs ((==_iff (c / 16) 14).0 e) b h m)
          λ _.
            if_intro (Promises c) (c / 8 == 30) _ _
              (λ e cs v b h m. four_bytes c v cs ((==_iff (c / 8) 30).0 e) b h m) λ _. tt

sequence-Copies :
    (c : ℕ) (cs : Bytes) (l : Option Lead)
    → Promises c l
    → All IsByte cs
    → sequence l cs ≢ 0
    → (v : ℕ) × IsScalar v × (take (sequence l cs) (c ∷ cs) ≡ encode v)
unfolding sequence
sequence-Copies c cs none p bytes h = absurd (h refl)
sequence-Copies c cs (some l) p bytes h =
    checked-Copies l.continuations l.minimum c cs (continue l.continuations l.code_point cs)
      (λ v e m. p cs v bytes e m) h

ascii-Copies : (c : ℕ) → c < 128 → IsScalar c × (take 1 (c ∷ []) ≡ encode c)
unfolding encode
ascii-Copies c h = ground arith

-- Whatever a round copies is the encoding of one scalar value.
pub accepted-Copies : (c : ℕ) (cs : Bytes) → All IsByte cs → accepted c cs ≢ 0 → Copies c cs
accepted-Copies c cs bytes h = elim (Bool-cases (leb 128 c)) [
  | inl big ↦
      let e : accepted c cs ≡ sequence (lead c) cs = unfold accepted in rw big in
      let (v, scalar, same) =
        sequence-Copies c cs (lead c) (lead-Promises c) bytes (λ z. h (e ∙ z)) in
      record { scalar = v; is_scalar = scalar; copies = rw e same }
  | inr ascii ↦
      let e : accepted c cs ≡ 1 = unfold accepted in rw ascii in
      let (scalar, same) = ascii-Copies c (ground arith) in
      record { scalar = c; is_scalar = scalar; copies = rw e same }
]

accepted_one : (v : ℕ) (rest : Bytes) → v < 0x80 → accepted v rest ≡ 1
unfolding accepted
accepted_one v rest h = ground arith

accepted_two :
    (v : ℕ) (rest : Bytes)
    → 0x80 ≤ v
    → v < 0x800
    → accepted (0xC0 + v / 64) ((0x80 + v % 64) ∷ rest) ≡ 2
unfolding accepted lead sequence continue checked in_range
accepted_two v rest lo hi = ground arith

accepted_three :
    (v : ℕ) (rest : Bytes)
    → IsScalar v
    → 0x800 ≤ v
    → v < 0x10000
    → accepted (0xE0 + v / 4096) ((0x80 + v / 64 % 64) ∷ (0x80 + v % 64) ∷ rest) ≡ 3
unfolding accepted lead sequence continue checked in_range
accepted_three v rest s lo hi = ground arith

accepted_four :
    (v : ℕ) (rest : Bytes)
    → IsScalar v
    → 0x10000 ≤ v
    → accepted
        (0xF0 + v / 262144)
        ((0x80 + v / 4096 % 64) ∷ (0x80 + v / 64 % 64) ∷ (0x80 + v % 64) ∷ rest)
      ≡ 4
unfolding accepted lead sequence continue checked in_range
accepted_four v rest s lo = ground arith

-- An encoding in front of a text: what the loop sees there, and how much of it a round takes.
abbrev pub Front : Bytes → Bytes → Type 0
Front e rest = (c : ℕ) × (cs : Bytes) × (e ≡ c ∷ cs) × (accepted c (cs ++ rest) ≡ length e)

-- An encoding at the front is copied whole, whatever follows.
pub encode-Front : (v : ℕ) (rest : Bytes) → IsScalar v → Front (encode v) rest
unfolding encode
encode-Front v rest s =
    if_intro (λ e. Front e rest) (ltb v 0x80) _ _
      (λ h. (v, [], refl, accepted_one v rest (ltb→lt v 0x80 h)))
      λ one.
        if_intro (λ e. Front e rest) (ltb v 0x800) _ _
          (λ h. (_, _, refl, accepted_two v rest (ltb→le v 0x80 one) (ltb→lt v 0x800 h)))
          λ two.
            if_intro (λ e. Front e rest) (ltb v 0x10000) _ _
              (λ h. (_, _, refl, accepted_three v rest s (ltb→le v 0x800 two) (ltb→lt v 0x10000 h)))
              λ three. (_, _, refl, accepted_four v rest s (ltb→le v 0x10000 three))
