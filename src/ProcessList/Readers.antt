-- ===== src/ProcessList/Readers.antt =====
-- The ranges of the numbers that the readers of /proc return.
use edge_scpoe.Base.{
  ℕ, ◌/◌, ◌≤◌, ◌≡◌, refl, subst, Bool, true, false, not, ◌&&◌, ◌||◌, Option, none, some, leb, ltb,
  arith, if_intro,
}
use edge_scpoe.Base.Int.{ℤ, pos, negsuc}
use edge_scpoe.Base.Results
use edge_scpoe.Base.Results.{
  Result, ok, err, Ensures, Ensures-then, Ensures-unless, or_fail, fail_if,
}
use edge_scpoe.Text.{Bytes, equal, codes}
use edge_scpoe.Text.Numbers.{
  ◌>>=◌, max_u64, max_u32, max_i32, read_u64, read_i64, scan_integer, as_u64, read_word, read_char,
}
use edge_scpoe.ProcessList.Stat.{within, read_within, read_state, read_ticks, read_threads}
use edge_scpoe.ProcessList.Status.{parse_kilobyte_field, parse_threads, io_read, bytes_per_kilobyte}

-- A postcondition of a reader that may fail.
abbrev pub Gives {ℓ κ} : {A : Type ℓ} → (A → Type κ) → Option A → Type κ
Gives P none = Unit
Gives P (some a) = P a

pub Gives-then {ℓ κ μ} :
    {A : Type ℓ} {B : Type κ} (P : B → Type μ) (m : Option A) (next : A → Option B)
    → ((a : A) → m ≡ some a → Gives P (next a))
    → Gives P (m >>= next)
Gives-then P none next h = tt
Gives-then P (some a) next h = h a refl

pub Gives-some {ℓ κ} :
    {A : Type ℓ} (P : A → Type κ) (m : Option A) {a : A} → Gives P m → m ≡ some a → P a
Gives-some P (some b) {a} h e = let same : b ≡ a = cc in subst P same h
Gives-some P none h e = cc

pub as_u64-bounds : (negative : Bool) (n : ℕ) → Gives (λ v. v ≤ max_u64) (as_u64 negative n)
unfolding as_u64
as_u64-bounds true n =
    if_intro (Gives (λ v. v ≤ max_u64)) (ltb max_u64 n) _ _ (λ _. tt) λ _. omega arith
as_u64-bounds false n =
    if_intro (Gives (λ v. v ≤ max_u64)) (ltb max_u64 n) _ _ (λ _. tt) λ low. ground arith

pub read_u64-bounds : (s : Bytes) → Gives (λ (r : ℕ × Bytes). r.0 ≤ max_u64) (read_u64 s)
unfolding read_u64
read_u64-bounds s = Gives-then _ (scan_integer s) _ λ (negative, n, rest) _.
    Gives-then _ (as_u64 negative n) _
      λ v e. Gives-some _ (as_u64 negative n) (as_u64-bounds negative n) e

pub within-bounds : (low high : ℕ) (z : ℤ) → Gives (λ n. (low ≤ n) × (n ≤ high)) (within low high z)
unfolding within
within-bounds low high (pos n) =
    if_intro (Gives (λ n. (low ≤ n) × (n ≤ high))) (leb low n && leb n high) _ _ (λ h. ground arith)
      λ _. tt
within-bounds low high (negsuc n) = tt

pub read_within-bounds :
    (low high : ℕ) (s : Bytes)
    → Gives (λ (r : ℕ × Bytes). (low ≤ r.0) × (r.0 ≤ high)) (read_within low high s)
unfolding read_within
read_within-bounds low high s = Gives-then _ (read_i64 s) _ λ (z, rest) _.
    Gives-then _ (within low high z) _ λ n e.
      Gives-some (λ n. (low ≤ n) × (n ≤ high)) (within low high z) (within-bounds low high z) e

pub ltb-false : (a b : ℕ) → ltb a b ≡ false → b ≤ a
ltb-false a b h = ground arith

pub read_ticks-bounds : (s : Bytes) → Gives (λ (r : ℕ × ℕ × Bytes). r.1 ≤ max_u64) (read_ticks s)
unfolding read_ticks
read_ticks-bounds s = Gives-then _ (read_u64 s) _ λ (user, rest) _.
    Gives-then _ (read_u64 rest) _ λ (system, rest') e.
      Gives-some (λ (r : ℕ × Bytes). r.0 ≤ max_u64) (read_u64 rest) (read_u64-bounds rest) e

pub read_threads-bounds :
    (s : Bytes) → Gives (λ (r : ℕ × ℕ). (r.0 ≤ max_u32) × (r.1 ≤ max_u64)) (read_threads s)
unfolding read_threads
read_threads-bounds s = Gives-then _ (read_u64 s) _ λ (threads, rest) _.
    Gives-then _ (read_i64 rest) _ λ (timer, rest') _.
      Gives-then _ (read_u64 rest') _ λ (start, rest'') e.
        let low : start ≤ max_u64 =
          Gives-some (λ (r : ℕ × Bytes). r.0 ≤ max_u64) (read_u64 rest') (read_u64-bounds rest')
            e in
        if_intro (Gives (λ (r : ℕ × ℕ). (r.0 ≤ max_u32) × (r.1 ≤ max_u64))) (ltb max_u32 threads) _
          _ (λ _. tt) λ few. (ltb-false max_u32 threads few, low)

pub read_state-bounds : (s : Bytes) → Gives (λ (r : ℕ × ℕ × Bytes). r.1 ≤ max_i32) (read_state s)
unfolding read_state
read_state-bounds s = Gives-then _ (read_char s) _ λ (c, rest) _.
    Gives-then _ (read_within 0 max_i32 rest) _ λ (n, rest') e.
      (Gives-some (λ (r : ℕ × Bytes). (0 ≤ r.0) × (r.0 ≤ max_i32)) _
        (read_within-bounds 0 max_i32 rest) e).1

pub or_fail-Gives {ℓ κ μ} :
    {A : Type ℓ} {B : Type κ} (P : B → Type μ) (Q : A → Type 0) (o : Option A) (e : Bytes)
    (next : A → Result Bytes B)
    → Gives Q o
    → ((a : A) → Q a → Ensures P (next a))
    → Ensures P (Results.◌>>=◌ (or_fail o e) next)
or_fail-Gives P Q none e next g h = tt
or_fail-Gives P Q (some a) e next g h = h a g

pub always {ℓ} : {A : Type ℓ} (o : Option A) → Gives (λ (_ : A). Unit {0}) o
always none = tt
always (some a) = tt

pub parse_kilobyte_field-bounds :
    (line key : Bytes) → Gives (λ n. n ≤ max_u64) (parse_kilobyte_field line key)
unfolding parse_kilobyte_field
parse_kilobyte_field-bounds line key = Gives-then _ (read_word line) _ λ (k, rest) _.
    Gives-then _ (read_u64 rest) _ λ (value, rest') _.
      Gives-then _ (read_word rest') _ λ (unit, rest'') _.
        if_intro (Gives (λ n. n ≤ max_u64))
          (not (equal k key)
            || not (equal unit (codes "kB"))
            || ltb (max_u64 / bytes_per_kilobyte) value)
          _ _ (λ _. tt) λ fits. ground (arith, fits)

pub parse_threads-bounds : (line : Bytes) → Gives (λ n. n ≤ max_u32) (parse_threads line)
unfolding parse_threads
parse_threads-bounds line = Gives-then _ (read_word line) _ λ (k, rest) _.
    Gives-then _ (read_u64 rest) _ λ (threads, rest') _.
      if_intro (Gives (λ n. n ≤ max_u32)) (not (equal k (codes "Threads:")) || ltb max_u32 threads)
        _ _ (λ _. tt) λ fits. ground (arith, fits)

pub io_read-bounds : (s : Bytes) → Gives (λ (r : Bytes × ℕ × Bytes). r.1 ≤ max_u64) (io_read s)
unfolding io_read
io_read-bounds s = Gives-then _ (read_word s) _ λ (key, rest) _.
    Gives-then _ (read_u64 rest) _ λ (value, rest') e.
      Gives-some (λ (r : ℕ × Bytes). r.0 ≤ max_u64) (read_u64 rest) (read_u64-bounds rest) e
