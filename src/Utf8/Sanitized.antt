-- ===== src/Utf8/Sanitized.antt =====
-- The whole loop: its output is UTF-8, and UTF-8 passes unchanged.
use edge_scpoe.Base.{
  ℕ, zero, suc, ◌*◌, ◌≤◌, ◌<◌, ◌≡◌, refl, ap, ◌∙◌, List, [], ◌∷◌, ◌++◌, arith, ◌==◌, if_intro,
  length, take, drop, All, length-append, take-append-drop, take-length, drop-length, All-drop,
}
use edge_scpoe.Text.{Bytes}
use edge_scpoe.Utf8.{replacement, accepted, sanitize, sanitize_utf8}
use edge_scpoe.Utf8.Encoding.{IsScalar, encode, encode_all, IsUtf8, IsByte}
use edge_scpoe.Utf8.Accepted.{accepted-Copies, Front, encode-Front}

IsUtf8-nil : IsUtf8 []
IsUtf8-nil = record { scalars = []; all_scalar = tt; encodes = refl }

IsUtf8-cons : (v : ℕ) (s : Bytes) → IsScalar v → IsUtf8 s → IsUtf8 (encode v ++ s)
IsUtf8-cons v s h u = record {
  scalars = v ∷ u.scalars;
  all_scalar = (h, u.all_scalar);
  encodes = ap (◌++◌ (encode v)) u.encodes;
}

-- The replacement is the encoding of U+FFFD.
IsUtf8-replacement : (s : Bytes) → IsUtf8 s → IsUtf8 (replacement ++ s)
unfolding encode
IsUtf8-replacement s = IsUtf8-cons 0xFFFD s (omega arith)

sanitize-IsUtf8 : (fuel : ℕ) (s : Bytes) → All IsByte s → IsUtf8 (sanitize fuel s)
unfolding sanitize
sanitize-IsUtf8 zero s h = IsUtf8-nil
sanitize-IsUtf8 (suc f) [] h = IsUtf8-nil
sanitize-IsUtf8 (suc f) (c ∷ cs) h =
    if_intro IsUtf8 (accepted c cs == 0) _ _
      (λ bad. IsUtf8-replacement (sanitize f cs) (sanitize-IsUtf8 f cs h.1))
      λ good.
        let copied = accepted-Copies c cs h.1 (ground arith) in
        rw copied.copies (
          IsUtf8-cons copied.scalar _ copied.is_scalar (
            sanitize-IsUtf8 f (drop (accepted c cs) (c ∷ cs))
              (All-drop IsByte (accepted c cs) (c ∷ cs) h)))

-- On any bytes the output is well-formed UTF-8.
pub sanitize_utf8-IsUtf8 : (s : Bytes) → All IsByte s → IsUtf8 (sanitize_utf8 s)
unfolding sanitize_utf8
sanitize_utf8-IsUtf8 s = sanitize-IsUtf8 (length s) s

sanitize_copy :
    (f c n : ℕ) (cs : Bytes)
    → accepted c cs ≡ suc n
    → sanitize (suc f) (c ∷ cs) ≡ take (suc n) (c ∷ cs) ++ sanitize f (drop (suc n) (c ∷ cs))
unfolding sanitize
sanitize_copy f c n cs h = rw h (ground arith)

-- A round on a text with an encoding in front takes the encoding.
sanitize-Front :
    (f : ℕ) (e rest : Bytes) → Front e rest → sanitize (suc f) (e ++ rest) ≡ e ++ sanitize f rest
sanitize-Front f e rest (c, cs, shape, n) =
    let n' : accepted c (cs ++ rest) ≡ suc (length cs) = n ∙ ap length shape in
    rw (shape, sanitize_copy f c (length cs) (cs ++ rest) n', take-length, drop-length)

Front-length : (e rest : Bytes) → Front e rest → 0 < length e
Front-length e rest (c, cs, shape, n) = omega (arith, ap length shape)

sanitize-encode_all :
    (fuel : ℕ) (vs : List ℕ)
    → All IsScalar vs
    → length (encode_all vs) ≤ fuel
    → sanitize fuel (encode_all vs) ≡ encode_all vs
sanitize-encode_all zero [] h le = unfold sanitize in refl
sanitize-encode_all (suc f) [] h le = unfold sanitize in refl
sanitize-encode_all zero (v ∷ vs) h le = absurd (
    omega (
      arith,
      Front-length (encode v) (encode_all vs) (encode-Front v (encode_all vs) h.0),
      length-append (encode v) (encode_all vs),
    ))
sanitize-encode_all (suc f) (v ∷ vs) h le =
    let front = encode-Front v (encode_all vs) h.0 in
    let fits : length (encode_all vs) ≤ f = omega (
      arith,
      Front-length (encode v) (encode_all vs) front,
      length-append (encode v) (encode_all vs),
    ) in
    sanitize-Front f (encode v) (encode_all vs) front
    ∙ ap (◌++◌ (encode v)) (sanitize-encode_all f vs h.1 fits)

-- Text that is UTF-8 already passes unchanged.
pub sanitize_utf8-id : (s : Bytes) → IsUtf8 s → sanitize_utf8 s ≡ s
unfolding sanitize_utf8
sanitize_utf8-id s u = rw (u.encodes) (sanitize-encode_all _ u.scalars u.all_scalar (omega arith))

-- A second pass changes nothing.
pub sanitize_utf8_idem :
    (s : Bytes) → All IsByte s → sanitize_utf8 (sanitize_utf8 s) ≡ sanitize_utf8 s
sanitize_utf8_idem s h = sanitize_utf8-id (sanitize_utf8 s) (sanitize_utf8-IsUtf8 s h)

length-sanitize : (fuel : ℕ) (s : Bytes) → length (sanitize fuel s) ≤ 3 * length s
unfolding sanitize
length-sanitize zero s = omega arith
length-sanitize (suc f) [] = omega arith
length-sanitize (suc f) (c ∷ cs) =
    let n = accepted c cs in
    if_intro (λ (r : Bytes). length r ≤ 3 * length (c ∷ cs)) (n == 0) _ _
      (λ bad. omega (arith, length-sanitize f cs))
      λ good. omega (
        arith,
        length-append (take n (c ∷ cs)) (sanitize f (drop n (c ∷ cs))),
        length-sanitize f (drop n (c ∷ cs)),
        ap length (take-append-drop n (c ∷ cs)),
        length-append (take n (c ∷ cs)) (drop n (c ∷ cs)),
      )

-- A text grows to three times its length at most.
pub length-sanitize_utf8 : (s : Bytes) → length (sanitize_utf8 s) ≤ 3 * length s
unfolding sanitize_utf8
length-sanitize_utf8 s = length-sanitize (length s) s
