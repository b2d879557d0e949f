-- ===== src/Text/Bytes/Base64.antt =====
-- Parts of byte strings, and the round trip of base64.
use Prim.Native.Char.{code}
use go_signing_server_anywhe.Prelude.{
  ℕ, ◌+◌, ◌*◌, ◌/◌, ◌%◌, ◌<◌, String, ◌≡◌, refl, ap, ◌↔◌, inl, inr, true, false, not, some, List,
  [], ◌∷◌, ◌++◌, arith, nat_beq_iff, Bool-cases, ◌==◌, nat_eq, int_eq, string_eq, beq_refl, keep,
}
use go_signing_server_anywhe.Text.Bytes.{
  Bytes, AreBytes, utf8, bytes, extend, split, symbol, sextet, url_encode, join2, join3, join4,
  url_sextet, url_decode_groups, is_break, url_decode, bytes_beq,
}

-- A byte does not occur in a byte string.
abbrev pub Lacks : ℕ → Bytes → Type 0
Lacks sep [] = Unit {0}
Lacks sep (c ∷ cs) = ((c == sep) ≡ false) × Lacks sep cs

pub split-append :
    (sep : ℕ) (s t : Bytes) → Lacks sep s → split sep (s ++ (sep ∷ t)) ≡ s ∷ split sep t
unfolding split extend
split-append sep [] t h = rw (beq_refl sep) refl
split-append sep (c ∷ cs) t h = rw (h.0, split-append sep cs t h.1) refl

pub split_whole : (sep : ℕ) (s : Bytes) → Lacks sep s → split sep s ≡ s ∷ []
unfolding split extend
split_whole sep [] h = refl
split_whole sep (c ∷ cs) h = rw (h.0, split_whole sep cs h.1) refl

pub AreBytes-append : (s t : Bytes) → AreBytes s → AreBytes t → AreBytes (s ++ t)
AreBytes-append [] t hs ht = ht
AreBytes-append (c ∷ cs) t hs ht = (hs.0, AreBytes-append cs t hs.1 ht)

utf8-AreBytes : (c : ℕ) → AreBytes (utf8 c)
unfolding utf8
utf8-AreBytes c = ground arith

pub bytes-AreBytes : (s : String) → AreBytes (bytes s)
unfolding bytes
bytes-AreBytes String.[] = tt
bytes-AreBytes (String.◌∷◌ c s) =
    AreBytes-append (utf8 (code c)) (bytes s) (utf8-AreBytes (code c)) (bytes-AreBytes s)

-- A symbol is read back, and it is neither a dot nor a line break.
sextet-symbol : (v : ℕ) → v < 64 → url_sextet (symbol b'-' b'_' v) ≡ some v
unfolding url_sextet sextet symbol
sextet-symbol v h = ground arith

symbol_plain :
    (v : ℕ) → (is_break (symbol b'-' b'_' v) ≡ false) × ((symbol b'-' b'_' v == b'.') ≡ false)
unfolding is_break symbol
symbol_plain v = (ground arith, ground arith)

-- What base64 writes has no byte that is a line break, and no dot.
symbol-Lacks : (v : ℕ) (s : Bytes) → Lacks b'.' s → Lacks b'.' (symbol b'-' b'_' v ∷ s)
symbol-Lacks v s h = ((symbol_plain v).1, h)

pub url_encode-Lacks : (s : Bytes) → Lacks b'.' (url_encode s)
unfolding url_encode
url_encode-Lacks [] = tt
url_encode-Lacks (a ∷ []) = ((symbol_plain (a / 4)).1, symbol-Lacks (a % 4 * 16) [] tt)
url_encode-Lacks (a ∷ b ∷ []) = (
  (symbol_plain (a / 4)).1,
  ((symbol_plain (a % 4 * 16 + b / 16)).1, symbol-Lacks (b % 16 * 4) [] tt),
)
url_encode-Lacks (a ∷ b ∷ c ∷ rest) = (
  (symbol_plain (a / 4)).1,
  (
    (symbol_plain (a % 4 * 16 + b / 16)).1,
    ((symbol_plain (b % 16 * 4 + c / 64)).1, ((symbol_plain (c % 64)).1, url_encode-Lacks rest)),
  ),
)

keep_plain :
    (v : ℕ) (s : Bytes)
    → keep (λ c. not (is_break c)) (symbol b'-' b'_' v ∷ s)
      ≡ symbol b'-' b'_' v ∷ keep (λ c. not (is_break c)) s
unfolding keep
keep_plain v s = rw ((symbol_plain v).0) refl

keep_nil : keep (λ c. not (is_break c)) [] ≡ []
unfolding keep
keep_nil = refl

keep-url_encode : (s : Bytes) → keep (λ c. not (is_break c)) (url_encode s) ≡ url_encode s
unfolding url_encode
keep-url_encode [] = keep_nil
keep-url_encode (a ∷ []) = simp (keep_plain, keep_nil)
keep-url_encode (a ∷ b ∷ []) = simp (keep_plain, keep_nil)
keep-url_encode (a ∷ b ∷ c ∷ rest) = simp (keep_plain, keep-url_encode rest)

pub join2_lem : (a : ℕ) → a < 256 → join2 (some (a / 4)) (some (a % 4 * 16)) ≡ some (a ∷ [])
unfolding join2
join2_lem a h = ap (λ x. some (x ∷ [])) (omega (arith, h))

pub join3_lem :
    (a b : ℕ)
    → b < 256
    → join3 (some (a / 4)) (some (a % 4 * 16 + b / 16)) (some (b % 16 * 4)) ≡ some (a ∷ b ∷ [])
unfolding join3
join3_lem a b h = cc (first, second)
  where
    first : a / 4 * 4 + (a % 4 * 16 + b / 16) / 16 ≡ a
    first = omega (arith, h)

    second : (a % 4 * 16 + b / 16) % 16 * 16 + b % 16 * 4 / 4 ≡ b
    second = omega (arith, h)

pub join4_lem :
    (a b c : ℕ) (rest : Bytes)
    → b < 256
    → c < 256
    → join4
        (some (a / 4))
        (some (a % 4 * 16 + b / 16))
        (some (b % 16 * 4 + c / 64))
        (some (c % 64))
        (some rest)
      ≡ some (a ∷ b ∷ c ∷ rest)
unfolding join4
join4_lem a b c rest h k = cc (first, second, third)
  where
    first : a / 4 * 4 + (a % 4 * 16 + b / 16) / 16 ≡ a
    first = omega (arith, h)

    second : (a % 4 * 16 + b / 16) % 16 * 16 + (b % 16 * 4 + c / 64) / 4 ≡ b
    second = omega (arith, h, k)

    third : (b % 16 * 4 + c / 64) % 4 * 64 + c % 64 ≡ c
    third = omega (arith, k)

groups-url_encode : (s : Bytes) → AreBytes s → url_decode_groups (url_encode s) ≡ some s
unfolding url_encode url_decode_groups
groups-url_encode [] h = refl
groups-url_encode (a ∷ []) h =
    rw (sextet-symbol (a / 4) (omega (arith, h.0)), sextet-symbol (a % 4 * 16) (omega arith))
      (join2_lem a h.0)
groups-url_encode (a ∷ b ∷ []) h =
    rw
      (
        sextet-symbol (a / 4) (omega (arith, h.0)),
        sextet-symbol (a % 4 * 16 + b / 16) (omega (arith, h.1.0)),
        sextet-symbol (b % 16 * 4) (omega arith),
      )
      (join3_lem a b h.1.0)
groups-url_encode (a ∷ b ∷ c ∷ rest) h =
    rw
      (
        sextet-symbol (a / 4) (omega (arith, h.0)),
        sextet-symbol (a % 4 * 16 + b / 16) (omega (arith, h.1.0)),
        sextet-symbol (b % 16 * 4 + c / 64) (omega (arith, h.1.1.0)),
        sextet-symbol (c % 64) (omega arith),
        groups-url_encode rest h.1.1.1,
      )
      (join4_lem a b c rest h.1.0 h.1.1.0)

-- Decoding gives back what was encoded.
pub url_decode-url_encode : (s : Bytes) → AreBytes s → url_decode (url_encode s) ≡ some s
unfolding url_decode
url_decode-url_encode s h = rw (keep-url_encode s) (groups-url_encode s h)

pub bytes_beq_iff : (s t : Bytes) → (bytes_beq s t ≡ true) ↔ (s ≡ t)
unfolding bytes_beq
bytes_beq_iff [] [] = ground arith
bytes_beq_iff [] (b ∷ t) = ground arith
bytes_beq_iff (a ∷ s) [] = ground arith
bytes_beq_iff (a ∷ s) (b ∷ t) = ground (arith, bytes_beq_iff s t)

-- strings.Join, the reference that splitting is compared with.
abbrev pub join : ℕ → List Bytes → Bytes
join sep [] = []
join sep (p ∷ []) = p
join sep (p ∷ q ∷ ps) = p ++ (sep ∷ join sep (q ∷ ps))

join-extend : (sep c : ℕ) (ps : List Bytes) → join sep (extend c ps) ≡ c ∷ join sep ps
unfolding extend
join-extend sep c [] = refl
join-extend sep c (p ∷ []) = refl
join-extend sep c (p ∷ q ∷ ps) = refl

extend_some : (c : ℕ) (l : List Bytes) → (q : Bytes) × (ps : List Bytes) × (extend c l ≡ q ∷ ps)
unfolding extend
extend_some c [] = (c ∷ [], [], refl)
extend_some c (p ∷ ps) = (c ∷ p, ps, refl)

split_some : (sep : ℕ) (s : Bytes) → (q : Bytes) × (ps : List Bytes) × (split sep s ≡ q ∷ ps)
unfolding split
split_some sep [] = ([], [], refl)
split_some sep (c ∷ cs) = elim (Bool-cases (c == sep)) [
  | inl e ↦ rw e ([], split sep cs, refl)
  | inr e ↦ rw e (extend_some c (split sep cs))
]

join_empty :
    (sep : ℕ) (q : Bytes) (ps l : List Bytes) → l ≡ q ∷ ps → join sep ([] ∷ l) ≡ sep ∷ join sep l
join_empty sep q ps l h = rw h refl

pub join-split : (sep : ℕ) (s : Bytes) → join sep (split sep s) ≡ s
unfolding split
join-split sep [] = refl
join-split sep (c ∷ cs) = elim (Bool-cases (c == sep)) [
  | inl e ↦ rw e (
      let (q, ps, h) = split_some sep cs in
      cc (join_empty sep q ps (split sep cs) h, join-split sep cs, (nat_beq_iff c sep).0 e))
  | inr e ↦ rw (e, join-extend sep c (split sep cs), join-split sep cs) refl
]
