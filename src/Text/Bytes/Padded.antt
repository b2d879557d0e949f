-- ===== src/Text/Bytes/Padded.antt =====
-- base64 with padding: the round trip, and the symbols that do not occur.
use go_signing_server_anywhe.Prelude.{
  ℕ, ◌+◌, ◌*◌, ◌/◌, ◌%◌, ◌<◌, ◌≡◌, refl, false, not, some, [], ◌∷◌, arith, ◌==◌, nat_eq, int_eq,
  string_eq, keep,
}
use go_signing_server_anywhe.Text.Bytes.{
  Bytes, AreBytes, symbol, sextet, std_encode, std_sextet, std_decode_groups, is_break, std_decode,
  at_end,
}
use go_signing_server_anywhe.Text.Bytes.Base64.{Lacks, join2_lem, join3_lem, join4_lem}

sextet-symbol : (v : ℕ) → v < 64 → std_sextet (symbol b'+' b'/' v) ≡ some v
unfolding std_sextet sextet symbol
sextet-symbol v h = ground arith

symbol_plain :
    (v : ℕ)
    → (is_break (symbol b'+' b'/' v) ≡ false)
      × ((symbol b'+' b'/' v == b'$') ≡ false)
      × ((symbol b'+' b'/' v == b'=') ≡ false)
unfolding is_break symbol
symbol_plain v = (ground arith, ground arith, ground arith)

pub std_encode-Lacks : (s : Bytes) → Lacks b'$' (std_encode s)
unfolding std_encode
std_encode-Lacks [] = tt
std_encode-Lacks (a ∷ []) =
    ((symbol_plain (a / 4)).1, ((symbol_plain (a % 4 * 16)).1, (refl, (refl, tt))))
std_encode-Lacks (a ∷ b ∷ []) = (
  (symbol_plain (a / 4)).1,
  ((symbol_plain (a % 4 * 16 + b / 16)).1, ((symbol_plain (b % 16 * 4)).1, (refl, tt))),
)
std_encode-Lacks (a ∷ b ∷ c ∷ rest) = (
  (symbol_plain (a / 4)).1,
  (
    (symbol_plain (a % 4 * 16 + b / 16)).1,
    ((symbol_plain (b % 16 * 4 + c / 64)).1, ((symbol_plain (c % 64)).1, std_encode-Lacks rest)),
  ),
)

keep_plain :
    (v : ℕ) (s : Bytes)
    → keep (λ c. not (is_break c)) (symbol b'+' b'/' v ∷ s)
      ≡ symbol b'+' b'/' v ∷ keep (λ c. not (is_break c)) s
unfolding keep
keep_plain v s = rw ((symbol_plain v).0) refl

keep_pad :
    (s : Bytes) → keep (λ c. not (is_break c)) (b'=' ∷ s) ≡ b'=' ∷ keep (λ c. not (is_break c)) s
unfolding keep is_break
keep_pad s = refl

keep_nil : keep (λ c. not (is_break c)) [] ≡ []
unfolding keep
keep_nil = refl

keep-std_encode : (s : Bytes) → keep (λ c. not (is_break c)) (std_encode s) ≡ std_encode s
unfolding std_encode
keep-std_encode [] = keep_nil
keep-std_encode (a ∷ []) = simp (keep_plain, keep_pad, keep_nil)
keep-std_encode (a ∷ b ∷ []) = simp (keep_plain, keep_pad, keep_nil)
keep-std_encode (a ∷ b ∷ c ∷ rest) = simp (keep_plain, keep-std_encode rest)

groups-std_encode : (s : Bytes) → AreBytes s → std_decode_groups (std_encode s) ≡ some s
unfolding std_encode std_decode_groups at_end
groups-std_encode [] h = refl
groups-std_encode (a ∷ []) h =
    rw (sextet-symbol (a / 4) (omega (arith, h.0)), sextet-symbol (a % 4 * 16) (omega arith))
      (join2_lem a h.0)
groups-std_encode (a ∷ b ∷ []) h =
    rw
      (
        sextet-symbol (a / 4) (omega (arith, h.0)),
        sextet-symbol (a % 4 * 16 + b / 16) (omega (arith, h.1.0)),
        (symbol_plain (b % 16 * 4)).2,
        sextet-symbol (b % 16 * 4) (omega arith),
      )
      (join3_lem a b h.1.0)
groups-std_encode (a ∷ b ∷ c ∷ rest) h =
    rw
      (
        sextet-symbol (a / 4) (omega (arith, h.0)),
        sextet-symbol (a % 4 * 16 + b / 16) (omega (arith, h.1.0)),
        sextet-symbol (b % 16 * 4 + c / 64) (omega (arith, h.1.1.0)),
        (symbol_plain (b % 16 * 4 + c / 64)).2,
        (symbol_plain (c % 64)).2,
        sextet-symbol (c % 64) (omega arith),
        groups-std_encode rest h.1.1.1,
      )
      (join4_lem a b c rest h.1.0 h.1.1.0)

-- Decoding gives back what was encoded.
pub std_decode-std_encode : (s : Bytes) → AreBytes s → std_decode (std_encode s) ≡ some s
unfolding std_decode
std_decode-std_encode s h = rw (keep-std_encode s) (groups-std_encode s h)
