-- ===== src/Auth/Password.antt =====
-- internal/auth/password.go: the stored form of a password and its check. The key derivation of
-- golang.org/x/crypto/scrypt is a parameter, the salt that was drawn an argument.
pub mod Derived
use go_signing_server_anywhe.Prelude.{
  ℕ, zero, suc, ◌+◌, ◌-◌, ◌*◌, ◌/◌, ◌%◌, ◌^◌, ◌≤◌, ◌<◌, String, ◌≡◌, refl, sym, ap, ◌∙◌, ◌≢◌, ◌↔◌,
  ◌⊎◌, inl, inr, Bool, true, false, not, ◌&&◌, ◌||◌, Option, none, some, List, [], ◌∷◌, ◌++◌, map,
  arith, eq_iff, ltb, leb, nat_beq, if◌then◌else◌, ltb→lt, lt→ltb, leb→le, le→leb, nat_beq_iff,
  tests, Bool-cases, Option-cases, ℤ, pos, negsuc, pos_part, neg_part, sub_ℕ, ◌+ℤ◌, ◌-ℤ◌, ◌≤ℤ◌,
  ◌<ℤ◌, ltb_ℤ, leb_ℤ, int_beq, int_beq_iff, Eq, ◌==◌, ◌!=◌, nat_eq, int_eq, string_eq, string_beq,
  string_beq_iff, beq_refl, length, take, keep, count, length-append, length-keep-le,
  length-keep-count, keep-append, has, add, remove, IsSetList, has-add, has-remove, add-IsSetList,
  remove-IsSetList, remove_absent, length-remove, length-remove-le,
}
use go_signing_server_anywhe.Util.{sprint_int}
use go_signing_server_anywhe.Text.{parse_int}
use go_signing_server_anywhe.Text.Bytes.{Bytes, bytes, bytes_beq, split, std_encode, std_decode}

-- The cost, the block size, the parallelism and the length of a key.
abbrev pub scrypt_n : ℕ
scrypt_n = 16384

abbrev pub scrypt_r : ℕ
scrypt_r = 8

abbrev pub scrypt_p : ℕ
scrypt_p = 1

abbrev pub key_len : ℕ
key_len = 32

-- `scrypt$%d$%d$%d$` of the three numbers
unfoldable pub stored_prefix : Bytes
unfolding sprint_int bytes
stored_prefix =
    bytes "scrypt$"
    ++ (bytes (sprint_int (pos scrypt_n))
        ++ (b'$'
            ∷ (bytes (sprint_int (pos scrypt_r))
                ++ (b'$' ∷ (bytes (sprint_int (pos scrypt_p)) ++ (b'$' ∷ []))))))

unfoldable pub stored_form : Bytes → Bytes → Bytes
unfolding stored_prefix
stored_form salt derived = stored_prefix ++ (std_encode salt ++ (b'$' ∷ std_encode derived))

unfoldable pub form_of : Bytes → Option Bytes → Option Bytes
unfolding stored_form
form_of salt none = none
form_of salt (some derived) = some (stored_form salt derived)

module _ (key : Bytes → Bytes → ℤ → ℤ → ℤ → ℕ → Option Bytes) where
  -- The salt is `none` where rand.Read fails.
  unfoldable pub hash_password : Option Bytes → Bytes → Option Bytes
  unfolding form_of
  hash_password none password = none
  hash_password (some salt) password =
      form_of salt (key password salt (pos scrypt_n) (pos scrypt_r) (pos scrypt_p) key_len)

  unfoldable pub equals_derived : Bytes → Option Bytes → Bool
  unfolding bytes_beq
  equals_derived hash none = false
  equals_derived hash (some derived) = bytes_beq hash derived

  unfoldable pub check_derived : Bytes → ℤ → ℤ → ℤ → Option Bytes → Option Bytes → Bool
  unfolding equals_derived
  check_derived password n r p (some salt) (some hash) =
      equals_derived hash (key password salt n r p (length hash))
  check_derived password n r p (some salt) none = false
  check_derived password n r p none hash = false

  -- The errors of strconv.Atoi are ignored.
  unfoldable pub verify_parts : Bytes → List Bytes → Bool
  unfolding bytes_beq check_derived parse_int std_decode
  verify_parts password (name ∷ n ∷ r ∷ p ∷ salt ∷ hash ∷ []) =
      if bytes_beq name (bytes "scrypt")
      then check_derived password (parse_int n).0 (parse_int r).0 (parse_int p).0 (std_decode salt)
          (std_decode hash)
      else false
  verify_parts password _ = false

  unfoldable pub verify_password : Bytes → Bytes → Bool
  unfolding verify_parts
  verify_password password stored = verify_parts password (split b'$' stored)
