-- ===== src/Auth/Password/Derived.antt =====
-- Which passwords pass against a stored form.
use go_signing_server_anywhe.Prelude.{
  ℕ, ◌≡◌, refl, ◌↔◌, true, Option, none, some, [], ◌∷◌, ◌++◌, arith, ℤ, pos, nat_eq, int_eq,
  string_eq, length,
}
use go_signing_server_anywhe.Util.{sprint_int, decimal, digit}
use go_signing_server_anywhe.Text.{parse_int, signed, unsigned, digits_value}
use go_signing_server_anywhe.Text.Bytes.{Bytes, AreBytes, bytes, utf8, split, extend, std_encode}
use go_signing_server_anywhe.Text.Bytes.Base64.{split-append, split_whole, bytes_beq_iff}
use go_signing_server_anywhe.Text.Bytes.Padded.{std_encode-Lacks, std_decode-std_encode}
use go_signing_server_anywhe.Auth.Password.{
  scrypt_n, scrypt_r, scrypt_p, key_len, stored_prefix, stored_form, form_of, hash_password,
  equals_derived, check_derived, verify_parts, verify_password,
}

split_prefix :
    (s : Bytes)
    → split b'$' (stored_prefix ++ s)
      ≡ bytes "scrypt" ∷ bytes "16384" ∷ bytes "8" ∷ bytes "1" ∷ split b'$' s
unfolding stored_prefix sprint_int decimal digit bytes utf8 split extend
split_prefix s = refl

split_form :
    (salt derived : Bytes)
    → split b'$' (stored_form salt derived)
      ≡ bytes "scrypt"
        ∷ bytes "16384"
        ∷ bytes "8"
        ∷ bytes "1"
        ∷ std_encode salt
        ∷ std_encode derived
        ∷ []
unfolding stored_form
split_form salt derived =
    rw
      (
        split_prefix (std_encode salt ++ (b'$' ∷ std_encode derived)),
        split-append b'$' (std_encode salt) (std_encode derived) (std_encode-Lacks salt),
        split_whole b'$' (std_encode derived) (std_encode-Lacks derived),
      )
      refl

read_n : parse_int (bytes "16384") ≡ (pos scrypt_n, true)
unfolding parse_int signed unsigned digits_value bytes utf8
read_n = refl

read_r : parse_int (bytes "8") ≡ (pos scrypt_r, true)
unfolding parse_int signed unsigned digits_value bytes utf8
read_r = refl

read_p : parse_int (bytes "1") ≡ (pos scrypt_p, true)
unfolding parse_int signed unsigned digits_value bytes utf8
read_p = refl

-- The key that a password has under a salt, with the cost that the server uses.
unfoldable pub server_scrypt_key :
    (Bytes → Bytes → ℤ → ℤ → ℤ → ℕ → Option Bytes) → Bytes → Bytes → Option Bytes
server_scrypt_key key password salt =
    key password salt (pos scrypt_n) (pos scrypt_r) (pos scrypt_p) key_len

module _ (key : Bytes → Bytes → ℤ → ℤ → ℤ → ℕ → Option Bytes) where
  verify_form :
      (password salt derived : Bytes)
      → AreBytes salt
      → AreBytes derived
      → verify_password key password (stored_form salt derived)
        ≡ equals_derived key derived
            (key password salt (pos scrypt_n) (pos scrypt_r) (pos scrypt_p) (length derived))
  unfolding verify_password verify_parts check_derived
  verify_form password salt derived hs hd =
      rw
        (
          split_form salt derived,
          (bytes_beq_iff (bytes "scrypt") (bytes "scrypt")).1 refl,
          read_n,
          read_r,
          read_p,
          std_decode-std_encode salt hs,
          std_decode-std_encode derived hd,
        )
        refl

  equals_derived_iff :
      (derived : Bytes) (o : Option Bytes)
      → (equals_derived key derived o ≡ true) ↔ (o ≡ some derived)
  unfolding equals_derived
  equals_derived_iff derived none = ground arith
  equals_derived_iff derived (some d) = ground (arith, bytes_beq_iff derived d)

  -- A password is stored in a form that another password passes against exactly when both have
  -- the same scrypt key under the salt; so the password itself passes. scrypt.Key is
  -- assumed to return as many bytes as it is asked for at the cost that the server uses.
  pub verify_password-hash_password :
      ((password salt : Bytes)
        → (d : Bytes) × (server_scrypt_key key password salt ≡ some d)
          × (length d ≡ key_len)
          × AreBytes d)
      → (password salt : Bytes) → AreBytes salt
      → (stored : Bytes) × (hash_password key (some salt) password ≡ some stored)
        × ((other : Bytes)
            → (verify_password key other stored ≡ true)
              ↔ (server_scrypt_key key other salt ≡ server_scrypt_key key password salt))
  unfolding hash_password form_of server_scrypt_key
  verify_password-hash_password derives password salt hs =
      let (d, made, long, are) = derives password salt in
      (
        stored_form salt d,
        rw made refl,
        λ other. rw (verify_form other salt d hs are, long, made) (equals_derived_iff d _),
      )
