-- ===== src/Auth/Ingest.antt =====
-- internal/auth/ingest.go: signing and verifying an ingest token. HMAC-SHA256 and json.Unmarshal
-- are parameters, `time.Now` an argument.
pub mod Signed
use go_signing_server_anywhe.Prelude.{
  ℕ, zero, suc, ◌+◌, ◌-◌, ◌*◌, ◌/◌, ◌%◌, ◌^◌, ◌≤◌, ◌<◌, String, ◌≡◌, refl, sym, ap, ◌∙◌, ◌≢◌, ◌↔◌,
  ◌⊎◌, inl, inr, Bool, true, false, not, ◌&&◌, ◌||◌, Option, none, some, List, [], ◌∷◌, ◌++◌, map,
  arith, eq_iff, ltb, leb, nat_beq, if◌then◌else◌, ltb→lt, lt→ltb, leb→le, le→leb, nat_beq_iff,
  tests, Bool-cases, Option-cases, ℤ, pos, negsuc, pos_part, neg_part, sub_ℕ, ◌+ℤ◌, ◌-ℤ◌, ◌≤ℤ◌,
  ◌<ℤ◌, ltb_ℤ, leb_ℤ, int_beq, int_beq_iff, Eq, ◌==◌, ◌!=◌, nat_eq, int_eq, string_eq, string_beq,
  string_beq_iff, beq_refl, length, take, keep, count, length-append, length-keep-le,
  length-keep-count, keep-append, has, add, remove, IsSetList, has-add, has-remove, add-IsSetList,
  remove-IsSetList, remove_absent, length-remove, length-remove-le,
}
use go_signing_server_anywhe.Util.{sprint_int}
use go_signing_server_anywhe.Text.Bytes.{Bytes, bytes, bytes_beq, split, url_encode, url_decode}

pub record IngestPayload : Type 0 where
  pub client_id : ℤ
  pub org_id : ℤ
  pub exp : ℤ

pub data IngestError : Type 0 where
  no_secret : IngestError
  invalid_parts : IngestError
  signature_mismatch : IngestError
  decode_failed : IngestError
  not_json : IngestError
  invalid_ids : IngestError
  expired : IngestError

pub data TokenVerdict : Type 0 where
  accepted : IngestPayload → TokenVerdict
  denied : IngestError → TokenVerdict

-- An int64 sum that wraps around.
unfoldable pub wrap_int64 : ℤ → ℤ
wrap_int64 (pos n) = if ltb n (2 ^ 63) then pos n else sub_ℕ n (2 ^ 64)
wrap_int64 (negsuc n) = if ltb n (2 ^ 63) then negsuc n else sub_ℕ (2 ^ 64) (suc n)

-- json.Marshal of a payload, which never fails: a number is written in decimal.
unfoldable pub marshal : IngestPayload → Bytes
marshal p =
    bytes "{\"clientId\":"
    ++ (bytes (sprint_int p.client_id)
        ++ (bytes ",\"orgId\":"
            ++ (bytes (sprint_int p.org_id)
                ++ (bytes ",\"exp\":" ++ (bytes (sprint_int p.exp) ++ bytes "}")))))

module _ (mac : Bytes → Bytes → Bytes) (unmarshal : Bytes → Option IngestPayload) where
  -- The signature of the encoded payload under a secret.
  unfoldable pub token_signature : Bytes → Bytes → Bytes
  token_signature secret enc = url_encode (mac secret enc)

  unfoldable pub sign_ingest_token : ℤ → Bytes → ℤ → ℤ → ℤ → Option Bytes
  unfolding marshal wrap_int64 token_signature
  sign_ingest_token now [] client_id org_id ttl_ms = none
  sign_ingest_token now secret client_id org_id ttl_ms =
      let body =
        marshal
          (record { client_id = client_id; org_id = org_id; exp = wrap_int64 (now +ℤ ttl_ms) }) in
      let enc = url_encode body in some (enc ++ (b'.' ∷ token_signature secret enc))

  unfoldable pub check_payload : ℤ → Option IngestPayload → TokenVerdict
  check_payload now none = denied not_json
  check_payload now (some p) =
      if leb_ℤ p.client_id (pos 0) || leb_ℤ p.org_id (pos 0)
      then denied invalid_ids
      else if ltb_ℤ p.exp now
      then denied expired
      else accepted p

  unfoldable pub check_raw : ℤ → Option Bytes → TokenVerdict
  unfolding check_payload
  check_raw now none = denied decode_failed
  check_raw now (some raw) = check_payload now (unmarshal raw)

  unfoldable pub check_parts : ℤ → Bytes → List Bytes → TokenVerdict
  unfolding token_signature bytes_beq check_raw
  check_parts now secret (enc ∷ sig ∷ []) =
      if bytes_beq sig (token_signature secret enc)
      then check_raw now (url_decode enc)
      else denied signature_mismatch
  check_parts now secret _ = denied invalid_parts

  unfoldable pub verify_ingest_token : ℤ → Bytes → Bytes → TokenVerdict
  unfolding check_parts
  verify_ingest_token now [] token = denied no_secret
  verify_ingest_token now secret token = check_parts now secret (split b'.' token)
