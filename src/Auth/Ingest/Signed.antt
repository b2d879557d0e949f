-- ===== src/Auth/Ingest/Signed.antt =====
-- What a signed ingest token proves.
use go_signing_server_anywhe.Prelude.{
  ℕ, String, ◌≡◌, refl, sym, ap, ◌∙◌, Option, none, some, List, [], ◌∷◌, ◌++◌, arith, ℤ, pos, ◌+ℤ◌,
  ◌≤ℤ◌, ◌<ℤ◌, nat_eq, int_eq, string_eq,
}
use go_signing_server_anywhe.Text.Bytes.{Bytes, bytes, split, url_encode, url_decode, AreBytes}
use go_signing_server_anywhe.Text.Bytes.Base64.{
  split-append, split_whole, AreBytes-append, bytes-AreBytes, url_encode-Lacks,
  url_decode-url_encode, bytes_beq_iff, join, join-split,
}
use go_signing_server_anywhe.Util.{sprint_int}
use go_signing_server_anywhe.Auth.Ingest.{
  IngestPayload, accepted, wrap_int64, marshal, token_signature, sign_ingest_token, check_payload,
  check_raw, check_parts, verify_ingest_token,
}

marshal-AreBytes : (p : IngestPayload) → AreBytes (marshal p)
unfolding marshal
marshal-AreBytes p = also "{\"clientId\":" _ (
    also (sprint_int p.client_id) _ (
      also ",\"orgId\":" _ (
        also (sprint_int p.org_id) _
          (also ",\"exp\":" _ (also (sprint_int p.exp) _ (bytes-AreBytes "}"))))))
  where
    also : (s : String) (t : Bytes) → AreBytes t → AreBytes (bytes s ++ t)
    also s t h = AreBytes-append (bytes s) t (bytes-AreBytes s) h

module _ (mac : Bytes → Bytes → Bytes) (unmarshal : Bytes → Option IngestPayload) where
  -- What signing makes of a payload.
  signed_token : Bytes → Bytes → Option Bytes
  signed_token secret body =
      some (url_encode body ++ (b'.' ∷ token_signature mac unmarshal secret (url_encode body)))

  split_token :
      (secret s : Bytes)
      → split b'.' (url_encode s ++ (b'.' ∷ token_signature mac unmarshal secret (url_encode s)))
        ≡ url_encode s ∷ token_signature mac unmarshal secret (url_encode s) ∷ []
  unfolding token_signature
  split_token secret s =
      rw
        (
          split-append b'.' (url_encode s) (url_encode (mac secret (url_encode s)))
              (url_encode-Lacks s),
          split_whole b'.' (url_encode (mac secret (url_encode s)))
              (url_encode-Lacks (mac secret (url_encode s))),
        )
        refl

  check_parts_signed :
      (now : ℤ) (secret : Bytes) (p : IngestPayload)
      → unmarshal (marshal p) ≡ some p
      → check_parts mac unmarshal now secret (
          url_encode (marshal p)
          ∷ token_signature mac unmarshal secret (url_encode (marshal p))
          ∷ [])
        ≡ check_payload mac unmarshal now (some p)
  unfolding check_parts check_raw
  check_parts_signed now secret p h =
      rw
        (
          (bytes_beq_iff (token_signature mac unmarshal secret (url_encode (marshal p)))
                (token_signature mac unmarshal secret (url_encode (marshal p)))).1
              refl,
          url_decode-url_encode (marshal p) (marshal-AreBytes p),
          h,
        )
        refl

  verify_signed :
      (now : ℤ) (c : ℕ) (secret : Bytes) (p : IngestPayload)
      → unmarshal (marshal p) ≡ some p
      → verify_ingest_token mac unmarshal now (c ∷ secret) (
          url_encode (marshal p)
          ++ (b'.' ∷ token_signature mac unmarshal (c ∷ secret) (url_encode (marshal p))))
        ≡ check_payload mac unmarshal now (some p)
  unfolding verify_ingest_token
  verify_signed now c secret p h =
      rw (split_token (c ∷ secret) (marshal p)) (check_parts_signed now (c ∷ secret) p h)

  check_payload_good :
      (now : ℤ) (p : IngestPayload)
      → pos 0 <ℤ p.client_id
      → pos 0 <ℤ p.org_id
      → now ≤ℤ p.exp
      → check_payload mac unmarshal now (some p) ≡ accepted p
  unfolding check_payload
  check_payload_good now p hc ho ht = ground arith

  -- A token that was signed for a client and an organization with positive numbers is accepted, and
  -- gives back what was signed, until its time is over. json.Unmarshal is assumed to read back
  -- what json.Marshal writes for this payload.
  pub verify_ingest_token-sign_ingest_token :
      (now later ttl_ms : ℤ) (first : ℕ) (secret : Bytes) (p : IngestPayload)
      → unmarshal (marshal p) ≡ some p
      → p.exp ≡ wrap_int64 (now +ℤ ttl_ms)
      → pos 0 <ℤ p.client_id
      → pos 0 <ℤ p.org_id
      → later ≤ℤ p.exp
      → (token : Bytes) × (sign_ingest_token mac unmarshal now
            (first ∷ secret)
            p.client_id
            p.org_id
            ttl_ms
          ≡ some token)
        × (verify_ingest_token mac unmarshal later (first ∷ secret) token ≡ accepted p)
  unfolding sign_ingest_token signed_token
  verify_ingest_token-sign_ingest_token now later ttl_ms first secret p reads ends hc ho ht = (
    _,
    ap
        (λ e.
          signed_token (first ∷ secret)
            (marshal (record { client_id = p.client_id; org_id = p.org_id; exp = e })))
        (sym ends),
    verify_signed later first secret p reads ∙ check_payload_good later p hc ho ht,
  )

  check_payload_accepted :
      (now : ℤ) (o : Option IngestPayload) (p : IngestPayload)
      → check_payload mac unmarshal now o ≡ accepted p
      → (o ≡ some p) × (pos 0 <ℤ p.client_id) × (pos 0 <ℤ p.org_id) × (now ≤ℤ p.exp)
  unfolding check_payload
  check_payload_accepted now none p h = cc
  check_payload_accepted now (some q) p h = ground arith

  check_raw_accepted :
      (now : ℤ) (o : Option Bytes) (p : IngestPayload)
      → check_raw mac unmarshal now o ≡ accepted p
      → (raw : Bytes) × (o ≡ some raw)
        × (check_payload mac unmarshal now (unmarshal raw) ≡ accepted p)
  unfolding check_raw
  check_raw_accepted now none p h = cc
  check_raw_accepted now (some raw) p h = (raw, refl, h)

  check_parts_accepted :
      (now : ℤ) (secret : Bytes) (parts : List Bytes) (p : IngestPayload)
      → check_parts mac unmarshal now secret parts ≡ accepted p
      → (enc : Bytes) × (parts ≡ enc ∷ token_signature mac unmarshal secret enc ∷ [])
        × (check_raw mac unmarshal now (url_decode enc) ≡ accepted p)
  unfolding check_parts
  check_parts_accepted now secret [] p h = cc
  check_parts_accepted now secret (a ∷ []) p h = cc
  check_parts_accepted now secret (enc ∷ sig ∷ []) p h = (
    enc,
    ground (arith, bytes_beq_iff sig (token_signature mac unmarshal secret enc)),
    ground arith,
  )
  check_parts_accepted now secret (a ∷ b ∷ c ∷ rest) p h = cc

  -- A token that is accepted consists of a payload and its signature under the secret, the payload
  -- decodes to what is returned, its numbers are positive, and its time is not over.
  pub verify_ingest_token-accepted :
      (now : ℤ) (secret token : Bytes) (p : IngestPayload)
      → verify_ingest_token mac unmarshal now secret token ≡ accepted p
      → (enc raw : Bytes) × (token ≡ enc ++ (b'.' ∷ token_signature mac unmarshal secret enc))
        × (url_decode enc ≡ some raw)
        × (unmarshal raw ≡ some p)
        × (pos 0 <ℤ p.client_id)
        × (pos 0 <ℤ p.org_id)
        × (now ≤ℤ p.exp)
  unfolding verify_ingest_token
  verify_ingest_token-accepted now [] token p h = cc
  verify_ingest_token-accepted now (c ∷ secret) token p h =
      let (enc, parts, checked) = check_parts_accepted now (c ∷ secret) (split b'.' token) p h in
      let (raw, decoded, good) = check_raw_accepted now (url_decode enc) p checked in
      let (read, hc, ho, ht) = check_payload_accepted now (unmarshal raw) p good in
      (enc, raw, sym (join-split b'.' token) ∙ ap (join b'.') parts, decoded, read, hc, ho, ht)
