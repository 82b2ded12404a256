-- ===== src/Core/Security/Tokens.antt =====
-- core/security.py: what a token is good for.
use delivery_time_prediction.Prelude.{
  ℕ, ◌+◌, String, ◌≡◌, refl, ◌⊎◌, inl, inr, Option, none, some, true, false, arith, ◌==◌,
  if◌then◌else◌, ltb, concat, [], ◌∷◌, concat_not_empty, false≢true, eq_iff, ◌↔◌,
}
use delivery_time_prediction.Core.Security.{
  Claims, JwtError, expired_signature, invalid_token, Jwt, access_claims, refresh_claims,
  create_access_token, create_refresh_token, verify_access_token, verify_refresh_token,
  compute_hmac_signature, verify_hmac_signature,
}

abbrev unless_expired : ℕ → Claims → JwtError ⊎ Claims
unless_expired now p = elim p.exp [
  | none ↦ inr p
  | some exp ↦ if ltb now exp then inr p else inl expired_signature
]

-- What PyJWT documents of a token with the right signature: it is refused before its `iat` and from
-- its `exp` on, and gives back its payload otherwise.
abbrev pub outcome : ℕ → Claims → JwtError ⊎ Claims
outcome now p = elim p.iat [
  | none ↦ unless_expired now p
  | some iat ↦
      if ltb now iat
      then inl (invalid_token "The token is not yet valid (iat)")
      else unless_expired now p
]

abbrev pub Decodes : Jwt → String → Claims → Type 0
Decodes jwt key p = (now : ℕ) → jwt.decode now (jwt.encode p key) key ≡ outcome now p

module _ (jwt : Jwt) (key : String) where
  -- An access token is good from the second of its creation for fifteen minutes.
  pub verify_access_token-create_access_token :
      (user_id role : String) (tenant_id : Option String) (now later : ℕ)
      → Decodes jwt key (access_claims user_id role tenant_id now)
      → verify_access_token jwt key later (create_access_token jwt key user_id role tenant_id now)
        ≡ (if ltb later now
            then inl (concat ("Invalid token: " ∷ "The token is not yet valid (iat)" ∷ []))
            else if ltb later (now + 900)
            then inr (access_claims user_id role tenant_id now)
            else inl "Access token has expired")
  unfolding verify_access_token create_access_token
  verify_access_token-create_access_token user_id role tenant_id now later law =
      rw (law later) (ground arith)

  -- Neither kind of token passes for the other, at any time.
  pub other_kind_refused :
      (user_id role : String) (tenant_id : Option String) (now later : ℕ) (c : Claims)
      → Decodes jwt key (access_claims user_id role tenant_id now)
      → Decodes jwt key (refresh_claims user_id now)
      → ¬ (verify_access_token jwt key later (create_refresh_token jwt key user_id now) ≡ inr c)
        × ¬ (
            verify_refresh_token jwt key later
              (create_access_token jwt key user_id role tenant_id now)
            ≡ inr c)
  unfolding verify_access_token verify_refresh_token create_access_token create_refresh_token
  other_kind_refused user_id role tenant_id now later c access refresh =
      (rw (refresh later) (ground arith), rw (access later) (ground arith))

compute_hmac_signature_not_empty :
    (hexdigest : String → String → String) (secret payload_bytes : String)
    → (compute_hmac_signature hexdigest secret payload_bytes == "") ≡ false
unfolding compute_hmac_signature
compute_hmac_signature_not_empty hexdigest secret payload_bytes = concat_not_empty "sha256=" _ refl

-- A signature is accepted for a payload exactly when it is the one that the secret makes for it.
pub verify_hmac_signature-compute_hmac_signature :
    (hexdigest : String → String → String) (secret payload_bytes : String)
    (signature_header : Option String)
    → (verify_hmac_signature hexdigest secret payload_bytes signature_header ≡ true)
      ↔ (signature_header ≡ some (compute_hmac_signature hexdigest secret payload_bytes))
unfolding verify_hmac_signature
verify_hmac_signature-compute_hmac_signature hexdigest secret payload_bytes none =
    (λ h. absurd (false≢true h), λ h. cc)
verify_hmac_signature-compute_hmac_signature hexdigest secret payload_bytes
      (some signature_header) =
    let signature = compute_hmac_signature hexdigest secret payload_bytes in
    (
      λ h. ground (arith, eq_iff signature signature_header),
      λ h. ground (
        arith,
        eq_iff signature signature_header,
        compute_hmac_signature_not_empty hexdigest secret payload_bytes,
      ),
    )
