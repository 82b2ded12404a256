-- ===== src/Core/Security.antt =====
-- core/security.py. The libraries `jwt` and `bcrypt` and the keyed hash are given from outside. Times
-- are whole seconds, to which a JWT rounds them down; a text stands for its bytes in UTF-8.
pub mod Tokens
mod Tests
use delivery_time_prediction.Prelude.{
  ℕ, ◌+◌, ◌*◌, String, Bool, true, false, ◌⊎◌, inl, inr, Option, none, some, [], ◌∷◌, ◌==◌, concat,
  if◌then◌else◌,
}
use delivery_time_prediction.Core.Result.{Result}

-- The payload of a token, by its keys; none is a key that is not there.
pub record Claims : Type 0 where
  pub sub : Option String
  pub role : Option String
  pub tenant_id : Option String
  pub token_type : Option String
  pub iat : Option ℕ
  pub exp : Option ℕ

pub data JwtError : Type 0 where
  expired_signature : JwtError
  invalid_token : String → JwtError

-- `jwt.encode(payload, key)`, and `jwt.decode(token, key)` at the time that comes first.
pub record Jwt : Type 0 where
  pub encode : Claims → String → String
  pub decode : ℕ → String → String → JwtError ⊎ Claims

-- `bcrypt.hashpw(password, salt)` and `bcrypt.checkpw(password, hashed)`, which may raise.
pub record Bcrypt : Type 0 where
  pub hashpw : String → String → Result String
  pub checkpw : String → String → Result Bool

-- `salt` is what `bcrypt.gensalt` drew.
unfoldable pub hash_password : Bcrypt → String → String → Result String
hash_password bcrypt plain_password salt = bcrypt.hashpw plain_password salt

unfoldable pub verify_password : Bcrypt → String → String → Result Bool
verify_password bcrypt plain_password hashed_password =
    bcrypt.checkpw plain_password hashed_password

abbrev pub access_token_expire_minutes : ℕ
access_token_expire_minutes = 15

abbrev pub refresh_token_expire_days : ℕ
refresh_token_expire_days = 7

-- `if tenant_id:`
abbrev pub non_empty : Option String → Option String
non_empty none = none
non_empty (some s) = if s == "" then none else some s

abbrev pub access_claims : String → String → Option String → ℕ → Claims
access_claims user_id role tenant_id now = record {
  sub = some user_id;
  role = some role;
  tenant_id = non_empty tenant_id;
  token_type = some "access";
  iat = some now;
  exp = some (now + access_token_expire_minutes * 60);
}

abbrev pub refresh_claims : String → ℕ → Claims
refresh_claims user_id now = record {
  sub = some user_id;
  role = none;
  tenant_id = none;
  token_type = some "refresh";
  iat = some now;
  exp = some (now + refresh_token_expire_days * 86_400);
}

-- `payload.get("type") != wanted`, the other way round.
abbrev pub has_type : String → Claims → Bool
has_type wanted payload = elim payload.token_type [ none ↦ false | some t ↦ t == wanted ]

-- What `verify_access_token` and `verify_refresh_token` make of the outcome of `decode_token`.
abbrev checked : String → String → String → JwtError ⊎ Claims → String ⊎ Claims
checked wanted refusal late (inl expired_signature) = inl late
checked wanted refusal late (inl (invalid_token e)) = inl (concat ("Invalid token: " ∷ e ∷ []))
checked wanted refusal late (inr payload) =
    if has_type wanted payload then inr payload else inl refusal

module _ (jwt : Jwt) (jwt_secret_key : String) where
  pub create_access_token : String → String → Option String → ℕ → String
  create_access_token user_id role tenant_id now =
      jwt.encode (access_claims user_id role tenant_id now) jwt_secret_key

  pub create_refresh_token : String → ℕ → String
  create_refresh_token user_id now = jwt.encode (refresh_claims user_id now) jwt_secret_key

  pub decode_token : ℕ → String → JwtError ⊎ Claims
  decode_token now token = jwt.decode now token jwt_secret_key

  -- The ValueError that is raised instead is its text.
  pub verify_access_token : ℕ → String → String ⊎ Claims
  unfolding decode_token
  verify_access_token now token =
      checked "access" "Not an access token" "Access token has expired" (decode_token now token)

  pub verify_refresh_token : ℕ → String → String ⊎ Claims
  unfolding decode_token
  verify_refresh_token now token =
      checked "refresh" "Not a refresh token" "Refresh token has expired" (decode_token now token)

-- `hex` and `urlsafe` are the draws of `secrets`.
pub generate_api_key_pair : String → String → String × String
generate_api_key_pair hex urlsafe =
    (concat ("dlvq_live_" ∷ hex ∷ []), concat ("dlvq_sec_" ∷ urlsafe ∷ []))

-- `hexdigest key msg` is the HMAC with SHA-256 in hexadecimal digits.
module _ (hexdigest : String → String → String) where
  pub compute_hmac_signature : String → String → String
  compute_hmac_signature secret payload_bytes =
      concat ("sha256=" ∷ hexdigest secret payload_bytes ∷ [])

  -- For a header in ASCII, which `hmac.compare_digest` requires.
  pub verify_hmac_signature : String → String → Option String → Bool
  unfolding compute_hmac_signature
  verify_hmac_signature secret payload_bytes none = false
  verify_hmac_signature secret payload_bytes (some signature_header) =
      if signature_header == ""
      then false
      else compute_hmac_signature secret payload_bytes == signature_header
