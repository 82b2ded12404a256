-- ===== src/Core/Security/Tests.antt =====
-- core/security.py where the keyed hash puts the secret before the payload.
use delivery_time_prediction.Prelude.{String, ◌≡◌, refl, true, false, none, some, [], ◌∷◌, concat}
use delivery_time_prediction.Core.Security.{
  compute_hmac_signature, verify_hmac_signature, generate_api_key_pair,
}

abbrev hexdigest : String → String → String
hexdigest secret payload = concat (secret ∷ payload ∷ [])

accepted : verify_hmac_signature hexdigest "s" "body" (some "sha256=sbody") ≡ true
unfolding verify_hmac_signature compute_hmac_signature concat
accepted = refl

tampered : verify_hmac_signature hexdigest "s" "tampered" (some "sha256=sbody") ≡ false
unfolding verify_hmac_signature compute_hmac_signature concat
tampered = refl

unsigned : verify_hmac_signature hexdigest "s" "body" none ≡ false
unfolding verify_hmac_signature
unsigned = refl

key_pair : generate_api_key_pair "ab" "cd" ≡ ("dlvq_live_ab", "dlvq_sec_cd")
unfolding generate_api_key_pair concat
key_pair = refl
