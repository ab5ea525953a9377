-- ===== src/Amqp/Hmac.antt =====
-- src/axiam_sdk/amqp/_hmac.py: the signature of a message body.
pub mod Digest
use axiam_python_sdk.Base.{Bool, true, false, ◌&&◌, Option, none, some, [], ◌∷◌, eqb}
use axiam_python_sdk.Json.{Value, str, obj, Fields, get, pop}
use axiam_python_sdk.Runtime.{Runtime, Bytes}

-- hmac.compare_digest
unfoldable pub compare_digest : Bytes → Bytes → Bool
compare_digest [] [] = true
compare_digest (a ∷ as') (b ∷ bs) = eqb a b && compare_digest as' bs
compare_digest _ _ = false

module _ (rt : Runtime) where
  -- the MAC of the canonical bytes against the decoded signature
  unfoldable pub mac_matches : Bytes → Bytes → Option Bytes → Bool
  mac_matches key canonical none = false
  mac_matches key canonical (some expected) = compare_digest (rt.hmac key canonical) expected

  unfoldable pub verify_signature : Bytes → Fields → Option Value → Bool
  unfolding mac_matches
  verify_signature key msg (some (str sig_hex)) =
      mac_matches key (rt.dumps (pop "hmac_signature" msg)) (rt.from_hex sig_hex)
  verify_signature key msg _ = false

  unfoldable pub verify_loaded : Bytes → Option Value → Bool
  unfolding verify_signature
  verify_loaded key (some (obj msg)) = verify_signature key msg (get "hmac_signature" msg)
  verify_loaded key _ = false

  -- never raises: every failure is false
  unfoldable pub verify_hmac : Bytes → Bytes → Bool
  unfolding verify_signature verify_loaded
  verify_hmac key body = verify_loaded key (rt.loads body)
