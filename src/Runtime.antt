-- ===== src/Runtime.antt =====
-- What the SDK takes from Python's standard library and third-party packages and does not implement:
-- `hmac`, `json`, `bytes.fromhex`, `datetime.fromisoformat`, `int`. Bytes are lists of numbers.
use axiam_python_sdk.Base.{ℕ, String, Bool, Option, List}
use axiam_python_sdk.Base.Int.{ℤ}
use axiam_python_sdk.Json.{Value, Fields}

abbrev pub Bytes : Type 0
Bytes = List ℕ

pub record Runtime : Type 0 where
  -- hmac.new(key, message, hashlib.sha256).digest()
  pub hmac : Bytes → Bytes → Bytes
  -- bytes.fromhex; none for the ValueError
  pub from_hex : String → Option Bytes
  -- bytes.hex
  pub hex : Bytes → String
  -- json.loads; none for the exceptions that the callers catch
  pub loads : Bytes → Option Value
  -- json.dumps(msg, separators=(",", ":")).encode("utf-8")
  pub dumps : Fields → Bytes
  -- the same with ensure_ascii=False
  pub dumps_utf8 : Fields → Bytes
  -- datetime.fromisoformat as an instant, with a naive result read as UTC; none for the ValueError
  pub fromisoformat : String → Option ℕ
  -- int(text); none for the ValueError
  pub to_int : String → Option ℤ
  -- str(n).encode("ascii")
  pub decimal : ℤ → Bytes
  -- base64.urlsafe_b64decode of a part with its padding added; none for the binascii.Error
  pub b64decode : String → Option Bytes
  -- text.encode("utf-8")
  pub encode : String → Bytes

-- What jwt.PyJWK(entry) does: a key, a PyJWTError, or another exception.
pub data Loaded : Type 0 where
  usable_key unusable_key : Loaded
  broken_key : String → Loaded

-- What the SDK takes from PyJWT, for a key given by its JWK entry.
pub record Jose : Type 0 where
  -- jwt.PyJWK(entry)
  pub pyjwk : Fields → Loaded
  -- isinstance(key.key, Ed25519PublicKey)
  pub is_ed25519 : Fields → Bool
  -- OKPAlgorithm().verify(message, key, signature)
  pub verify : Bytes → Fields → Bytes → Bool
