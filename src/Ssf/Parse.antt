-- ===== src/Ssf/Parse.antt =====
-- Steps 1 to 3 of src/axiam_sdk/ssf/_receiver.py, and the presence of the key id.
use Prim.Native.String.{◌++◌}
use axiam_python_sdk.Base.{
  ℕ, String, ◌==◌, Bool, false, ◌&&◌, ◌||◌, Option, none, some, List, [], ◌∷◌, leb, eqb,
  if◌then◌else◌,
}
use axiam_python_sdk.Text.{split, every, lower_equals, is_blank}
use axiam_python_sdk.Json.{Value, str, obj, Fields, get}
use axiam_python_sdk.Runtime.{Runtime, Bytes}
use axiam_python_sdk.Ssf.{
  Result, ok, raised, ◌>>=◌, ◌>>◌, require, need, refusal, malformed, invalid_type, invalid_key,
}

-- _B64URL
abbrev pub is_b64url : ℕ → Bool
is_b64url c =
    (leb b'A' c && leb c b'Z')
    || (leb b'a' c && leb c b'z')
    || (leb b'0' c && leb c b'9')
    || eqb c b'-'
    || eqb c b'_'

pub record Parsed : Type 0 where
  pub kid : String
  pub signing_input : Bytes
  pub signature : Bytes
  pub claims : Fields

abbrev as_object : Option Value → Option Fields
as_object (some (obj d)) = some d
as_object _ = none

abbrev and_then : {A B : Type 0} → Option A → (A → Option B) → Option B
and_then none f = none
and_then (some a) f = f a

-- header.get("typ") as a SET's type
unfoldable pub is_set_type : Option Value → Bool
is_set_type (some (str typ)) =
    lower_equals typ "secevent+jwt" || lower_equals typ "application/secevent+jwt"
is_set_type _ = false

unfoldable pub is_eddsa : Option Value → Bool
is_eddsa (some (str alg)) = alg == "EdDSA"
is_eddsa _ = false

-- header.get("kid") as a non-empty string
unfoldable pub kid_text : Option Value → Option String
kid_text (some (str kid)) = if is_blank kid then none else some kid
kid_text _ = none

module _ (rt : Runtime) where
  -- _b64; none for the ValueError and the binascii.Error
  unfoldable pub b64 : String → Option Bytes
  b64 part = if every is_b64url part then rt.b64decode part else none

  -- _json_object
  unfoldable pub json_object : String → Option Fields
  unfolding b64
  json_object part = and_then (b64 part) (λ bytes. as_object (rt.loads bytes))

  -- the three parts
  unfoldable pub parse_parts : List String → Result Parsed
  unfolding b64 json_object is_set_type is_eddsa kid_text
  parse_parts (head ∷ body ∷ tail ∷ []) = do
    signature ← need (b64 tail) malformed
    header ← need (json_object head) malformed
    claims ← need (json_object body) malformed
    require (is_set_type (get "typ" header)) invalid_type
    require (is_eddsa (get "alg" header)) invalid_key
    kid ← need (kid_text (get "kid" header)) invalid_key
    ok (record {
      kid = kid;
      signing_input = rt.encode (head ++ ("." ++ body));
      signature = signature;
      claims = claims;
    })
  parse_parts _ = raised (refusal malformed)

  -- parse
  unfoldable pub parse : String → Result Parsed
  unfolding parse_parts
  parse set_token = parse_parts (split b'.' set_token)
