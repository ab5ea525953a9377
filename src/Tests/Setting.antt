-- ===== src/Tests/Setting.antt =====
-- Python's standard library and PyJWT, as concrete functions for the examples.
use Prim.Native.Char.{code}
use axiam_python_sdk.Base.{String, true, Option, none, some, [], ◌∷◌, ◌++◌, if◌then◌else◌, eqb}
use axiam_python_sdk.Base.Int.{pos}
use axiam_python_sdk.Json.{Value, int, str, obj, Fields, end, field}
use axiam_python_sdk.Runtime.{Runtime, Bytes, Jose, usable_key}

abbrev pub codes : String → Bytes
codes String.[] = []
codes (String.◌∷◌ c s) = code c ∷ codes s

-- an AMQP message, signed with the key 1
abbrev pub amqp_event : Fields
amqp_event =
    field "key_version" (int (pos 2)) (field "issued_at" (str "t") (field "nonce" (str "n") end))

abbrev pub amqp_body : Bytes
amqp_body = 9 ∷ []

abbrev pub set_header : Fields
set_header =
    field "typ" (str "secevent+jwt") (field "alg" (str "EdDSA") (field "kid" (str "k") end))

-- the claims of a SET with the given id
abbrev pub set_claims : String → Fields
set_claims jti = field "iss" (str "me") (
    field "aud" (str "you") (
      field "jti" (str jti) (
        field "iat" (int (pos 1))
          (field "sub_id" (obj end) (field "events" (obj (field "logout" (obj end) end)) end)))))

abbrev pub load : Bytes → Option Value
load [] = none
load (c ∷ rest) =
    if eqb c 9
    then some (obj (field "hmac_signature" (str "\u{1}\u{3}") amqp_event))
    else if eqb c b'h'
    then some (obj set_header)
    else if eqb c b'a'
    then some (obj (set_claims "a"))
    else if eqb c b'b'
    then some (obj (set_claims "b"))
    else none

abbrev pub runtime : Runtime
runtime = record {
  hmac = λ key message. key ++ message;
  from_hex = λ text. some (codes text);
  hex = λ b. "\u{1}\u{3}";
  loads = load;
  dumps = λ d. 3 ∷ [];
  dumps_utf8 = λ d. 3 ∷ [];
  fromisoformat = λ text. some 1000;
  to_int = λ text. some (pos 5);
  decimal = λ n. b'5' ∷ [];
  b64decode = λ text. some (codes text);
  encode = codes;
}

abbrev pub jose : Jose
jose = record {
  pyjwk = λ entry. usable_key;
  is_ed25519 = λ entry. true;
  verify = λ message entry signature. true;
}
