-- ===== src/Ciba/Ping.antt =====
-- Which pings handle_ping of src/axiam_sdk/_ciba.py accepts.
use axiam_python_sdk.Base.{
  String, ◌≡◌, refl, ap, sym, ◌∙◌, ◌↔◌, Bool, true, false, ◌&&◌, not, inl, inr, Option, none, some,
  List, [], ◌∷◌, if◌then◌else◌, arith,
}
use axiam_python_sdk.Text.{is_blank, partition, lower_equals}
use axiam_python_sdk.Json.{Value, str, obj, Fields, get}
use axiam_python_sdk.Runtime.{Runtime, Bytes}
use axiam_python_sdk.Amqp.Hmac.{compare_digest}
use axiam_python_sdk.Amqp.Hmac.Digest.{compare_digest→eq, compare_digest_refl}
use axiam_python_sdk.Ciba.{
  PingError, authorizations, token_in, bearer_of, read_id, read_ping, token_is, handle_ping,
}

-- The one Authorization header is the scheme, a space and a token of the expected bytes, neither of
-- them empty.
pub record Bears (rt : Runtime) (headers : List (String × String)) (expected : String)
    : Type 0 where
  pub value : String
  pub scheme : String
  pub token : String
  pub alone : authorizations headers ≡ value ∷ []
  pub parted : partition b' ' value ≡ some (scheme, token)
  pub bearer : lower_equals scheme "bearer" ≡ true
  pub held : is_blank token ≡ false
  pub set : is_blank expected ≡ false
  pub same : rt.encode token ≡ rt.encode expected

-- The body is a JSON object whose auth_req_id is the text.
pub record Names (rt : Runtime) (body : Bytes) (id : String) : Type 0 where
  pub members : Fields
  pub loaded : rt.loads body ≡ some (obj members)
  pub named : get "auth_req_id" members ≡ some (str id)
  pub filled : is_blank id ≡ false

both_true : {a b : Bool} → a ≡ true → b ≡ true → (a && b) ≡ true
both_true {a} {b} ha hb = ground (arith, ha, hb)

text_read :
    (b : Bool) (s id : String)
    → (if b then inr PingError.no_id else inl s) ≡ inl id
    → (b ≡ false) × (s ≡ id)
text_read true s id h = absurd (ground arith)
text_read false s id h = (refl, ground arith)

read_id-inl :
    (v : Option Value) (id : String)
    → read_id v ≡ inl id
    → (v ≡ some (str id)) × (is_blank id ≡ false)
read_id-inl (some (str s)) id h =
    let (filled, same) = text_read (is_blank s) s id h in
    (ap (λ t. some (str t)) same, ap is_blank (sym same) ∙ filled)
read_id-inl none id h = absurd (ground arith)
read_id-inl (some v) id h = absurd (ground arith)

read_ping-inl :
    (o : Option Value) (id : String)
    → read_ping o ≡ inl id
    → (d : Fields) × (o ≡ some (obj d))
      × (get "auth_req_id" d ≡ some (str id))
      × (is_blank id ≡ false)
read_ping-inl none id h = absurd (ground arith)
read_ping-inl (some (obj d)) id h =
    let (named, filled) = read_id-inl (get "auth_req_id" d) id h in (d, refl, named, filled)
read_ping-inl (some v) id h = absurd (ground arith)

module _ (rt : Runtime) (expected : String) where
  token_held :
      (b : Bool) (token : String)
      → token_is rt expected (if b then some token else none) ≡ true
      → (b ≡ true) × (is_blank expected ≡ false) × (rt.encode token ≡ rt.encode expected)
  token_held false token h = absurd (ground arith)
  token_held true token h = (
    refl,
    ground (arith, h),
    compare_digest→eq (rt.encode token) (rt.encode expected) (ground (arith, h)),
  )

  token_is-token_in :
      (parts : Option (String × String))
      → token_is rt expected (token_in parts) ≡ true
      → (scheme : String) × (token : String) × (parts ≡ some (scheme, token))
        × (lower_equals scheme "bearer" ≡ true)
        × (is_blank token ≡ false)
        × (is_blank expected ≡ false)
        × (rt.encode token ≡ rt.encode expected)
  token_is-token_in none h = absurd (ground arith)
  token_is-token_in (some (scheme, token)) h =
      let (shape, set, same) = token_held _ token h in
      (scheme, token, refl, ground (arith, shape), ground (arith, shape), set, same)

  borne :
      (headers : List (String × String)) (values : List String)
      → authorizations headers ≡ values
      → token_is rt expected (bearer_of values) ≡ true
      → Bears rt headers expected
  borne headers [] alone h = absurd (ground arith)
  borne headers (value ∷ (v ∷ vs)) alone h = absurd (ground arith)
  borne headers (value ∷ []) alone h =
      let (scheme, token, parted, bearer, held, set, same) =
        token_is-token_in (partition b' ' value) h in
      record {
        value = value;
        scheme = scheme;
        token = token;
        alone = alone;
        parted = parted;
        bearer = bearer;
        held = held;
        set = set;
        same = same;
      }

  token_is-Bears :
      (headers : List (String × String))
      → Bears rt headers expected
      → token_is rt expected (bearer_of (authorizations headers)) ≡ true
  token_is-Bears headers b =
      ap (λ values. token_is rt expected (bearer_of values)) b.alone
      ∙ ap (λ parts. token_is rt expected (token_in parts)) b.parted
      ∙ ap (λ shape. token_is rt expected (if shape then some b.token else none))
          (both_true b.bearer (ap not b.held))
      ∙ both_true (ap not b.set) (
          ap (compare_digest (rt.encode b.token)) (sym b.same)
          ∙ compare_digest_refl (rt.encode b.token))

  ping_read :
      (answer : Bool) (o : Option Value) (id : String)
      → (if answer then read_ping o else inr PingError.refused) ≡ inl id
      → (answer ≡ true) × (read_ping o ≡ inl id)
  ping_read true o id h = (refl, h)
  ping_read false o id h = absurd (ground arith)

  -- A ping is accepted with an id exactly where its one Authorization header bears the expected token
  -- and its body names the id.
  pub handle_ping_iff :
      (headers : List (String × String)) (body : Bytes) (id : String)
      → (handle_ping rt headers body expected ≡ inl id)
        ↔ (Bears rt headers expected × Names rt body id)
  unfolding handle_ping
  handle_ping_iff headers body id = (
    λ h.
        let (held, read) = ping_read _ (rt.loads body) id h in
        let (d, loaded, named, filled) = read_ping-inl (rt.loads body) id read in
        (
          borne headers (authorizations headers) refl held,
          record { members = d; loaded = loaded; named = named; filled = filled },
        ),
    λ both.
        ap (λ b. if b then read_ping (rt.loads body) else inr PingError.refused)
          (token_is-Bears headers both.0)
        ∙ ap read_ping both.1.loaded
        ∙ ap read_id both.1.named
        ∙ ap (λ b. if b then inr PingError.no_id else inl id) both.1.filled,
  )
