-- ===== src/Ssf/Judge/Sound.antt =====
-- What a token that src/axiam_sdk/ssf/_receiver.py judges good has passed.
use axiam_python_sdk.Base.{
  String, ◌≡◌, ◌↔◌, true, Option, none, some, arith, Option-cases, inl, inr,
}
use axiam_python_sdk.Json.{Value, Fields, get}
use axiam_python_sdk.Runtime.{Jose}
use axiam_python_sdk.Ssf.{ok, SecurityEvent}
use axiam_python_sdk.Ssf.Parse.{Parsed}
use axiam_python_sdk.Ssf.Judge.{
  Config, is_issuer, names_audience, jti_text, numeric, as_object, single_event, expects, txn_text,
  signature_ok, judge_claims, judge, event_object, value_or_null,
}

-- Steps 6 to 8 of the specification, for the event that they describe.
pub record ClaimsPass (cfg : Config) (claims : Fields) (expected : Option String)
    (e : SecurityEvent) : Type 0 where
  pub issuer : is_issuer cfg.issuer (get "iss" claims) ≡ true
  pub audience : names_audience cfg.audience (get "aud" claims) ≡ true
  pub no_exp : get "exp" claims ≡ none
  pub no_sub : get "sub" claims ≡ none
  pub jti : jti_text (get "jti" claims) ≡ some e.jti
  pub iat : numeric (get "iat" claims) ≡ some e.iat
  pub sub_id : as_object (get "sub_id" claims) ≡ some e.sub_id
  pub body : Value
  pub event : single_event (get "events" claims) ≡ some (e.event_type, body)
  pub event_is : e.event ≡ event_object body
  pub poll_key : expects expected e.jti ≡ true
  pub iss_is : e.iss ≡ cfg.issuer
  pub aud_is : e.aud ≡ value_or_null (get "aud" claims)
  pub txn_is : e.txn ≡ txn_text (get "txn" claims)

module _ (cfg : Config) (claims : Fields) (expected : Option String) where
  ClaimsPass-judged :
      (e : SecurityEvent)
      → ClaimsPass cfg claims expected e
      → judge_claims cfg claims expected ≡ ok e
  unfolding judge_claims
  ClaimsPass-judged e p = ground arith

  judged-ClaimsPass :
      (e : SecurityEvent)
      → judge_claims cfg claims expected ≡ ok e
      → ClaimsPass cfg claims expected e
  unfolding judge_claims
  judged-ClaimsPass e h = elim (Option-cases (single_event (get "events" claims))) [
    | inl missing ↦ absurd (ground (arith, missing))
    | inr (pair, found) ↦ record {
      issuer = ground (arith, found);
      audience = ground (arith, found);
      no_exp = ground (arith, found);
      no_sub = ground (arith, found);
      jti = ground (arith, found);
      iat = ground (arith, found);
      sub_id = ground (arith, found);
      body = pair.1;
      event = ground (arith, found);
      event_is = ground (arith, found);
      poll_key = ground (arith, found);
      iss_is = ground (arith, found);
      aud_is = ground (arith, found);
      txn_is = ground (arith, found);
    }
  ]

-- Every step of the judgement, for the event that it returns.
pub record Passes (jose : Jose) (cfg : Config) (parsed : Parsed) (found : Option Fields)
    (expected : Option String) (e : SecurityEvent) : Type 0 where
  pub key : Fields
  pub key_found : found ≡ some key
  pub signed : signature_ok jose cfg parsed key ≡ true
  pub claims : ClaimsPass cfg parsed.claims expected e

module _ (jose : Jose) (cfg : Config) (parsed : Parsed) (found : Option Fields)
    (expected : Option String) (e : SecurityEvent) where
  judge-Passes :
      judge jose cfg parsed found expected ≡ ok e → Passes jose cfg parsed found expected e
  unfolding judge
  judge-Passes h = elim (Option-cases found) [
    | inl missing ↦ absurd (ground (arith, missing))
    | inr (key, there) ↦ record {
      key = key;
      key_found = there;
      signed = ground (arith, there);
      claims = judged-ClaimsPass cfg parsed.claims expected e (ground (arith, there));
    }
  ]

  Passes-judge :
      Passes jose cfg parsed found expected e → judge jose cfg parsed found expected ≡ ok e
  unfolding judge
  Passes-judge p = ground (arith, ClaimsPass-judged cfg parsed.claims expected e p.claims)

  pub judge_iff :
      (judge jose cfg parsed found expected ≡ ok e) ↔ Passes jose cfg parsed found expected e
  judge_iff = (judge-Passes, Passes-judge)
