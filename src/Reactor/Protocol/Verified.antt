-- ===== src/Reactor/Protocol/Verified.antt =====
-- What an event has passed that src/axiam_sdk/amqp/_reactor_protocol.py verifies.
use axiam_python_sdk.Base.{
  ℕ, String, ◌≡◌, ◌↔◌, refl, sym, ap, subst, ◌∙◌, true, false, Option, none, some, arith, inl, inr,
  Option-cases,
}
use axiam_python_sdk.Base.Int.{ℤ, ltb_ℕ}
use axiam_python_sdk.Json.{Value, str, Fields, get, assign, null}
use axiam_python_sdk.Runtime.{Runtime, Bytes}
use axiam_python_sdk.Amqp.Hmac.Digest.{compare_digest→eq, compare_digest_refl}
use axiam_python_sdk.Reactor.Protocol.{
  ReactorEvent, verified, verify_event, signed_by, in_window, read_event, int_of, text_of,
  reactor_key_version, mac_is, mac_of_body, canonical_event_bytes,
}

text_of_str : (o : Option Value) (s : String) → text_of o ≡ some s → o ≡ some (str s)
text_of_str o s h = ground arith

module _ (rt : Runtime) (body : Fields) (key : Bytes) (now skew : ℕ) where
  -- What a verified body has passed.
  pub record Authentic (e : ReactorEvent) : Type 0 where
    pub version : int_of (get "key_version" body) ≡ some e.key_version
    pub current : ltb_ℕ e.key_version reactor_key_version ≡ false
    pub signature : String
    pub carried : get "hmac_signature" body ≡ some (str signature)
    pub mac :
        rt.from_hex signature
        ≡ some (rt.hmac key (rt.dumps_utf8 (assign "hmac_signature" null body)))
    pub shape : read_event e.key_version body ≡ some e
    pub fresh : in_window rt now skew e.issued_at ≡ true

  abbrev Mac : String → Type 0
  Mac signature =
      rt.from_hex signature ≡ some (rt.hmac key (rt.dumps_utf8 (assign "hmac_signature" null body)))

  mac_is-some :
      (canonical : Bytes) (o : Option Bytes)
      → mac_is rt key canonical o ≡ true
      → o ≡ some (rt.hmac key canonical)
  unfolding mac_is
  mac_is-some canonical none h = absurd (ground (arith, h))
  mac_is-some canonical (some received) h = ap some (compare_digest→eq received _ h)

  some-mac_is :
      (canonical : Bytes) (o : Option Bytes)
      → o ≡ some (rt.hmac key canonical)
      → mac_is rt key canonical o ≡ true
  unfolding mac_is
  some-mac_is canonical o e = rw e (compare_digest_refl (rt.hmac key canonical))

  -- The MAC step on a body that carries a signature.
  signed_of :
      (signature : String)
      → get "hmac_signature" body ≡ some (str signature)
      → signed_by rt key body
        ≡ mac_is rt key (rt.dumps_utf8 (assign "hmac_signature" null body)) (rt.from_hex signature)
  unfolding signed_by mac_of_body canonical_event_bytes
  signed_of signature carried = ground (arith, carried)

  signed-Mac :
      signed_by rt key body ≡ true
      → (signature : String) × (get "hmac_signature" body ≡ some (str signature)) × Mac signature
  unfolding signed_by mac_of_body canonical_event_bytes
  signed-Mac h = elim (Option-cases (text_of (get "hmac_signature" body))) [
    | inl missing ↦ absurd (ground (arith, missing))
    | inr (signature, there) ↦
        let carried = text_of_str (get "hmac_signature" body) signature there in
        (
          signature,
          carried,
          mac_is-some _ (rt.from_hex signature) (sym (signed_of signature carried) ∙ h),
        )
  ]

  Mac-signed :
      (signature : String)
      → get "hmac_signature" body ≡ some (str signature)
      → Mac signature
      → signed_by rt key body ≡ true
  unfolding signed_by mac_of_body canonical_event_bytes
  Mac-signed signature carried mac =
      signed_of signature carried ∙ some-mac_is _ (rt.from_hex signature) mac

  read-version :
      (version : ℤ) (e : ReactorEvent) → read_event version body ≡ some e → version ≡ e.key_version
  unfolding read_event
  read-version version e h = ground arith

  verified-Authentic :
      (e : ReactorEvent) → verify_event rt body key now skew ≡ verified e → Authentic e
  unfolding verify_event
  verified-Authentic e h = elim (Option-cases (int_of (get "key_version" body))) [
    | inl missing ↦ absurd (ground (arith, missing))
    | inr (version, there) ↦
        let (signature, carried, mac) = signed-Mac (ground (arith, there)) in
        let shape : read_event version body ≡ some e = ground (arith, there) in
        let same = read-version version e shape in
        record {
          version = there ∙ ap some same;
          current = subst (λ v. ltb_ℕ v reactor_key_version ≡ false) same (ground (arith, there));
          signature = signature;
          carried = carried;
          mac = mac;
          shape = subst (λ v. read_event v body ≡ some e) same shape;
          fresh = ground (arith, there);
        }
  ]

  Authentic-verified :
      (e : ReactorEvent) → Authentic e → verify_event rt body key now skew ≡ verified e
  unfolding verify_event
  Authentic-verified e a =
      rw (a.version, a.current, Mac-signed a.signature a.carried a.mac, a.shape, a.fresh) refl

  -- A body is verified, as an event, exactly when its `key_version` is an integer of at least 2, it
  -- carries a signature that decodes to the MAC of the body with the signature set to null in place,
  -- its members have the required types, the event is what they hold, and its `issued_at` parses and
  -- lies within the skew of the clock on either side.
  pub verify_event_iff :
      (e : ReactorEvent) → (verify_event rt body key now skew ≡ verified e) ↔ Authentic e
  verify_event_iff e = (verified-Authentic e, Authentic-verified e)
