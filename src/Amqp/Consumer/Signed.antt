-- ===== src/Amqp/Consumer/Signed.antt =====
-- The signature that src/axiam_sdk/amqp/_hmac.py asks of a body, said of its object and its MAC.
use axiam_python_sdk.Base.{
  String, ◌==◌, ◌≡◌, refl, sym, ap, subst, str_refl, ◌∙◌, Bool, true, false, Option, none, some,
  arith, if◌then◌else◌, eq_iff,
}
use axiam_python_sdk.Json.{Value, str, obj, Fields, end, field, get, pop}
use axiam_python_sdk.Runtime.{Runtime, Bytes}
use axiam_python_sdk.Amqp.Consumer.{parse_event}
use axiam_python_sdk.Amqp.Hmac.{mac_matches, verify_signature, verify_loaded, verify_hmac}
use axiam_python_sdk.Amqp.Hmac.Digest.{compare_digest→eq, compare_digest_refl}

-- The second object is the first without its member of this key, which has this value.
pub data Removed (k : String) (v : Value) : Fields → Fields → Type 0 where
  here : {d : Fields} → Removed k v (field k v d) d
  there :
      {j : String} {w : Value} {d e : Fields}
      → (j == k) ≡ false
      → Removed k v d e
      → Removed k v (field j w d) (field j w e)

module _ (k : String) (v : Value) where
  get-Removed : {d e : Fields} → Removed k v d e → get k d ≡ some v
  unfolding get
  get-Removed here = rw (str_refl k) refl
  get-Removed (there {j} {w} {d} {e} differs r) = rw differs (get-Removed r)

  pop-Removed : {d e : Fields} → Removed k v d e → pop k d ≡ e
  unfolding pop
  pop-Removed here = rw (str_refl k) refl
  pop-Removed (there {j} {w} {d} {e} differs r) = rw differs (ap (field j w) (pop-Removed r))

  Removed-member :
      (j : String) (w : Value) (d e : Fields) (b : Bool)
      → (j == k) ≡ b
      → (if b then some w else get k d) ≡ some v
      → (get k d ≡ some v → Removed k v d e)
      → Removed k v (field j w d) (if b then d else field j w e)
  Removed-member j w d e true same h rest =
      subst (λ i. Removed k v (field i w d) d) (sym ((eq_iff j k).0 same))
        (subst (λ u. Removed k v (field k u d) d) (ground (arith, h)) here)
  Removed-member j w d e false differs h rest = there differs (rest h)

  Removed-pop : (d : Fields) → get k d ≡ some v → Removed k v d (pop k d)
  unfolding get pop
  Removed-pop end h = absurd (ground arith)
  Removed-pop (field j w d) h = Removed-member j w d (pop k d) (j == k) refl h (Removed-pop d)

-- The signature of a body: its object, the value of the signature member, and the object without
-- the member, whose MAC is the value.
pub record Signed (rt : Runtime) (key body : Bytes) (event : Fields) : Type 0 where
  pub message : Fields
  pub signature : String
  pub loaded : rt.loads body ≡ some (obj message)
  pub removed : Removed "hmac_signature" (str signature) message event
  pub genuine : rt.from_hex signature ≡ some (rt.hmac key (rt.dumps event))

module _ (rt : Runtime) (key : Bytes) where
  mac_matches-genuine :
      (canonical : Bytes) (o : Option Bytes)
      → mac_matches rt key canonical o ≡ true
      → o ≡ some (rt.hmac key canonical)
  unfolding mac_matches
  mac_matches-genuine canonical none h = absurd (ground arith)
  mac_matches-genuine canonical (some mac) h =
      ap some (sym (compare_digest→eq (rt.hmac key canonical) mac h))

  genuine_matches :
      (canonical : Bytes) (o : Option Bytes)
      → o ≡ some (rt.hmac key canonical)
      → mac_matches rt key canonical o ≡ true
  unfolding mac_matches
  genuine_matches canonical o h =
      ap (mac_matches rt key canonical) h ∙ compare_digest_refl (rt.hmac key canonical)

  signature_text :
      (message : Fields) (o : Option Value)
      → verify_signature rt key message o ≡ true
      → (signature : String) × (o ≡ some (str signature))
        × (rt.from_hex signature ≡ some (rt.hmac key (rt.dumps (pop "hmac_signature" message))))
  unfolding verify_signature
  signature_text message (some (str signature)) h =
      (signature, refl, mac_matches-genuine _ (rt.from_hex signature) h)
  signature_text message none h = absurd (ground arith)
  signature_text message (some v) h = absurd (ground arith)

  loaded-Signed :
      (body : Bytes) (event : Fields) (o : Option Value)
      → rt.loads body ≡ o
      → verify_loaded rt key o ≡ true
      → parse_event o ≡ some event
      → Signed rt key body event
  unfolding verify_loaded parse_event
  loaded-Signed body event none is h same = absurd (ground arith)
  loaded-Signed body event (some (obj message)) is h same =
      let (signature, carried, genuine) = signature_text message (get "hmac_signature" message) h in
      let popped : pop "hmac_signature" message ≡ event = ground (arith, same) in
      record {
        message = message;
        signature = signature;
        loaded = is;
        removed =
            subst (Removed "hmac_signature" (str signature) message) popped
              (Removed-pop "hmac_signature" (str signature) message carried);
        genuine = genuine ∙ ap (λ e. some (rt.hmac key (rt.dumps e))) popped;
      }
  loaded-Signed body event (some v) is h same = absurd (ground arith)

  pub verify_hmac-Signed :
      (body : Bytes) (event : Fields)
      → verify_hmac rt key body ≡ true
      → parse_event (rt.loads body) ≡ some event
      → Signed rt key body event
  unfolding verify_hmac
  verify_hmac-Signed body event h same = loaded-Signed body event (rt.loads body) refl h same

  pub Signed-verify_hmac :
      (body : Bytes) (event : Fields)
      → Signed rt key body event
      → (verify_hmac rt key body ≡ true) × (parse_event (rt.loads body) ≡ some event)
  unfolding verify_hmac verify_loaded verify_signature parse_event
  Signed-verify_hmac body event x =
      let carried = get-Removed "hmac_signature" (str x.signature) x.removed in
      let popped = pop-Removed "hmac_signature" (str x.signature) x.removed in
      (
        ap (verify_loaded rt key) x.loaded
            ∙ ap (verify_signature rt key x.message) carried
            ∙ genuine_matches _ (rt.from_hex x.signature)
                (x.genuine ∙ ap (λ e. some (rt.hmac key (rt.dumps e))) (sym popped)),
        ap parse_event x.loaded ∙ ap some popped,
      )
