-- ===== src/Reactor/Protocol/Signed.antt =====
-- A reply that src/axiam_sdk/amqp/_reactor_protocol.py signed verifies.
use axiam_python_sdk.Base.{
  String, ◌==◌, ◌≡◌, refl, ap, true, some, arith, str_refl, Bool-cases, inl, inr,
}
use axiam_python_sdk.Json.{Value, null, str, Fields, end, field, get, assign}
use axiam_python_sdk.Runtime.{Runtime, Bytes}
use axiam_python_sdk.Amqp.Hmac.Digest.{compare_digest_refl}
use axiam_python_sdk.Reactor.Protocol.{
  mac_is, canonical_reply_bytes, sign_reactor_reply, reactor_reply_signature_valid,
}

get-assign : (k : String) (v : Value) (d : Fields) → get k (assign k v d) ≡ some v
unfolding get assign
get-assign k v end = rw (str_refl k) refl
get-assign k v (field j w d) = elim (Bool-cases (j == k)) [
  | inl same ↦ rw (same, same) refl
  | inr other ↦ rw (other, other) (get-assign k v d)
]

assign_twice : (k : String) (v w : Value) (d : Fields) → assign k v (assign k w d) ≡ assign k v d
unfolding assign
assign_twice k v w end = rw (str_refl k) refl
assign_twice k v w (field j u d) = elim (Bool-cases (j == k)) [
  | inl same ↦ rw (same, same) refl
  | inr other ↦ rw (other, other) (ap (field j u) (assign_twice k v w d))
]

module _ (rt : Runtime) (key : Bytes) (reply : Fields) where
  abbrev mac : Bytes
  mac = rt.hmac key (canonical_reply_bytes rt reply)

  canonical_sign :
      canonical_reply_bytes rt (sign_reactor_reply rt key reply) ≡ canonical_reply_bytes rt reply
  unfolding canonical_reply_bytes sign_reactor_reply
  canonical_sign = ap rt.dumps_utf8 (assign_twice "hmac_signature" null _ reply)

  mac_is_own : mac_is rt key (canonical_reply_bytes rt reply) (some mac) ≡ true
  unfolding mac_is
  mac_is_own = compare_digest_refl mac

  get_signed : get "hmac_signature" (sign_reactor_reply rt key reply) ≡ some (str (rt.hex mac))
  unfolding sign_reactor_reply
  get_signed = get-assign "hmac_signature" (str (rt.hex mac)) reply

  -- Signing a reply, whatever its members, and checking the result under the same key succeeds,
  -- where `bytes.fromhex` reads back what `hexdigest` wrote of this MAC.
  pub valid-sign :
      rt.from_hex (rt.hex (rt.hmac key (canonical_reply_bytes rt reply)))
        ≡ some (rt.hmac key (canonical_reply_bytes rt reply))
      → reactor_reply_signature_valid rt key (sign_reactor_reply rt key reply) ≡ true
  unfolding reactor_reply_signature_valid
  valid-sign reads = ground (arith, get_signed, canonical_sign, reads, mac_is_own)
