-- ===== src/Amqp/Replay/Window.antt =====
-- How long the nonce store of src/axiam_sdk/amqp/_replay.py remembers one nonce.
use axiam_python_sdk.Base.{ℕ, ◌+◌, ◌<◌, String, ◌≡◌, true, false, some, arith, eq_iff}
use axiam_python_sdk.Dict.{lookup, IsUnique}
use axiam_python_sdk.Dict.Laws.{lookup-put, lookup-keep, put-IsUnique, keep-IsUnique}
use axiam_python_sdk.Expiring.{forget, live_at}
use axiam_python_sdk.Amqp.Replay.{NonceStore, check_and_record}

-- The store remembers the nonce until `expiry`.
pub record Remembers (nonce : String) (expiry : ℕ) (s : NonceStore) : Type 0 where
  pub unique : IsUnique s.seen
  pub recorded : lookup nonce s.seen ≡ some expiry

pub check_and_record-IsUnique :
    (nonce : String) (now : ℕ) (s : NonceStore)
    → IsUnique s.seen
    → IsUnique (check_and_record nonce now s).0.seen
unfolding check_and_record forget
check_and_record-IsUnique nonce now s u = ground (
  arith,
  keep-IsUnique (live_at now) s.seen u,
  put-IsUnique nonce (now + s.ttl_seconds) (forget now s.seen),
)

lookup-forget_live :
    (nonce : String) (expiry now : ℕ) (s : NonceStore)
    → now < expiry
    → Remembers nonce expiry s
    → lookup nonce (forget now s.seen) ≡ some expiry
unfolding forget
lookup-forget_live nonce expiry now s lt r =
    rw (lookup-keep (live_at now) nonce s.seen r.unique, r.recorded) (ground arith)

-- Until then it refuses the nonce, and a call for any nonce leaves it remembered.
pub check_and_record-Remembers :
    (nonce other : String) (expiry now : ℕ) (s : NonceStore)
    → now < expiry
    → Remembers nonce expiry s
    → Remembers nonce expiry (check_and_record other now s).0
unfolding check_and_record
check_and_record-Remembers nonce other expiry now s lt r = record {
  unique = unfold check_and_record in check_and_record-IsUnique other now s r.unique;
  recorded = ground (
    arith,
    lookup-forget_live nonce expiry now s lt r,
    lookup-put other nonce (now + s.ttl_seconds) (forget now s.seen),
    eq_iff other nonce,
  );
}

pub check_and_record_refuses :
    (nonce : String) (expiry now : ℕ) (s : NonceStore)
    → now < expiry
    → Remembers nonce expiry s
    → (check_and_record nonce now s).1 ≡ false
unfolding check_and_record
check_and_record_refuses nonce expiry now s lt r =
    ground (arith, lookup-forget_live nonce expiry now s lt r)

-- An accepted nonce is remembered for the lifetime of the store.
pub check_and_record_accepts :
    (nonce : String) (now : ℕ) (s : NonceStore)
    → IsUnique s.seen
    → (check_and_record nonce now s).1 ≡ true
    → Remembers nonce (now + s.ttl_seconds) (check_and_record nonce now s).0
unfolding check_and_record
check_and_record_accepts nonce now s u fresh = record {
  unique = unfold check_and_record in check_and_record-IsUnique nonce now s u;
  recorded =
      ground (
        arith,
        lookup-put nonce nonce (now + s.ttl_seconds) (forget now s.seen),
        eq_iff nonce nonce,
      );
}
