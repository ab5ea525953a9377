-- ===== src/Amqp/Hmac/Digest.antt =====
-- hmac.compare_digest, as src/axiam_sdk/amqp/_hmac.py uses it, is equality of byte strings.
use axiam_python_sdk.Base.{◌≡◌, refl, true, [], ◌∷◌, arith}
use axiam_python_sdk.Runtime.{Bytes}
use axiam_python_sdk.Amqp.Hmac.{compare_digest}

pub compare_digest→eq : (a b : Bytes) → compare_digest a b ≡ true → a ≡ b
unfolding compare_digest
compare_digest→eq [] [] h = refl
compare_digest→eq (x ∷ xs) (y ∷ ys) h = ground (arith, compare_digest→eq xs ys)
compare_digest→eq [] (y ∷ ys) h = ground (arith, h)
compare_digest→eq (x ∷ xs) [] h = ground (arith, h)

pub compare_digest_refl : (a : Bytes) → compare_digest a a ≡ true
unfolding compare_digest
compare_digest_refl [] = refl
compare_digest_refl (x ∷ xs) = ground (arith, compare_digest_refl xs)
