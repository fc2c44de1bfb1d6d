-- ===== src/Crypto.antt =====
-- llarp/crypto/crypto_libsodium.cpp, as far as paths use it. The functions of libsodium are the
-- fields of Sodium; a scalar multiplication that fails is `none`. At the sizes that the callers
-- have, the hash and the stream do not fail.
pub mod Agreement
use bittoro_network.Prelude.{ℕ, ◌≡◌, List, [], ◌++◌, Option, some, ◌>>=◌, length}
use bittoro_network.Prelude.Xor.{xor_bytes}

pub record Sodium : Type 0 where
  -- crypto_scalarmult_curve25519: the scalar, then the point.
  pub scalarmult : List ℕ → List ℕ → Option (List ℕ)
  pub scalarmult_base : List ℕ → List ℕ
  -- crypto_generichash_blake2b: the message, then the key. The updates of one state hash what they
  -- are given in a row.
  pub generichash : List ℕ → List ℕ → List ℕ
  -- crypto_stream_xchacha20_xor: the message, the nonce, the key.
  pub stream_xor : List ℕ → List ℕ → List ℕ → List ℕ

-- SecretKey: the first 32 of its bytes, and the others, its public key.
pub record SecretKey : Type 0 where
  pub scalar : List ℕ
  pub to_public : List ℕ

-- encryption_keygen, from random bytes
unfoldable pub encryption_keygen : Sodium → List ℕ → SecretKey
encryption_keygen c random = record { scalar = random; to_public = c.scalarmult_base random }

-- dh
unfoldable pub dh : Sodium → List ℕ → List ℕ → List ℕ → SecretKey → Option (List ℕ)
dh c client_pk server_pk their_pub our_sec = c.scalarmult our_sec.scalar their_pub >>= λ shared.
    some (c.generichash (client_pk ++ server_pk ++ shared) [])

-- dh_client_priv
unfoldable pub dh_client : Sodium → List ℕ → SecretKey → List ℕ → Option (List ℕ)
dh_client c pk sk n = dh c sk.to_public pk pk sk >>= λ dh_result. some (c.generichash n dh_result)

-- dh_server_priv
unfoldable pub dh_server : Sodium → List ℕ → SecretKey → List ℕ → Option (List ℕ)
dh_server c pk sk n = dh c pk sk.to_public pk sk >>= λ dh_result. some (c.generichash n dh_result)

-- CryptoLibSodium::shorthash
unfoldable pub shorthash : Sodium → List ℕ → List ℕ
shorthash c buff = c.generichash buff []

-- CryptoLibSodium::xchacha20, which writes over its buffer
unfoldable pub xchacha20 : Sodium → List ℕ → List ℕ → List ℕ → List ℕ
xchacha20 c buff k n = c.stream_xor buff n k

-- What X25519 is documented to do: two that multiply each other's public keys come to one point.
unfoldable pub IsKeyExchange : Sodium → Type 0
IsKeyExchange c =
    (a b : List ℕ) → c.scalarmult a (c.scalarmult_base b) ≡ c.scalarmult b (c.scalarmult_base a)

-- What XChaCha20 is documented to do: the message is xored with a stream of bytes that hangs on the
-- nonce, the key and the length.
unfoldable pub IsStream : Sodium → (List ℕ → List ℕ → ℕ → List ℕ) → Type 0
IsStream c keystream =
    (buf n k : List ℕ) → c.stream_xor buf n k ≡ xor_bytes buf (keystream n k (length buf))
