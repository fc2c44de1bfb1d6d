-- ===== src/Crypto/Agreement.antt =====
-- crypto_libsodium.cpp: both sides of a key exchange.
use bittoro_network.Prelude.{ℕ, ◌≡◌, refl, List}
use bittoro_network.Crypto.{Sodium, IsKeyExchange, encryption_keygen, dh, dh_client, dh_server}

-- The client and the server of a key exchange come to one secret.
pub dh_client-dh_server :
    (c : Sodium)
    → IsKeyExchange c
    → (a b n : List ℕ)
    → let ours = encryption_keygen c a in
      let theirs = encryption_keygen c b in
      dh_client c theirs.to_public ours n ≡ dh_server c ours.to_public theirs n
unfolding dh_client dh_server dh encryption_keygen IsKeyExchange
dh_client-dh_server c exchange a b n = rw (exchange a b) refl
