-- ===== src/Iwp/Session/Crypto.antt =====
-- EncryptWorker, DecryptMessageInPlace and DecryptWorker of llarp/iwp/session.cpp, with the keyed
-- hash and the stream cipher under the session key as parameters.
use bittoro_network.Prelude.{
  ℕ, ◌<◌, ◌≡◌, sym, ap, ◌∙◌, List, [], ◌∷◌, ◌++◌, Option, none, some, Bool, true, false, not, leb,
  ◌==◌, if◌then◌else◌, length, length-append, length-drop, get_elem?, take, drop, drop-append,
  take-append, take-drop, drop-drop, arith, ◌>>=◌,
}
use mathlib.Core.List.{append_assoc}
use bittoro_network.Prelude.Bytes.{slice, bytes_eq, bytes_eq_refl, length-slice}
use bittoro_network.Iwp.Packet.{Packet, packet_overhead, hmac_size, tun_nonce_size, proto_version}

-- CryptoManager::instance(), under one session key: hmac(result, bytes, key) and xchacha20(bytes,
-- key, nonce).
pub record Crypto : Type 0 where
  pub hmac : List ℕ → List ℕ
  pub xchacha20 : List ℕ → List ℕ → List ℕ
  -- what the two calls return
  pub hmac_succeeds : List ℕ → Bool
  pub xchacha20_succeeds : List ℕ → List ℕ → Bool

-- The calls succeed; a hash has 32 bytes; the cipher keeps the length, and undoes itself under the same nonce.
pub record IsCrypto (c : Crypto) : Type 0 where
  pub hmac_runs : (xs : List ℕ) → c.hmac_succeeds xs ≡ true
  pub xchacha20_runs : (nonce xs : List ℕ) → c.xchacha20_succeeds nonce xs ≡ true
  pub hash_length : (xs : List ℕ) → length (c.hmac xs) ≡ hmac_size
  pub keeps_length : (nonce xs : List ℕ) → length (c.xchacha20 nonce xs) ≡ length xs
  pub undoes : (nonce xs : List ℕ) → c.xchacha20 nonce (c.xchacha20 nonce xs) ≡ xs

-- One round of EncryptWorker.
unfoldable pub seal_packet : Crypto → Packet → Packet
seal_packet c p =
    let body = c.xchacha20 (slice hmac_size tun_nonce_size p) (drop packet_overhead p) in
    let rest = slice hmac_size tun_nonce_size p ++ body in c.hmac rest ++ rest

-- Session::DecryptMessageInPlace
unfoldable pub decrypt_message_in_place : Crypto → Packet → Option Packet
decrypt_message_in_place c p =
    if leb (length p) packet_overhead
    then none
    else if not (c.hmac_succeeds (drop hmac_size p))
    then none
    else if not (bytes_eq (c.hmac (drop hmac_size p)) (take hmac_size p))
    then none
    else if c.xchacha20_succeeds (slice hmac_size tun_nonce_size p) (drop packet_overhead p)
    then some (
        take packet_overhead p
        ++ c.xchacha20 (slice hmac_size tun_nonce_size p) (drop packet_overhead p))
    else none

-- Session::DecryptWorker: the packets that it hands to HandlePlaintext.
unfoldable pub decrypt_worker : Crypto → List Packet → Option (List Packet)
decrypt_worker c [] = some []
decrypt_worker c (p ∷ ps) =
    let rest = decrypt_worker c ps in
    elim (decrypt_message_in_place c p) [
      | none ↦ rest
      | some q ↦
          (get_elem? q packet_overhead >>= λ version.
          rest >>= λ qs. if version == proto_version then some (q ∷ qs) else some qs)
    ]

-- What stands where in a sealed packet.
module _ (h n body : List ℕ) (hl : length h ≡ 32) (nl : length n ≡ 32) where
  sealed_long : 0 < length body → leb (length (h ++ (n ++ body))) 64 ≡ false
  sealed_long some_body = ground (arith, length-append h (n ++ body), length-append n body)

  drop_hash : drop 32 (h ++ (n ++ body)) ≡ n ++ body
  drop_hash = rw hl at (drop-append h (n ++ body))

  take_hash : take 32 (h ++ (n ++ body)) ≡ h
  take_hash = rw hl at (take-append h (n ++ body))

  slice_nonce : slice 32 32 (h ++ (n ++ body)) ≡ n
  unfolding slice
  slice_nonce = ap (take 32) drop_hash ∙ (rw nl at (take-append n body))

  take_head : take 64 (h ++ (n ++ body)) ≡ h ++ n
  take_head =
      let e : length (h ++ n) ≡ 64 = omega (arith, length-append h n) in
      ap (take 64) (sym (append_assoc h n body)) ∙ (rw e at (take-append (h ++ n) body))

  drop_head : drop 64 (h ++ (n ++ body)) ≡ body
  drop_head =
      let e : length (h ++ n) ≡ 64 = omega (arith, length-append h n) in
      ap (drop 64) (sym (append_assoc h n body)) ∙ (rw e at (drop-append (h ++ n) body))

-- Where the hash has 32 bytes, the cipher undoes itself and both calls succeed, a packet that is longer
-- than its overhead is decrypted to itself under the key that sealed it, but for its first 32 bytes.
pub decrypt_message_in_place-seal_packet :
    (c : Crypto) (p : Packet)
    → IsCrypto c
    → packet_overhead < length p
    → (h : List ℕ) × (length h ≡ hmac_size)
      × (decrypt_message_in_place c (seal_packet c p) ≡ some (h ++ drop hmac_size p))
unfolding decrypt_message_in_place seal_packet
decrypt_message_in_place-seal_packet c p good long =
    let n = slice hmac_size tun_nonce_size p in
    let body = c.xchacha20 n (drop packet_overhead p) in
    let h = c.hmac (n ++ body) in
    let nl : length n ≡ 32 = length-slice 32 32 p (omega arith) in
    let hl = good.hash_length (n ++ body) in
    let kept : 0 < length body =
      omega (arith, good.keeps_length n (drop packet_overhead p), length-drop 64 p) in
    let size = sealed_long h n body hl nl kept in
    let clear : n ++ drop 64 p ≡ drop 32 p =
      ap (λ xs. n ++ xs) (sym (drop-drop 32 32 p)) ∙ (unfold slice in take-drop 32 (drop 32 p)) in
    (
      h,
      hl,
      rw
          (
            size,
            drop_hash h n body hl nl,
            good.hmac_runs (n ++ body),
            take_hash h n body hl nl,
            bytes_eq_refl h,
            take_head h n body hl nl,
            slice_nonce h n body hl nl,
            drop_head h n body hl nl,
            good.xchacha20_runs n body,
            good.undoes n (drop packet_overhead p),
          )
          (ap some (append_assoc h n (drop 64 p) ∙ ap (λ xs. h ++ xs) clear)),
    )
