-- ===== src/Path/Onion.antt =====
-- path.cpp and transit_hop.cpp: the layers that the client puts on a buffer come off one by one.
use bittoro_network.Prelude.{ℕ, ◌≤◌, ◌≡◌, refl, List, [], ◌∷◌, length, arith}
use bittoro_network.Prelude.Xor.{xor_bytes, length-xor_bytes, xor_bytes-swap, xor_bytes-cancel}
use bittoro_network.Crypto.{Sodium, IsStream, xchacha20}
use bittoro_network.Path.Hop.{PathHopConfig, encrypted}
use bittoro_network.Path.Layers.{add_layers}

module _ (c : Sodium) (keystream : List ℕ → List ℕ → ℕ → List ℕ)
    (stream : IsStream c keystream) where
  pub length-xchacha20 : (buf k n : List ℕ) → length (xchacha20 c buf k n) ≡ length buf
  unfolding xchacha20 IsStream
  length-xchacha20 buf k n = rw (stream buf n k) (length-xor_bytes buf _)

  pub xchacha20-cancel : (buf k n : List ℕ) → xchacha20 c (xchacha20 c buf k n) k n ≡ buf
  unfolding xchacha20 IsStream
  xchacha20-cancel buf k n =
      rw (stream buf n k, stream (xor_bytes buf (keystream n k (length buf))) n k)
        (rw (length-xor_bytes buf (keystream n k (length buf))) (xor_bytes-cancel buf _))

  pub xchacha20-swap :
      (buf k n l m : List ℕ)
      → xchacha20 c (xchacha20 c buf k n) l m ≡ xchacha20 c (xchacha20 c buf l m) k n
  unfolding xchacha20 IsStream
  xchacha20-swap buf k n l m =
      rw
        (
          stream buf n k,
          stream buf m l,
          stream (xor_bytes buf (keystream n k (length buf))) m l,
          stream (xor_bytes buf (keystream m l (length buf))) n k,
          length-xor_bytes buf (keystream n k (length buf)),
          length-xor_bytes buf (keystream m l (length buf)),
        )
        (xor_bytes-swap buf _ _)

  pub length-add_layers :
      (hs : List PathHopConfig) (buf n : List ℕ) → length (add_layers c hs buf n) ≡ length buf
  unfolding add_layers
  length-add_layers [] buf n = refl
  length-add_layers (h ∷ hs) buf n =
      rw (length-add_layers hs (xchacha20 c buf h.shared n) (xor_bytes n h.nonce_xor))
        (length-xchacha20 buf h.shared n)

  -- A key stream passes under the layers of the hops.
  xchacha20-add_layers :
      (hs : List PathHopConfig) (buf n k m : List ℕ)
      → xchacha20 c (add_layers c hs buf n) k m ≡ add_layers c hs (xchacha20 c buf k m) n
  unfolding add_layers
  xchacha20-add_layers [] buf n k m = refl
  xchacha20-add_layers (h ∷ hs) buf n k m =
      rw
        (
          xchacha20-add_layers hs (xchacha20 c buf h.shared n) (xor_bytes n h.nonce_xor) k m,
          xchacha20-swap buf h.shared n k m,
        )
        refl

  -- The first hop takes its own layer off.
  pub peel_first :
      (h : PathHopConfig) (hs : List PathHopConfig) (buf n : List ℕ)
      → xchacha20 c (add_layers c (h ∷ hs) buf n) h.shared n
        ≡ add_layers c hs buf (xor_bytes n h.nonce_xor)
  unfolding add_layers
  peel_first h hs buf n =
      rw
        (
          xchacha20-add_layers hs (xchacha20 c buf h.shared n) (xor_bytes n h.nonce_xor) h.shared n,
          xchacha20-cancel buf h.shared n,
        )
        refl

pub encrypted_fits : (buf : List ℕ) → length buf ≤ 8064 → encrypted buf ≡ buf
unfolding encrypted
encrypted_fits buf h = ground arith
