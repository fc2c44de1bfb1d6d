-- ===== src/Path/Layers.antt =====
-- The layers of encryption that the client of a path puts on and takes off: UpstreamWork and
-- DownstreamWork of Path in llarp/path/path.cpp.
use bittoro_network.Prelude.{ℕ, List, [], ◌∷◌, map}
use bittoro_network.Prelude.Xor.{xor_bytes}
use bittoro_network.Crypto.{Sodium, xchacha20}
use bittoro_network.Path.Hop.{PathHopConfig, RelayMessage, encrypted}

-- Path::TXID and Path::RXID; a path has a hop.
unfoldable pub first_tx_id : List PathHopConfig → ℕ
first_tx_id [] = 0
first_tx_id (h ∷ rest) = h.tx_id

unfoldable pub first_rx_id : List PathHopConfig → ℕ
first_rx_id [] = 0
first_rx_id (h ∷ rest) = h.rx_id

-- UpstreamWork: the loop over the hops
unfoldable pub add_layers : Sodium → List PathHopConfig → List ℕ → List ℕ → List ℕ
add_layers c [] buf n = buf
add_layers c (h ∷ rest) buf n =
    add_layers c rest (xchacha20 c buf h.shared n) (xor_bytes n h.nonce_xor)

-- UpstreamWork: one message
unfoldable pub layered : Sodium → List PathHopConfig → List ℕ × List ℕ → RelayMessage
layered c hops ev = record {
  pathid = first_tx_id hops;
  x = encrypted (add_layers c hops ev.0 ev.1);
  y = ev.1;
}

-- Path::UpstreamWork: what it hands to HandleAllUpstream, which sends it to the first hop
unfoldable pub upstream_work :
    Sodium → List PathHopConfig → List (List ℕ × List ℕ) → List RelayMessage
upstream_work c hops msgs = map (layered c hops) msgs

-- DownstreamWork: the loop over the hops, with the nonce that the message has in between
unfoldable pub remove_layers : Sodium → List PathHopConfig → List ℕ → List ℕ → List ℕ × List ℕ
remove_layers c [] buf y = (buf, y)
remove_layers c (h ∷ rest) buf y =
    remove_layers c rest (xchacha20 c buf h.shared (xor_bytes y h.nonce_xor))
      (xor_bytes y h.nonce_xor)

-- DownstreamWork: one message, whose path id is left unset
unfoldable pub peeled : Sodium → List PathHopConfig → List ℕ × List ℕ → RelayMessage
peeled c hops ev =
    let (buf, y) = remove_layers c hops ev.0 ev.1 in record { pathid = 0; x = encrypted buf; y = y }

-- Path::DownstreamWork: what it hands to HandleAllDownstream
unfoldable pub downstream_work :
    Sodium → List PathHopConfig → List (List ℕ × List ℕ) → List RelayMessage
downstream_work c hops msgs = map (peeled c hops) msgs
