-- ===== src/Iwp/Inputs.antt =====
-- Inputs of the tests of the link layer: random bytes, an environment, sessions and messages.
use bittoro_network.Prelude.{ℕ, List, [], some, true, false, replicate, length-replicate, refl}
use bittoro_network.Iwp.Packet.{Entropy, IsEntropy}
use bittoro_network.Iwp.Outbound.{OutboundMessage}
use bittoro_network.Iwp.Inbound.{InboundMessage}
use bittoro_network.Iwp.Session.{Session, Env, ready}

abbrev pub entropy : Entropy
entropy = record {
  memory = λ n. replicate n 0xaa;
  padding = λ n. replicate n 7;
  nonce = replicate 32 1;
  int = 3;
}

pub entropy-IsEntropy : IsEntropy entropy
entropy-IsEntropy = record {
  memory_length = λ n. length-replicate n 0xaa;
  padding_length = λ n. length-replicate n 7;
  nonce_length = refl;
}

abbrev pub env : Env
env = record {
  shorthash = λ bytes. replicate 32 5;
  entropy = λ n. entropy;
  seal = λ p. p;
  now = 1000;
  clock = 1001;
}

abbrev pub idle : Session
idle = record {
  state = ready;
  mapped = true;
  last_tx = 900;
  last_rx = 900;
  tx_rate = 0;
  rx_rate = 0;
  current_tx = 0;
  current_rx = 0;
  reset_rates_at = 2000;
  tx_id = 4;
  rx_msgs = [];
  tx_msgs = [];
  replay_filter = [];
  send_macks = [];
  encrypt_next = [];
  work = [];
  wire = [];
  handled = [];
  informed = [];
  made = 0;
}

abbrev pub long_message : List ℕ
long_message = replicate 2100 3

-- A message of three fragments, of which none is acked.
abbrev pub outbound : OutboundMessage
outbound = record {
  content = long_message;
  msg_id = 9;
  acked = replicate 8 false;
  completed = some 77;
  last_flush = 0;
  digest = replicate 32 5;
  started_at = 5;
}

-- The same message at the receiver, all there.
abbrev pub inbound : InboundMessage
inbound = record {
  content = long_message;
  digest = replicate 32 5;
  msg_id = 9;
  last_ack_sent = 0;
  last_active_at = 5;
  acked = replicate 8 true;
}
