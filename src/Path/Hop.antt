-- ===== src/Path/Hop.antt =====
-- What both ends of a path keep of a hop: PathHopConfig of path.hpp, LR_CommitRecord of
-- relay_commit.hpp, TransitHop of transit_hop.hpp, and the queues of ihophandler.cpp. Routers and
-- path ids are named by numbers, with 0 for a path id of zero bytes.
use bittoro_network.Prelude.{
  ℕ, List, [], ◌∷◌, ◌++◌, Option, none, some, Bool, length, leb, if◌then◌else◌,
}
use bittoro_network.Crypto.{SecretKey}

pub record RouterContact : Type 0 where
  pub pubkey : ℕ
  pub enckey : List ℕ

pub record PathHopConfig : Type 0 where
  pub tx_id : ℕ
  pub rx_id : ℕ
  pub rc : RouterContact
  pub commkey : SecretKey
  pub shared : List ℕ
  pub nonce_xor : List ℕ
  pub upstream : ℕ
  pub nonce : List ℕ
  pub lifetime : ℕ

-- The proof of work is the seconds that it extends the lifetime by.
pub record CommitRecord : Type 0 where
  pub commkey : List ℕ
  pub next_hop : ℕ
  pub tunnel_nonce : List ℕ
  pub txid : ℕ
  pub rxid : ℕ
  pub next_rc : Option RouterContact
  pub work : Option ℕ
  pub lifetime : ℕ

pub record TransitHopInfo : Type 0 where
  pub tx_id : ℕ
  pub rx_id : ℕ
  pub upstream : ℕ
  pub downstream : ℕ

-- TrafficQueue_t, where it is allocated: bytes with a nonce.
abbrev pub TrafficQueue : Type 0
TrafficQueue = Option (List (List ℕ × List ℕ))

-- The gathering queues are enabled until Stop; m_FlushOthers holds hops by their receiving id.
pub record TransitHop : Type 0 where
  pub info : TransitHopInfo
  pub path_key : List ℕ
  pub nonce_xor : List ℕ
  pub started : ℕ
  pub lifetime : ℕ
  pub last_activity : ℕ
  pub destroy : Bool
  pub sequence_num : ℕ
  pub gathering : Bool
  pub upstream_queue : TrafficQueue
  pub downstream_queue : TrafficQueue
  pub flush_others : List ℕ

-- RelayUpstreamMessage and RelayDownstreamMessage
pub record RelayMessage : Type 0 where
  pub pathid : ℕ
  pub x : List ℕ
  pub y : List ℕ

-- IHopHandler::HandleUpstream and IHopHandler::HandleDownstream, each on its own queue
unfoldable pub enqueue : List ℕ → List ℕ → TrafficQueue → TrafficQueue
enqueue x y none = some ((x, y) ∷ [])
enqueue x y (some q) = some (q ++ ((x, y) ∷ []))

-- Encrypted::operator= on the buffer of a message just made: what is longer than its
-- MAX_LINK_MSG_SIZE - 128 bytes leaves it empty.
unfoldable pub encrypted : List ℕ → List ℕ
encrypted buf = if leb (length buf) 8064 then buf else []
