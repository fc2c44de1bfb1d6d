-- ===== src/Path/Build.antt =====
-- How a path is built: the constructor of path.cpp and GenerateNextKey of pathbuilder.cpp on the
-- client, HandleDecrypted of llarp/messages/relay_commit.cpp on each router of the path. The frames
-- that carry the records are not modelled: a record reaches the router that it is for as it was made.
use bittoro_network.Prelude.{
  ℕ, suc, ◌+◌, ◌*◌, ◌%◌, ◌^◌, List, [], ◌∷◌, Option, none, some, Bool, true, false, ◌&&◌, ◌||◌, ltb,
  ◌==◌, if◌then◌else◌, ◌>>=◌,
}
use bittoro_network.Crypto.{Sodium, SecretKey, encryption_keygen, dh_client, dh_server, shorthash}
use bittoro_network.Path.Hop.{RouterContact, PathHopConfig, CommitRecord, TransitHop}

abbrev pub default_lifetime : ℕ
default_lifetime = 600000

-- A hop on a router, with the path ids that were drawn for it
unfoldable pub new_hop : RouterContact × (ℕ × ℕ) → PathHopConfig
new_hop (rc, (tx, rx)) = record {
  tx_id = tx;
  rx_id = rx;
  rc = rc;
  commkey = record { scalar = []; to_public = [] };
  shared = [];
  nonce_xor = [];
  upstream = 0;
  nonce = [];
  lifetime = default_lifetime;
}

-- Path::Path: each hop but the last sends with the id that the next one receives with.
unfoldable pub link_hops : List PathHopConfig → List PathHopConfig
link_hops [] = []
link_hops (h ∷ []) = h ∷ []
link_hops (h ∷ (k ∷ rest)) = record h { tx_id = k.rx_id } ∷ link_hops (k ∷ rest)

unfoldable pub new_hops : List (RouterContact × (ℕ × ℕ)) → List PathHopConfig
new_hops [] = []
new_hops (d ∷ ds) = new_hop d ∷ new_hops ds

-- The router that the next hop is on, if there is one
abbrev pub next_contact : List PathHopConfig → Option RouterContact
next_contact [] = none
next_contact (h ∷ rest) = some h.rc

-- The router that a hop forwards to: itself at the end of the path
abbrev pub hop_upstream : PathHopConfig → Option RouterContact → ℕ
hop_upstream h none = h.rc.pubkey
hop_upstream h (some rc) = rc.pubkey

-- The record for the router of a hop whose keys are made
unfoldable pub commit_record : PathHopConfig → Option RouterContact → CommitRecord
commit_record h next = record {
  commkey = h.commkey.to_public;
  next_hop = h.upstream;
  tunnel_nonce = h.nonce;
  txid = h.tx_id;
  rxid = h.rx_id;
  next_rc = next;
  work = none;
  lifetime = default_lifetime;
}

-- Does a step that can fail succeed?
abbrev pub guard : Bool → Option (Unit {0})
guard true = some tt
guard false = none

-- AsyncPathKeyExchangeContext::GenerateNextKey: the hop with its keys. `random` is what the key and
-- the nonce are made of.
unfoldable pub hop_keys :
    Sodium → List ℕ × List ℕ → PathHopConfig → Option RouterContact → Option PathHopConfig
hop_keys c random h next =
    let sk = encryption_keygen c random.0 in
    dh_client c h.rc.enckey sk random.1 >>= λ secret. some (record h {
      commkey = sk;
      nonce = random.1;
      shared = secret;
      nonce_xor = shorthash c secret;
      upstream = hop_upstream h next;
    })

-- GenerateNextKey at the hop with number `idx`, which posts itself for the next one: the keys and the
-- record of each hop. A key exchange that fails ends the build, and so does a record that `seals`
-- refuses, which stands for BEncode and EncryptInPlace. There are eight frames for the records; a
-- ninth one would be written behind them.
unfoldable pub generate_from :
    Sodium
    → (ℕ → List ℕ × List ℕ)
    → (CommitRecord → Bool)
    → ℕ
    → List PathHopConfig
    → Option (List PathHopConfig × List CommitRecord)
generate_from c random seals idx [] = some ([], [])
generate_from c random seals idx (h ∷ rest) = guard (ltb idx 8) >>= λ framed.
    hop_keys c (random idx) h (next_contact rest) >>= λ keyed.
    guard (seals (commit_record keyed (next_contact rest))) >>= λ sealed.
    generate_from c random seals (suc idx) rest >>= λ more.
    some (keyed ∷ more.0, commit_record keyed (next_contact rest) ∷ more.1)

-- AsyncGenerateKeys, up to the call of its handler
unfoldable pub generate_keys :
    Sodium
    → (ℕ → List ℕ × List ℕ)
    → (CommitRecord → Bool)
    → List PathHopConfig
    → Option (List PathHopConfig × List CommitRecord)
generate_keys c random seals hops = generate_from c random seals 0 hops

-- HandleDecrypted: the lifetime in milliseconds. `valid` is PoW::IsValid.
unfoldable pub accepted_lifetime : (ℕ → Bool) → CommitRecord → ℕ
accepted_lifetime valid r =
    let short = if ltb r.lifetime 600 && ltb 10 r.lifetime then r.lifetime else default_lifetime in
    elim r.work [
      | none ↦ short
      | some seconds ↦ if valid seconds then default_lifetime + (1000 * seconds) % 2 ^ 32 else short
    ]

-- HandleDecrypted: the hop that a router makes of a record from `downstream`, unless it refuses
unfoldable pub handle_decrypted :
    Sodium → (ℕ → Bool) → ℕ → SecretKey → ℕ → CommitRecord → Option TransitHop
handle_decrypted c valid now our_key downstream r =
    if r.txid == 0 || r.rxid == 0
    then none
    else dh_server c r.commkey our_key r.tunnel_nonce >>= λ secret. some (record {
      info = record {
        tx_id = r.txid;
        rx_id = r.rxid;
        upstream = r.next_hop;
        downstream = downstream;
      };
      path_key = secret;
      nonce_xor = shorthash c secret;
      started = now;
      lifetime = accepted_lifetime valid r;
      last_activity = 0;
      destroy = false;
      sequence_num = 0;
      gathering = true;
      upstream_queue = none;
      downstream_queue = none;
      flush_others = [];
    })
