-- ===== src/Lib.antt =====
-- A model of parts of the network daemon under llarp/, with the theorems that make them correct.
--
-- Iwp models llarp/iwp, the link layer that carries messages between two routers over datagrams.
--   Iwp/Packet.antt     CreatePacket of session.cpp and the command bytes of message_buffer.hpp.
--   Iwp/Fragments.antt  what both kinds of messages share: the bitset of acked fragments, the
--                       fragments of a message, the loops over them.
--   Iwp/Outbound.antt   OutboundMessage of message_buffer.cpp, one function per method.
--   Iwp/Inbound.antt    InboundMessage of message_buffer.cpp, one function per method.
--   Iwp/Transfer.antt   both ends of a message together.
--   Iwp/Session.antt    Session of session.hpp and session.cpp: the record is its members, and the
--                       functions are what it sends: EncryptAndSend, SendMessageBuffer, SendMACK,
--                       Close, SendKeepAlive.
--   Iwp/Session/Handlers.antt  HandleXMIT, HandleDATA, HandleACKS, HandleNACK, HandleMACK, HandlePING,
--                       HandleCLOS and the dispatch of HandlePlaintext.
--   Iwp/Session/Timers.antt    Pump, Tick and HandlePlaintext.
--   Iwp/Session/Crypto.antt    EncryptWorker, DecryptMessageInPlace and DecryptWorker.
-- The other files below Iwp are the proofs, named for what they are about.
--
-- Util models what the daemon's components share, below llarp/util.
--   Util/Buffer.antt    llarp_buffer_t of buffer.hpp and buffer.cpp: memory and a cursor.
--   Util/Numerals.antt  the decimal numbers of vsnprintf, strtoull and atoi.
--   Util/Bencode.antt   bencode.cpp, and the readers of dictionaries of bencode.hpp.
--   Util/DecayingHashSet.antt  decaying_hashset.hpp.
--   Util/CoDel.antt     CoDelQueue of codel.hpp.
--   Util/Bencode/Dicts.antt  dictionaries of integers, as BEncode methods write them.
--
-- Profiling models llarp/profiling.cpp: how often a router connected and carried a path, when it is
-- good, and how its record is written and read with Util/Bencode.
--
-- Dht models llarp/dht: Dht/Bucket.antt is the XOR metric of kademlia.hpp and the search for the
-- nearest node of bucket.hpp.
--
-- Thread models the bounded queue of llarp/util/thread.
--   Thread/QueueManager.antt        QueueManager of queue_manager.cpp: the indices and the cells' states.
--   Thread/QueueManager/Clear.antt  its reservePopForClear and abortPushIndexReservation.
--   Thread/Queue.antt               Queue of queue.hpp: the objects in the cells, with the guards.
--   Thread/Queue/System.antt        any number of threads on one Queue, whose calls interleave.
--   Thread/Queue/Spec.antt          the bounded queue of values that it is for one thread.
-- An operation of QueueManager runs without another in between; the threads interleave between the
-- reserving of a cell and its commit. The loops of reservePushIndex and reservePopIndex run on fuel of
-- rounds: two are enough for every outcome but waiting for another thread, which is a result of its
-- own. The memory orders, pushBack and popFront, which block, are not modelled.
--
-- Dns models llarp/dns: Dns/Name.antt is DecodeName and EncodeName of name.cpp over the buffers of Util.
-- The loop of DecodeName runs on fuel of rounds; more rounds than the name has labels are enough.
--
-- Path models llarp/path, the onion paths, with llarp/messages/relay_commit.cpp and relay.cpp.
--   Crypto.antt            crypto_libsodium.cpp: the key exchange, the hash and the stream cipher, over
--                          the functions of libsodium, which are parameters.
--   Path/Hop.antt          what both ends keep of a hop, the records and messages between them.
--   Path/Build.antt        the constructor of Path, GenerateNextKey of pathbuilder.cpp on the client
--                          and HandleDecrypted of relay_commit.cpp on a router.
--   Path/Transit.antt      TransitHop of transit_hop.cpp: the work on messages that are relayed.
--   Path/Layers.antt       UpstreamWork and DownstreamWork of path.cpp on the client.
--   Path/Journey.antt      a built path from end to end, and the messages that travel along it.
--   Path/Status.antt       Path of path.cpp: its members, EnterState, what it sends.
--   Path/Timers.antt       Tick.
--   Path/Handlers.antt     the handlers of routing messages.
--   Path/BuildStatus.antt  HandleLRSM.
--   Path/Runs.antt         any calls on a path, in any order.
-- A record that the client could encode and encrypt, which is a parameter, reaches the router that it is
-- for as the client made it, and a message the other end of a link as it was sent: the bytes of the
-- frames and the link layer between are not part of it. Each hop is the only one
-- of its router with its path ids. The threads of a path take turns, and the gathering queues between them
-- are left out.
--
-- Net models llarp/net/ip.cpp: Net/Ip.antt is UpdateIPv4Address, which changes the addresses of a packet
-- in place and its checksums by the difference, and Net/Ip/Words.antt the sum of ipchksum, which
-- the source has but does not compile.
--
-- State is passed explicitly. A handler returns none where the code throws or reads outside of a
-- buffer. What leaves a component (packets on the wire, messages handed on, completion handlers that
-- are called) is appended to a list of its record. Time, random bytes, hashes and encryption are
-- parameters, in Env and Entropy; that random sources fill the bytes they are asked for is IsEntropy.
--
-- Numbers are natural numbers with the wrap-around of their type written out: times subtract modulo
-- 2 ^ 64 (sub64), fragment offsets add modulo 2 ^ 16 where the code has uint16_t (next16). The loops
-- over fragments run on fuel of nine rounds: the bitset has eight bits, so by the ninth round a loop
-- has ended or has left the bitset, which is the fault that the code has there. The loop of SendMACK
-- runs as many rounds as there are ids, since each round takes one at least. Hash maps are association
-- lists; their order stands for any order of iteration. The loop of bencode_read_dict runs one round
-- more than the buffer has bytes, and each round moves the cursor.
--
-- Not modelled: the handshake of a session (session.cpp, GenerateAndSendIntro to HandleGotIntroAck and
-- Recv_LL), logging, the threads of components other than Thread, the
-- router, its links to others, hidden services, exits, DHT lookups, the configuration, and components
-- that only call the operating system or vendored libraries.
pub mod Crypto
pub mod Dht
pub mod Dns
pub mod Iwp
pub mod Net
pub mod Path
pub mod Prelude
pub mod Profiling
pub mod Thread
pub mod Util
