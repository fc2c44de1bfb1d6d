-- ===== src/Iwp/Session/Receive.antt =====
-- HandleXMIT and HandleDATA keep what Replay states.
use bittoro_network.Prelude.{
  ℕ, ◌+◌, ◌-◌, ◌≡◌, refl, sym, subst, List, Option, none, some, arith, ltb, ◌==◌, if◌then◌else◌,
  length, >>=-eq-some, some_inj, if_rule,
}
use bittoro_network.Prelude.Bytes.{slice?, be_value}
use bittoro_network.Prelude.Assoc.{find, emplace}
use bittoro_network.Iwp.Packet.{Packet, packet_overhead, command_overhead}
use bittoro_network.Iwp.Inbound.{InboundMessage, handle_data, is_completed, verify}
use bittoro_network.Iwp.Inbound
use bittoro_network.Iwp.Session.{Session, Env}
use bittoro_network.Iwp.Session.Handlers.{
  queue_mack, short_xmit, handle_xmit, unknown_data, known_data, handle_data_packet,
}
use bittoro_network.Iwp.Session.Keeps.{Keeps, Keeps-same}
use bittoro_network.Iwp.Session.Replay.{
  OnceOnly, Keeps-OnceOnly, emplace-OnceOnly, queue_mack-Keeps, short_xmit-OnceOnly,
  known_data-OnceOnly, unknown_data-Keeps,
}

pub heard-Keeps : (env : Env) (s : Session) → Keeps s (record s { last_rx = env.now })
heard-Keeps env s = Keeps-same s (record s { last_rx = env.now }) refl refl refl

-- What HandleXMIT does with an id and a size that it has read.
abbrev opened : Env → ℕ → ℕ → List ℕ → Packet → Session → Option Session
opened env id sz h p s₁ =
    let m = Inbound.init id sz h env.now in
    let s₂ = record s₁ { rx_msgs = emplace id m s₁.rx_msgs } in
    if length p - (command_overhead + 2 + 8 + packet_overhead + 32) == 0
    then short_xmit env id sz p m s₂
    else some s₂

-- A result that keeps the property, whichever branch was taken.
abbrev pub Ensures : Option Session → Type 0
Ensures r = (t : Session) → r ≡ some t → OnceOnly t

opened-OnceOnly :
    (env : Env) (id sz : ℕ) (h : List ℕ) (p : Packet) (s : Session)
    → find id s.replay_filter ≡ none
    → OnceOnly s
    → Ensures (opened env id sz h p s)
opened-OnceOnly env id sz h p s new o =
    let m = Inbound.init id sz h env.now in
    let s₂ = record s { rx_msgs = emplace id m s.rx_msgs } in
    let o₂ : OnceOnly s₂ = emplace-OnceOnly id m s new o in
    if_rule Ensures (length p - (command_overhead + 2 + 8 + packet_overhead + 32) == 0)
      {x = short_xmit env id sz p m s₂} {y = some s₂}
      (λ t e. short_xmit-OnceOnly env id sz p m s₂ new o₂ e) (λ t e. subst OnceOnly (some_inj e) o₂)

xmit_choice-OnceOnly :
    (filtered : Option ℕ) (known : Option InboundMessage) (env : Env) (id sz : ℕ) (h : List ℕ)
    (p : Packet) (s : Session)
    → filtered ≡ find id s.replay_filter
    → OnceOnly s
    → Ensures (elim filtered [
      | some _ ↦ some (queue_mack id s)
      | none ↦ elim known [ some _ ↦ some s | none ↦ opened env id sz h p s ]
    ])
xmit_choice-OnceOnly (some at) known env id sz h p s f o t e =
    subst OnceOnly (some_inj e) (Keeps-OnceOnly (queue_mack-Keeps id s) o)
xmit_choice-OnceOnly none (some m) env id sz h p s f o t e = subst OnceOnly (some_inj e) o
xmit_choice-OnceOnly none none env id sz h p s f o t e =
    opened-OnceOnly env id sz h p s (sym f) o t e

pub handle_xmit-OnceOnly :
    (env : Env) (p : Packet) (s : Session) {s' : Session}
    → OnceOnly s
    → handle_xmit env p s ≡ some s'
    → OnceOnly s'
unfolding handle_xmit
handle_xmit-OnceOnly env p s {s'} o =
    if_rule Ensures (ltb (length p) 108) {x = some s} (λ t e. subst OnceOnly (some_inj e) o)
      (λ t h.
        let (size_bytes, _, h₁) = >>=-eq-some (slice? 66 2 p) _ h in
        let (id_bytes, _, h₂) = >>=-eq-some (slice? 68 8 p) _ h₁ in
        let (digest, _, h₃) = >>=-eq-some (slice? 76 32 p) _ h₂ in
        let s₁ = record s { last_rx = env.now } in
        xmit_choice-OnceOnly (find (be_value id_bytes) s₁.replay_filter)
          (find (be_value id_bytes) s₁.rx_msgs) env (be_value id_bytes) (be_value size_bytes) digest
          p s₁ refl (Keeps-OnceOnly (heard-Keeps env s) o) t h₃)
      s'

data_choice-OnceOnly :
    (known : Option InboundMessage) (env : Env) (id offset : ℕ) (buf : List ℕ) (s : Session)
    → known ≡ find id s.rx_msgs
    → OnceOnly s
    → Ensures (elim known [
      | none ↦ some (unknown_data env id s)
      | some m ↦ known_data env id offset buf m s
    ])
data_choice-OnceOnly none env id offset buf s f o t e =
    subst OnceOnly (some_inj e) (Keeps-OnceOnly (unknown_data-Keeps env id s) o)
data_choice-OnceOnly (some m) env id offset buf s f o t e =
    known_data-OnceOnly env id offset buf m s (ground (arith, o.apart id)) o e

pub handle_data_packet-OnceOnly :
    (env : Env) (p : Packet) (s : Session) {s' : Session}
    → OnceOnly s
    → handle_data_packet env p s ≡ some s'
    → OnceOnly s'
unfolding handle_data_packet
handle_data_packet-OnceOnly env p s {s'} o =
    if_rule Ensures (ltb (length p) 76) {x = some s} (λ t e. subst OnceOnly (some_inj e) o)
      (λ t h.
        let (offset_bytes, _, h₁) = >>=-eq-some (slice? 66 2 p) _ h in
        let (id_bytes, _, h₂) = >>=-eq-some (slice? 68 8 p) _ h₁ in
        let (buf, _, h₃) = >>=-eq-some (slice? 76 (length p - 76) p) _ h₂ in
        let s' = record s { last_rx = env.now } in
        data_choice-OnceOnly (find (be_value id_bytes) s'.rx_msgs) env (be_value id_bytes)
          (be_value offset_bytes) buf s' refl (Keeps-OnceOnly (heard-Keeps env s) o) t h₃)
      s'
