-- ===== src/Dns/Tests.antt =====
-- Names of llarp/dns at concrete inputs.
use bittoro_network.Prelude.{ℕ, ◌≡◌, refl, List, [], ◌∷◌, none, some, true, replicate, All, arith}
use bittoro_network.Util.Buffer.{Buffer, over}
use bittoro_network.Dns.Name.{decode_name, encode_name}
use bittoro_network.Dns.Name.Roundtrip.{IsLabel, decode_name-encode_name, encode_name_overrun}

-- ab and loki
abbrev ab : List ℕ
ab = 97 ∷ 98 ∷ []

abbrev loki : List ℕ
loki = 108 ∷ 111 ∷ 107 ∷ 105 ∷ []

names-IsLabel : All IsLabel (ab ∷ loki ∷ [])
names-IsLabel = (
  (omega arith, omega arith, (λ e. omega (arith, e), (λ e. omega (arith, e), _))),
  (
    (
      omega arith,
      omega arith,
      (
        λ e. omega (arith, e),
        (λ e. omega (arith, e), (λ e. omega (arith, e), (λ e. omega (arith, e), _))),
      ),
    ),
    _,
  ),
)

decode_name-encode_name_example :
    (b' : Buffer) × (encode_name
        (97 ∷ 98 ∷ 46 ∷ 108 ∷ 111 ∷ 107 ∷ 105 ∷ 46 ∷ [])
        (over (replicate 20 255))
      ≡ some (true, b'))
    × (decode_name 4 true (record b' { cur = 0 })
        ≡ some (some (97 ∷ 98 ∷ 46 ∷ 108 ∷ 111 ∷ 107 ∷ 105 ∷ []), b'))
decode_name-encode_name_example =
    decode_name-encode_name ab (loki ∷ []) names-IsLabel true 4 (over (replicate 20 255))
      (omega arith) (omega arith)

encode_name_overrun_example :
    encode_name (97 ∷ 98 ∷ 46 ∷ 108 ∷ 111 ∷ 107 ∷ 105 ∷ 46 ∷ []) (over (replicate 8 255)) ≡ none
encode_name_overrun_example =
    encode_name_overrun ab (loki ∷ []) names-IsLabel (over (replicate 8 255)) refl
