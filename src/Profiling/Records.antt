-- ===== src/Profiling/Records.antt =====
-- A profile that is written is read back: RouterProfile::BEncode and DecodeKey of
-- llarp/profiling.cpp.
use bittoro_network.Prelude.{
  ℕ, ◌+◌, ◌^◌, ◌<◌, ◌≡◌, refl, ◌∙◌, List, [], ◌∷◌, some, true, length, drop, arith,
}
use bittoro_network.Util.Buffer.{Buffer, equals}
use bittoro_network.Util.Buffer.Writes.{Wrote-Ahead}
use bittoro_network.Util.Bencode.{decode_dict, maybe_read_dict_int}
use bittoro_network.Util.Bencode.Dicts.{
  dict_text, dict-Emits, Takes, TakesAll, entries_text_long, decode_dict-text,
}
use bittoro_network.Profiling.{RouterProfile, blank, bencode, decode_key, decode_members}

-- Each counter and time fits into 64 bits.
pub record Fits (p : RouterProfile) : Type 0 where
  pub timeouts : p.connect_timeout_count < 2 ^ 64
  pub goods : p.connect_good_count < 2 ^ 64
  pub successes : p.path_success_count < 2 ^ 64
  pub fails : p.path_fail_count < 2 ^ 64
  pub updated : p.last_updated < 2 ^ 64
  pub numbered : p.version < 2 ^ 64

abbrev pub entries : RouterProfile → List (ℕ × ℕ)
entries p =
    (103, p.connect_good_count)
    ∷ (112, p.path_success_count)
    ∷ (115, p.path_fail_count)
    ∷ (116, p.connect_timeout_count)
    ∷ (117, p.last_updated)
    ∷ (118, p.version)
    ∷ []

Takes-good :
    (x : ℕ) (s : RouterProfile) → Takes decode_key 103 x s (record s { connect_good_count = x })
unfolding decode_key decode_members maybe_read_dict_int equals
Takes-good x s b b' e = rw e refl

Takes-success :
    (x : ℕ) (s : RouterProfile) → Takes decode_key 112 x s (record s { path_success_count = x })
unfolding decode_key decode_members maybe_read_dict_int equals
Takes-success x s b b' e = rw e refl

Takes-fail :
    (x : ℕ) (s : RouterProfile) → Takes decode_key 115 x s (record s { path_fail_count = x })
unfolding decode_key decode_members maybe_read_dict_int equals
Takes-fail x s b b' e = rw e refl

Takes-timeout :
    (x : ℕ) (s : RouterProfile) → Takes decode_key 116 x s (record s { connect_timeout_count = x })
unfolding decode_key decode_members maybe_read_dict_int equals
Takes-timeout x s b b' e = rw e refl

Takes-updated :
    (x : ℕ) (s : RouterProfile) → Takes decode_key 117 x s (record s { last_updated = x })
unfolding decode_key decode_members maybe_read_dict_int equals
Takes-updated x s b b' e = rw e refl

Takes-version : (x : ℕ) (s : RouterProfile) → Takes decode_key 118 x s (record s { version = x })
unfolding decode_key decode_members maybe_read_dict_int equals
Takes-version x s b b' e = rw e refl

TakesAll-entries :
    (p : RouterProfile)
    → Fits p
    → TakesAll decode_key (entries p) blank (record p { last_decay = 0 })
TakesAll-entries p f =
    let p₁ = record blank { connect_good_count = p.connect_good_count } in
    let p₂ = record p₁ { path_success_count = p.path_success_count } in
    let p₃ = record p₂ { path_fail_count = p.path_fail_count } in
    let p₄ = record p₃ { connect_timeout_count = p.connect_timeout_count } in
    let p₅ = record p₄ { last_updated = p.last_updated } in
    let p₆ = record p₅ { version = p.version } in
    (
      p₁,
      f.goods,
      Takes-good p.connect_good_count blank,
      (
        p₂,
        f.successes,
        Takes-success p.path_success_count p₁,
        (
          p₃,
          f.fails,
          Takes-fail p.path_fail_count p₂,
          (
            p₄,
            f.timeouts,
            Takes-timeout p.connect_timeout_count p₃,
            (
              p₅,
              f.updated,
              Takes-updated p.last_updated p₄,
              (p₆, f.numbered, Takes-version p.version p₅, refl),
            ),
          ),
        ),
      ),
    )

-- A profile of 64-bit members that is written into a buffer with more room than its text needs is
-- read back from there into a new profile; only the time of its last decay is lost.
pub decode_dict-bencode :
    (b : Buffer) (p : RouterProfile)
    → Fits p
    → b.cur + length (dict_text (entries p)) < length b.mem
    → (b' : Buffer) × (bencode p b ≡ (true, b'))
      × (decode_dict decode_key blank (record b' { cur = b.cur })
          ≡ some (true, record p { last_decay = 0 }, b'))
unfolding bencode
decode_dict-bencode b p f room =
    let (b', e, w) = dict-Emits (entries p) b room in
    let a = Wrote-Ahead {b = b} {b' = b'} (omega arith) w in
    (
      b',
      e,
      decode_dict-text decode_key (entries p) blank (record p { last_decay = 0 })
            (record b' { cur = b.cur }) (drop b'.cur b'.mem)
            (omega (arith, w.same_size, entries_text_long (entries p))) (TakesAll-entries p f) a
          ∙ (rw (← w.moved) refl),
    )
