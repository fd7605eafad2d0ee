-- ===== src/StringRef/Laws.antt =====
-- The word of a string slot: its kind, its length and its hash.
use lunar.Base.{ℕ, ◌/◌, ◌%◌, ◌^◌, ◌<◌, ◌≡◌, true, Text, ◌∙◌, ltb, length, if◌then◌else◌, arith}
use lunar.Slot.{kind, tag_kind, string_kind}
use lunar.StringRef.Samples.{sampled_hash, hash_string-samples}
use lunar.StringRef.{
  normalize_string_hash, finalize_string_hash, hash_string, string_bits, string_slot,
}
use lunar.Verify.Flow.{valid_prototype_constant}

hash_string_pos : (text : Text) → (0 < hash_string text) × (hash_string text < 2 ^ 32)
unfolding hash_string finalize_string_hash normalize_string_hash
hash_string_pos text = ground arith

string_bits-parts :
    (text : Text) (hash : ℕ)
    → (string_bits text hash % 256 ≡ 4)
      × (string_bits text hash / 2 ^ 32 ≡ hash)
      × (string_bits text hash / 2 ^ 8 % 2 ^ 24
          ≡ (if ltb (length text) 0xff_ffff then length text else 0xff_ffff))
unfolding string_bits
string_bits-parts text hash = ground arith

-- The slot of every string is of the string kind and a constant that verification accepts. Its upper
-- 32 bits are the hash of the length and the bytes sampled from the last one down, which is not 0; the
-- 24 bits below hold the length, or the mark 0xffffff from that length on.
pub string_slot_lem :
    (text : Text)
    → (kind (string_slot text) ≡ string_kind)
      × (valid_prototype_constant (string_slot text) ≡ true)
      × ((string_slot text).bits < 2 ^ 64)
      × ((string_slot text).bits / 2 ^ 32 ≡ sampled_hash text)
      × (0 < sampled_hash text)
      × ((string_slot text).bits / 2 ^ 8 % 2 ^ 24
          ≡ (if ltb (length text) 0xff_ffff then length text else 0xff_ffff))
unfolding string_slot kind tag_kind valid_prototype_constant string_bits
string_slot_lem text =
    let (some_hash, small_hash) = hash_string_pos text in
    let (tag, hash, size) = string_bits-parts text (hash_string text) in
    let sampled = hash_string-samples text in
    (
      ground (arith, some_hash, small_hash, tag, hash),
      ground (arith, some_hash, small_hash, tag, hash),
      ground (arith, some_hash, small_hash, tag, hash),
      hash ∙ sampled,
      rw (← sampled) some_hash,
      size,
    )
