-- ===== src/Table/Store.antt =====
-- table_store.go: the record store, one array of nodes that are chained by their successors.
use Prim.Native.Nat.{bit_xor}
use lunar.Base.{
  ℕ, zero, suc, ◌-◌, ◌*◌, ◌/◌, ◌%◌, ◌^◌, Bool, false, not, ◌&&◌, ◌||◌, Option, none, some, List,
  length, get_elem?, ◌==◌, if◌then◌else◌,
}
use lunar.Slot.{Slot, is_nil}

abbrev pub entry_hash_empty : ℕ
entry_hash_empty = 0

-- A key without a pointer is its bits; an object, and a string by its text, is known by a number. A dead
-- key is what the collector leaves of a deleted object.
pub data Key : Type 0 where
  plain_key object_key dead_key : ℕ → Key

pub record Entry : Type 0 where
  pub key : Key
  pub value : Slot
  pub hash : ℕ
  pub next : ℕ

pub record Store : Type 0 where
  pub entries : List Entry
  pub live : ℕ
  pub dead : ℕ
  pub integer_keys : ℕ
  pub last_free : ℕ

-- A shift to the left drops the sign of a zero.
abbrev pub table_number_bits_equal : ℕ → ℕ → Bool
table_number_bits_equal left right =
    left == right || left * 2 % 2 ^ 64 == 0 && right * 2 % 2 ^ 64 == 0

-- The comparison of `get` and `find`.
abbrev pub same_key : Key → Key → Bool
same_key (plain_key a) (plain_key b) = table_number_bits_equal a b
same_key (object_key a) (object_key b) = a == b
same_key _ _ = false

-- The capacity is a power of two, so that the mask is a remainder.
abbrev pub main_index : Store → ℕ → ℕ
main_index store hash = hash % length store.entries

abbrev pub is_live : Entry → Bool
is_live entry = not (is_nil entry.value)

-- The walk of `find` along a chain; the rounds are the nodes that a chain can have at most.
unfoldable pub find_from : ℕ → Store → Key → ℕ → ℕ → Option (ℕ × Entry)
find_from zero store key hash index = none
find_from (suc rounds) store key hash index = elim (get_elem? store.entries index) [
  | none ↦ none
  | some entry ↦
      let rest = find_from rounds store key hash (entry.next - 1) in
      if entry.hash == entry_hash_empty
      then none
      else if entry.hash == hash && is_live entry && same_key entry.key key
      then some (index, entry)
      else if entry.next == 0
      then none
      else rest
]

unfoldable pub find : Store → Key → ℕ → Option (ℕ × Entry)
unfolding find_from
find store key hash =
    if length store.entries == 0
    then none
    else find_from (length store.entries) store key hash (main_index store hash)

-- The value, where it is found.
unfoldable pub get : Store → Key → ℕ → Option Slot
unfolding find
get store key hash = elim (find store key hash) [ none ↦ none | some found ↦ some found.1.value ]

-- `deadReferenceKeyMatches`, and the comparison of `findStored`.
abbrev pub same_stored_key : Key → Key → Bool
same_stored_key (dead_key a) (object_key b) = a == b
same_stored_key stored key = same_key stored key

-- The walk of `findStored`: deleted nodes are found as well.
unfoldable pub find_stored_from : ℕ → Store → Key → ℕ → ℕ → Option (ℕ × Entry)
find_stored_from zero store key hash index = none
find_stored_from (suc rounds) store key hash index = elim (get_elem? store.entries index) [
  | none ↦ none
  | some entry ↦
      let rest = find_stored_from rounds store key hash (entry.next - 1) in
      if entry.hash == entry_hash_empty
      then none
      else if entry.hash == hash && same_stored_key entry.key key
      then some (index, entry)
      else if entry.next == 0
      then none
      else rest
]

unfoldable pub find_stored : Store → Key → ℕ → Option (ℕ × Entry)
unfolding find_stored_from
find_stored store key hash =
    if length store.entries == 0
    then none
    else find_stored_from (length store.entries) store key hash (main_index store hash)

unfoldable pub mix_hash : ℕ → ℕ
mix_hash value =
    let a : ℕ = bit_xor value (value / 2 ^ 30) * 0xbf58_476d_1ce4_e5b9 % 2 ^ 64 in
    let b : ℕ = bit_xor a (a / 2 ^ 27) * 0x94d0_49bb_1331_11eb % 2 ^ 64 in bit_xor b (b / 2 ^ 31)

unfoldable pub normalize_table_hash : ℕ → ℕ
normalize_table_hash value =
    let hash : ℕ = bit_xor value (value / 2 ^ 32) % 2 ^ 32 in
    if hash == entry_hash_empty then 1 else hash

-- `hashNumber` of a number by its bits; a negative zero is hashed as zero.
unfoldable pub hash_number : ℕ → ℕ
unfolding mix_hash normalize_table_hash
hash_number bits =
    let positive : ℕ = if bits == 2 ^ 63 then 0 else bits in
    normalize_table_hash (mix_hash (bit_xor positive 0x9e37_79b9_7f4a_7c15))
