-- ===== src/Slot.antt =====
-- value.go: the 128-bit slot that registers, tables and constants hold. `ref` says whether the
-- pointer word is set; `bits` is the other word, a number below 2 ^ 64.
mod Laws
mod Tests
use lunar.Base.{
  ℕ, ◌+◌, ◌-◌, ◌/◌, ◌%◌, ◌^◌, Bool, true, false, not, ◌&&◌, ◌||◌, ltb, leb, ◌==◌, if◌then◌else◌,
}

pub data Kind : Type 0 where
  invalid_kind nil_kind bool_kind number_kind string_kind : Kind
  function_kind user_data_kind thread_kind table_kind : Kind

pub record Slot : Type 0 where
  pub ref : Bool
  pub bits : ℕ

abbrev pub nil_slot_bits : ℕ
nil_slot_bits = 0xffff_ffff_ffff_ffff

abbrev pub false_slot_bits : ℕ
false_slot_bits = 0xffff_ffff_ffff_fffe

abbrev pub true_slot_bits : ℕ
true_slot_bits = 0xffff_ffff_ffff_fffd

abbrev pub first_reserved_slot_bits : ℕ
first_reserved_slot_bits = true_slot_bits

abbrev pub canonical_nan_bits : ℕ
canonical_nan_bits = 0x7ff8_0000_0000_0000

-- The tag of a reference slot, `Kind(bits & 0xff)`, as a kind; other tags are InvalidKind.
unfoldable pub tag_kind : ℕ → Kind
tag_kind tag =
    if tag == 4
    then string_kind
    else if tag == 5
    then function_kind
    else if tag == 6
    then user_data_kind
    else if tag == 7
    then thread_kind
    else if tag == 8
    then table_kind
    else invalid_kind

unfoldable pub kind : Slot → Kind
unfolding tag_kind
kind value =
    if value.ref
    then tag_kind (value.bits % 256)
    else if ltb value.bits first_reserved_slot_bits
    then number_kind
    else if value.bits == nil_slot_bits
    then nil_kind
    else bool_kind

unfoldable pub is_nil : Slot → Bool
is_nil value = value.bits == nil_slot_bits

-- `value.bits - trueSlotBits` wraps around in uint64.
unfoldable pub is_bool : Slot → Bool
is_bool value =
    leb ((value.bits + 2 ^ 64 - true_slot_bits) % 2 ^ 64) (false_slot_bits - true_slot_bits)

unfoldable pub is_true : Slot → Bool
is_true value = value.bits == true_slot_bits

unfoldable pub truth : Slot → Bool
truth value = ltb value.bits false_slot_bits

unfoldable pub is_number : Slot → Bool
is_number value = not value.ref && ltb value.bits first_reserved_slot_bits

unfoldable pub is_string : Slot → Bool
is_string value = value.ref && value.bits % 256 == 4

unfoldable pub is_table : Slot → Bool
is_table value = value.ref && value.bits % 256 == 8

-- `bits | 1<<k`.
abbrev set_bit : ℕ → ℕ → ℕ
set_bit k bits = if bits / 2 ^ k % 2 == 1 then bits else bits + 2 ^ k

unfoldable pub canonical_number_bits : ℕ → ℕ
canonical_number_bits bits =
    if leb first_reserved_slot_bits (set_bit 51 (set_bit 63 bits)) then canonical_nan_bits else bits
