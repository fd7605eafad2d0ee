-- ===== src/Slot/Tests.antt =====
-- Slots: false, and a signalling NaN.
use lunar.Base.{ℕ, ◌+◌, ◌<◌, ◌^◌, ◌%◌, ◌≡◌, refl, ◌↔◌, ◌⊎◌, inl, true, false, arith}
use lunar.Slot.{
  Slot, nil_kind, bool_kind, number_kind, string_kind, table_kind, kind, is_nil, is_bool, is_number,
  is_string, is_table, false_slot_bits, canonical_number_bits,
}
use lunar.Slot.Laws.{number, negated, quieted, kind-predicates, canonical_number_bits_lem}

abbrev false_slot : Slot
false_slot = record { ref = false; bits = false_slot_bits }

kind-predicates_example :
    ((is_nil false_slot ≡ true) ↔ (kind false_slot ≡ nil_kind))
    × ((is_bool false_slot ≡ true) ↔ (kind false_slot ≡ bool_kind))
    × ((is_number false_slot ≡ true) ↔ (kind false_slot ≡ number_kind))
    × ((is_string false_slot ≡ true) ↔ (kind false_slot ≡ string_kind))
    × ((is_table false_slot ≡ true) ↔ (kind false_slot ≡ table_kind))
kind-predicates_example = kind-predicates false_slot (omega arith) (inl refl)

-- A signalling NaN that becomes the word of `false` when it is quieted and its sign is set.
abbrev signalling : ℕ
signalling = 0x7ff7_ffff_ffff_fffe

canonical_number_bits_lem_example :
    (is_number (record { ref = false; bits = canonical_number_bits signalling }) ≡ true)
    × (is_number (number (negated (canonical_number_bits signalling))) ≡ true)
    × (is_number (number (quieted (canonical_number_bits signalling))) ≡ true)
    × (is_number (number (quieted (negated (canonical_number_bits signalling)))) ≡ true)
    × ((canonical_number_bits signalling ≡ signalling)
        ⊎ (0x7ff0_0000_0000_0000 < signalling % 2 ^ 63)
          × (0x7ff0_0000_0000_0000 < canonical_number_bits signalling % 2 ^ 63)
          × ((is_number (number (quieted (2 ^ 63 + signalling % 2 ^ 63)))) ≡ false))
canonical_number_bits_lem_example = canonical_number_bits_lem signalling (omega arith)
