-- ===== src/Slot/Laws.antt =====
-- Slots: the predicates against the kinds, and canonical number bits.
use lunar.Base.{
  ℕ, ◌%◌, ◌^◌, ◌<◌, ◌≡◌, ◌↔◌, ◌⊎◌, true, false, arith, ◌+◌, ◌-◌, ◌/◌, leb, ◌==◌, if◌then◌else◌,
}
use lunar.Slot.{
  nil_kind, bool_kind, number_kind, string_kind, table_kind, Slot, tag_kind, kind, is_nil, is_bool,
  is_number, is_string, is_table, canonical_number_bits, first_reserved_slot_bits,
}

-- On a slot with a uint64 word, which with a pointer is below the reserved words, each of the five
-- predicates holds exactly of the slots of its kind.
pub kind-predicates :
    (v : Slot)
    → v.bits < 2 ^ 64
    → (v.ref ≡ false) ⊎ (v.bits < first_reserved_slot_bits)
    → ((is_nil v ≡ true) ↔ (kind v ≡ nil_kind))
      × ((is_bool v ≡ true) ↔ (kind v ≡ bool_kind))
      × ((is_number v ≡ true) ↔ (kind v ≡ number_kind))
      × ((is_string v ≡ true) ↔ (kind v ≡ string_kind))
      × ((is_table v ≡ true) ↔ (kind v ≡ table_kind))
unfolding kind tag_kind is_nil is_bool is_number is_string is_table
kind-predicates v fits tagged = ground arith

-- What `-x` makes of the bits of a float64, and what arithmetic makes of those of a NaN.
abbrev pub negated : ℕ → ℕ
negated bits = if leb (2 ^ 63) bits then bits - 2 ^ 63 else bits + 2 ^ 63

abbrev pub quieted : ℕ → ℕ
quieted bits = if bits / 2 ^ 51 % 2 == 1 then bits else bits + 2 ^ 51

abbrev pub number : ℕ → Slot
number bits = record { ref = false; bits = bits }

-- The bits of any float64, made canonical, are those of a number slot, and so they are after a negation,
-- after quieting, and after both: no reserved word comes about. The bits of a float64 that is no NaN are
-- kept, and the others are kept too, or replaced by those of a NaN where their
-- quieted form with the sign set is a reserved word.
pub canonical_number_bits_lem :
    (bits : ℕ)
    → bits < 2 ^ 64
    → (is_number (record { ref = false; bits = canonical_number_bits bits }) ≡ true)
      × (is_number (number (negated (canonical_number_bits bits))) ≡ true)
      × (is_number (number (quieted (canonical_number_bits bits))) ≡ true)
      × (is_number (number (quieted (negated (canonical_number_bits bits)))) ≡ true)
      × ((canonical_number_bits bits ≡ bits)
          ⊎ (0x7ff0_0000_0000_0000 < bits % 2 ^ 63)
            × (0x7ff0_0000_0000_0000 < canonical_number_bits bits % 2 ^ 63)
            × ((is_number (number (quieted (2 ^ 63 + bits % 2 ^ 63)))) ≡ false))
unfolding is_number canonical_number_bits
canonical_number_bits_lem bits fits = ground arith
