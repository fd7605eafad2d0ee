-- ===== src/StringRef/Tests.antt =====
-- The slot of a short string.
use lunar.StringRef.Samples.{sampled_hash}
use lunar.Base.{◌/◌, ◌%◌, ◌^◌, ◌≡◌, ◌<◌, true, [], ◌∷◌}
use lunar.Slot.{kind, string_kind}
use lunar.StringRef.{string_slot}
use lunar.StringRef.Laws.{string_slot_lem}
use lunar.Verify.Flow.{valid_prototype_constant}

string_slot_lem_example :
    (kind (string_slot (b'i' ∷ b'd' ∷ [])) ≡ string_kind)
    × (valid_prototype_constant (string_slot (b'i' ∷ b'd' ∷ [])) ≡ true)
    × ((string_slot (b'i' ∷ b'd' ∷ [])).bits < 2 ^ 64)
    × ((string_slot (b'i' ∷ b'd' ∷ [])).bits / 2 ^ 32 ≡ sampled_hash (b'i' ∷ b'd' ∷ []))
    × (0 < sampled_hash (b'i' ∷ b'd' ∷ []))
    × ((string_slot (b'i' ∷ b'd' ∷ [])).bits / 2 ^ 8 % 2 ^ 24 ≡ 2)
string_slot_lem_example = string_slot_lem (b'i' ∷ b'd' ∷ [])
