-- ===== src/Fragmenter/Tests.antt =====
-- Runs of the fragmenter, and its property at a concrete message.
use damen.Common.{◌≡◌, refl, [], ◌∷◌}
use damen.Fec.Code.{Bytes}
use damen.Fragmenter.{next_message_id}

-- Ten bytes at an MTU of 56: eight bytes to a fragment, the first four of them the length.
abbrev ten_bytes : Bytes
ten_bytes = 1 ∷ 2 ∷ 3 ∷ 4 ∷ 5 ∷ 6 ∷ 7 ∷ 8 ∷ 9 ∷ 10 ∷ []

-- The number zero is passed over.
zero_passed : next_message_id 0x80000000 ≡ (1, 0x80000002)
unfolding next_message_id
zero_passed = refl
