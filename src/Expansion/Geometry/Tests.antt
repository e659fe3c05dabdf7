-- ===== src/Expansion/Geometry/Tests.antt =====
-- A file of two chunks.
use opencaw.Prelude.{◌≡◌, refl, some, List, [], ◌∷◌}
use opencaw.Expansion.Geometry.{
  StubGeometry, covers, covering, last_max, max_by_offset, stub_for_byte, IsFound,
  stub_for_byte-IsFound,
}

abbrev chunks : List StubGeometry
chunks =
    record { id = "first"; byte_offset = 0; byte_length = 10 }
    ∷ record { id = "second"; byte_offset = 10; byte_length = 10 }
    ∷ []

geometry_lem :
    (stub_for_byte chunks 9 ≡ some "first")
    × (stub_for_byte chunks 10 ≡ some "second")
    × (stub_for_byte chunks 25 ≡ some "second")
unfolding stub_for_byte covering covers max_by_offset last_max
geometry_lem = (refl, refl, refl)

stub_for_byte-IsFound_example : IsFound 25 chunks (stub_for_byte chunks 25)
stub_for_byte-IsFound_example = stub_for_byte-IsFound chunks 25
