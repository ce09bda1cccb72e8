-- ===== src/LayerFile/Tests.antt =====
-- Tests of layer files, and instances of the theorems.
use linyaps_rust.Common.{
  Option, some, none, ℕ, ◌+◌, ◌≤◌, ◌<◌, ◌≡◌, refl, codes, starts_with, none, List, [], ◌∷◌, ◌++◌,
  length, take, drop, Result, ok, err, arith,
}
use linyaps_rust.Architecture.{from_le_bytes}
use linyaps_rust.LayerFile.{
  OffsetDevice, out_of_bounds, invalid_metadata_length, magic_prefix, zeros, to_le_bytes,
  layer_bytes, read_header, new_device, read_at,
}
use linyaps_rust.LayerFile.Header.{read_header-layer_bytes, read_header-ok}
use linyaps_rust.LayerFile.Device.{read_at-new_device}

-- A parser that keeps the bytes.
abbrev parse : List ℕ → Result ℕ (List ℕ)
parse bytes = ok bytes

abbrev metadata : List ℕ
metadata = codes "{}"

abbrev payload : List ℕ
payload = 1 ∷ 2 ∷ 3 ∷ 4 ∷ 5 ∷ []

abbrev file : List ℕ
file = (magic_prefix ++ zeros 3) ++ (to_le_bytes 2 ++ (metadata ++ payload))

read_header-layer_bytes_example :
    (read_header parse file ≡ ok (metadata, 46)) × (drop 46 file ≡ payload)
unfolding layer_bytes
read_header-layer_bytes_example =
    read_header-layer_bytes parse metadata payload file metadata refl refl

read_header-ok_example :
    (44 ≤ 46)
    × (46 ≤ length file)
    × (46 ≡ 44 + from_le_bytes (take 4 (drop 40 file)))
    × (parse (take 2 (drop 44 file)) ≡ ok metadata)
unfolding read_header starts_with
read_header-ok_example = read_header-ok parse file metadata 46 refl

-- Metadata that are longer than the rest of the file.
too_long :
    read_header parse ((magic_prefix ++ zeros 3) ++ (to_le_bytes 100 ++ metadata))
    ≡ err (invalid_metadata_length 100)
unfolding read_header starts_with
too_long = refl

abbrev section : Option ℕ
section = some 4

abbrev device : OffsetDevice
device = record { file = file; offset = 46; size = 4 }

read_at_example :
    ((wanted : ℕ) → section ≡ some wanted → 4 ≡ wanted)
    × (section ≡ none → 46 + 4 ≡ length file)
    × (1 + 3 ≤ 4 → (read_at device 1 3 ≡ ok (2 ∷ 3 ∷ 4 ∷ [])) × (46 + 1 + 3 ≤ length file))
    × (4 < 1 + 3 → read_at device 1 3 ≡ err (out_of_bounds 1 3 4))
unfolding new_device
read_at_example = read_at-new_device file 46 section device 1 3 (omega arith) refl
