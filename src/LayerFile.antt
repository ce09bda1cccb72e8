-- ===== src/LayerFile.antt =====
-- Layer files: how `write_layer_file_with_compression` lays one out
-- (crates/linyaps-repository/src/writer.rs), how `read_header` reads it, and the device that shows a
-- section of a file (crates/linyaps-repository/src/layer_file.rs). A file is the list of its bytes.
pub mod Device
pub mod Header
pub mod Tests
use linyaps_rust.Common.{
  ℕ, zero, suc, ◌+◌, ◌-◌, ◌/◌, ◌%◌, ◌==◌, leb, ltb, Text, codes, starts_with, Option, none, some,
  List, [], ◌∷◌, ◌++◌, Bool, true, false, not, ◌&&◌, ◌||◌, any, length, take, drop, if◌then◌else◌,
  Result, ok, err, ensure, map_err, ◌>>=◌, ◌>>◌,
}
use linyaps_rust.Architecture.{from_le_bytes}
use linyaps_rust.Version.{u64_limit}

abbrev pub magic_prefix : Text
magic_prefix = codes "<<< deepin linglong layer archive >>>"

abbrev pub magic_length : ℕ
magic_length = 40

abbrev pub length_field_size : ℕ
length_field_size = 4

abbrev pub u32_limit : ℕ
u32_limit = 4294967296

-- The errors of the reader, with the parser's own for the metadata.
pub data LayerFileError (E : Type 0) : Type 0 where
  io : LayerFileError E
  invalid_magic : LayerFileError E
  invalid_metadata_length : ℕ → LayerFileError E
  json : E → LayerFileError E

-- `read_exact` from a position on: the bytes, and the position behind them.
abbrev pub read_exact : {E : Type 0} → List ℕ → ℕ → ℕ → Result (LayerFileError E) (List ℕ × ℕ)
read_exact file at n =
    if leb (at + n) (length file) then ok (take n (drop at file), at + n) else err io

unfoldable pub is_magic : List ℕ → Bool
unfolding starts_with
is_magic magic =
    starts_with magic magic_prefix
    && not (any (λ b. not (b == 0)) (drop (length magic_prefix) magic))

-- `parse` is `serde_json::from_slice` at the type of the metadata.
unfoldable pub read_header :
    {E I : Type 0} → (List ℕ → Result E I) → List ℕ → Result (LayerFileError E) (I × ℕ)
unfolding is_magic
read_header parse file = do
  (magic, behind_magic) ← read_exact file 0 magic_length
  ensure (is_magic magic) invalid_magic
  (field, behind_field) ← read_exact file behind_magic length_field_size
  let metadata_length = from_le_bytes field
  ensure (leb metadata_length (length file - (magic_length + length_field_size)))
      (invalid_metadata_length metadata_length)
  (metadata, end) ← read_exact file behind_field metadata_length
  info ← map_err json (parse metadata)
  ok (info, magic_length + length_field_size + metadata_length)

abbrev pub zeros : ℕ → List ℕ
zeros zero = []
zeros (suc n) = 0 ∷ zeros n

abbrev pub to_le_bytes : ℕ → List ℕ
to_le_bytes n = n % 256 ∷ n / 256 % 256 ∷ n / 65536 % 256 ∷ n / 16777216 % 256 ∷ []

-- The bytes of a layer file, of its metadata and its payload; there are none for metadata whose length
-- is no `u32`.
unfoldable pub layer_bytes : List ℕ → List ℕ → Option (List ℕ)
layer_bytes metadata payload =
    if ltb (length metadata) u32_limit
    then some (
        (magic_prefix ++ zeros (magic_length - length magic_prefix))
        ++ (to_le_bytes (length metadata) ++ (metadata ++ payload)))
    else none

pub record OffsetDevice : Type 0 where
  pub file : List ℕ
  pub offset : ℕ
  pub size : ℕ

pub data DeviceError : Type 0 where
  out_of_bounds : ℕ → ℕ → ℕ → DeviceError
  unexpected_eof : DeviceError

-- `offset.saturating_add(size)`.
abbrev pub saturating_add : ℕ → ℕ → ℕ
saturating_add a b = if ltb (a + b) u64_limit then a + b else u64_limit - 1

abbrev pub exceeds : ℕ → Option ℕ → ℕ → Bool
exceeds offset none file_size = false
exceeds offset (some size) file_size = ltb file_size (saturating_add offset size)

abbrev pub or_rest : Option ℕ → ℕ → ℕ
or_rest none rest = rest
or_rest (some size) rest = size

-- `OffsetDevice::new`.
unfoldable pub new_device : List ℕ → ℕ → Option ℕ → Result DeviceError OffsetDevice
new_device file offset size =
    if ltb (length file) offset || exceeds offset size (length file)
    then err unexpected_eof
    else ok (record { file = file; offset = offset; size = or_rest size (length file - offset) })

-- `read_exact_at`.
abbrev pub read_exact_at : List ℕ → ℕ → ℕ → Result DeviceError (List ℕ)
read_exact_at file at n =
    if leb (at + n) (length file) then ok (take n (drop at file)) else err unexpected_eof

-- Into a buffer of `n` bytes; a sum that does not fit in a `u64` is out of bounds.
unfoldable pub read_at : OffsetDevice → ℕ → ℕ → Result DeviceError (List ℕ)
read_at device offset n =
    if not (ltb (offset + n) u64_limit) || ltb device.size (offset + n)
    then err (out_of_bounds offset n device.size)
    else read_exact_at device.file ((device.offset + offset) % u64_limit) n
