-- ===== src/Architecture.antt =====
-- Architectures (crates/linyaps-core/src/architecture.rs): the names, and the flag that tells the two
-- LoongArch worlds apart.
use linyaps_rust.Common.{
  ℕ, ◌≡◌, refl, ◌+◌, ◌*◌, ◌/◌, ◌%◌, ◌==◌, ◌↔◌, Text, codes, text_eq, text_eq_iff, Option, none,
  some, List, [], ◌∷◌, Bool, true, false, not, ◌||◌, if◌then◌else◌, Result, ok, err, arith, inl,
  inr, Bool-cases,
}

pub data Architecture : Type 0 where
  unknown_architecture : Architecture
  x86_64 : Architecture
  arm64 : Architecture
  loong_arch64 : Architecture
  loong64 : Architecture
  sw64 : Architecture
  risc_v64 : Architecture
  mips64 : Architecture

abbrev pub triplet : Architecture → Text
triplet unknown_architecture = codes "unknown"
triplet x86_64 = codes "x86_64-linux-gnu"
triplet arm64 = codes "aarch64-linux-gnu"
triplet loong_arch64 = codes "loongarch64-linux-gnu"
triplet loong64 = codes "loongarch64-linux-gnu"
triplet sw64 = codes "sw_64-linux-gnu"
triplet risc_v64 = codes "riscv64-linux-gnu"
triplet mips64 = codes "mips64el-linux-gnuabi64"

abbrev pub show_architecture : Architecture → Text
show_architecture unknown_architecture = codes "unknown"
show_architecture x86_64 = codes "x86_64"
show_architecture arm64 = codes "arm64"
show_architecture loong_arch64 = codes "loongarch64"
show_architecture loong64 = codes "loong64"
show_architecture sw64 = codes "sw64"
show_architecture risc_v64 = codes "riscv64"
show_architecture mips64 = codes "mips64"

-- The error holds the text.
unfoldable pub architecture_from : Text → Result Text Architecture
unfolding text_eq
architecture_from raw =
    if text_eq raw (codes "x86_64")
    then ok x86_64
    else (if text_eq raw (codes "arm64")
        then ok arm64
        else (if text_eq raw (codes "loongarch64")
            then ok loong_arch64
            else (if text_eq raw (codes "loong64")
                then ok loong64
                else (if text_eq raw (codes "sw64")
                    then ok sw64
                    else (if text_eq raw (codes "riscv64")
                        then ok risc_v64
                        else (if text_eq raw (codes "mips64") then ok mips64 else err raw))))))

-- The bytes of a little-endian and of a big-endian `u32`.
abbrev pub from_le_bytes : List ℕ → ℕ
from_le_bytes (a ∷ b ∷ c ∷ d ∷ []) = a + 256 * b + 65536 * c + 16777216 * d
from_le_bytes _ = 0

abbrev pub from_be_bytes : List ℕ → ℕ
from_be_bytes (a ∷ b ∷ c ∷ d ∷ []) = 16777216 * a + 65536 * b + 256 * c + d
from_be_bytes _ = 0

-- The parts of the 52 bytes of an ELF header that the code reads: 0..4, 4, 5 and 48..52. There is
-- none where the file cannot be opened or is shorter.
pub record ElfHeader : Type 0 where
  pub magic : List ℕ
  pub class : ℕ
  pub data_encoding : ℕ
  pub flag_bytes : List ℕ

abbrev pub flags_of : ElfHeader → Option ℕ
flags_of h =
    if h.data_encoding == 1
    then some (from_le_bytes h.flag_bytes)
    else (if h.data_encoding == 2 then some (from_be_bytes h.flag_bytes) else none)

-- `((flags >> 6) & 1) == 1`.
abbrev pub bit_six : Option ℕ → Bool
bit_six none = false
bit_six (some flags) = (flags / 64) % 2 == 1

abbrev pub elf_magic : List ℕ
elf_magic = 127 ∷ codes "ELF"

unfoldable pub is_new_world_loongarch : Option ElfHeader → Bool
unfolding text_eq
is_new_world_loongarch none = false
is_new_world_loongarch (some h) =
    if not (text_eq h.magic elf_magic) || not (h.class == 2) then false else bit_six (flags_of h)

-- `current`, of the architecture that the program was built for and its own ELF header.
unfoldable pub current : Text → Option ElfHeader → Result Text Architecture
unfolding text_eq is_new_world_loongarch
current name header =
    if text_eq name (codes "x86_64")
    then ok x86_64
    else (if text_eq name (codes "aarch64")
        then ok arm64
        else (if text_eq name (codes "loongarch64") || text_eq name (codes "loong64")
            then ok (if is_new_world_loongarch header then loong64 else loong_arch64)
            else (if text_eq name (codes "sw_64") || text_eq name (codes "sw64")
                then ok sw64
                else (if text_eq name (codes "riscv64")
                    then ok risc_v64
                    else (if text_eq name (codes "mips64") || text_eq name (codes "mips64el")
                        then ok mips64
                        else err name)))))

abbrev pub is_known : Architecture → Bool
is_known unknown_architecture = false
is_known _ = true

abbrev Named : Text → Architecture → Type 0
Named raw a = (is_known a ≡ true) × (show_architecture a ≡ raw)

take_name :
    (raw name : Text) (b a : Architecture) (rest : Result Text Architecture)
    → Named name b
    → (rest ≡ ok a → Named raw a)
    → (if text_eq raw name then ok b else rest) ≡ ok a
    → Named raw a
take_name raw name b a rest n later h = elim (Bool-cases (text_eq raw name)) [
  | inl hit ↦ let same : b ≡ a = ground arith in rw (← same, (text_eq_iff raw name).0 hit) n
  | inr miss ↦ later (ground arith)
]

refused :
    (raw : Text) (a : Architecture)
    → ◌≡◌ {A = Result Text Architecture} (err raw) (ok a)
    → Named raw a
refused raw a h = absurd (ground arith)

architecture_from-ok : (raw : Text) (a : Architecture) → architecture_from raw ≡ ok a → Named raw a
unfolding architecture_from
architecture_from-ok raw a =
    take_name raw _ x86_64 a _ (refl, refl)
      (take_name raw _ arm64 a _ (refl, refl)
        (take_name raw _ loong_arch64 a _ (refl, refl)
          (take_name raw _ loong64 a _ (refl, refl)
            (take_name raw _ sw64 a _ (refl, refl)
              (take_name raw _ risc_v64 a _ (refl, refl)
                (take_name raw _ mips64 a _ (refl, refl) (refused raw a)))))))

architecture_from-show :
    (a : Architecture) → is_known a ≡ true → architecture_from (show_architecture a) ≡ ok a
unfolding architecture_from text_eq
architecture_from-show unknown_architecture h = absurd (ground arith)
architecture_from-show x86_64 h = refl
architecture_from-show arm64 h = refl
architecture_from-show loong_arch64 h = refl
architecture_from-show loong64 h = refl
architecture_from-show sw64 h = refl
architecture_from-show risc_v64 h = refl
architecture_from-show mips64 h = refl

-- A text parses to an architecture exactly when it is the print of it and the architecture is not the
-- unknown one.
pub architecture_from_iff :
    (raw : Text) (a : Architecture)
    → (architecture_from raw ≡ ok a) ↔ ((is_known a ≡ true) × (show_architecture a ≡ raw))
architecture_from_iff raw a =
    (architecture_from-ok raw a, λ (k, e). rw (← e) (architecture_from-show a k))

abbrev pub header_with : ℕ → List ℕ → ElfHeader
header_with encoding flag_bytes = record {
  magic = elf_magic;
  class = 2;
  data_encoding = encoding;
  flag_bytes = flag_bytes;
}

low_bit : (a b c d : ℕ) → ((a + 256 * b + 65536 * c + 16777216 * d) / 64) % 2 ≡ (a / 64) % 2
low_bit a b c d = omega arith

high_bit : (a b c d : ℕ) → ((16777216 * a + 65536 * b + 256 * c + d) / 64) % 2 ≡ (d / 64) % 2
high_bit a b c d = omega arith

-- Of a 64-bit ELF header the code tests bit 6 of the lowest byte of the flags, which is the first one
-- in a little-endian file and the last one in a big-endian file.
pub is_new_world_loongarch_lem :
    (a b c d : ℕ)
    → (is_new_world_loongarch (some (header_with 1 (a ∷ b ∷ c ∷ d ∷ []))) ≡ ((a / 64) % 2 == 1))
      × (is_new_world_loongarch (some (header_with 2 (a ∷ b ∷ c ∷ d ∷ []))) ≡ ((d / 64) % 2 == 1))
unfolding is_new_world_loongarch text_eq
is_new_world_loongarch_lem a b c d = (rw (low_bit a b c d) refl, rw (high_bit a b c d) refl)
