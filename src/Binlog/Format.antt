-- ===== src/Binlog/Format.antt =====
-- The binlog's record format: constants of include/zp_const.h, RecordType of include/zp_binlog.h,
-- and the record header of src/common/zp_binlog.cc.
use zeppelin.Base.{
  ℕ, ◌+◌, ◌*◌, ◌/◌, ◌%◌, ◌<◌, ◌≡◌, refl, Option, none, some, List, [], ◌∷◌, ◌==◌, length,
  if◌then◌else◌, arith,
}

-- kBlockSize
abbrev pub block_size : ℕ
block_size = 64 * 1024

-- kHeaderSize
abbrev pub header_size : ℕ
header_size = 4

pub data RecordType : Type 0 where
  zero_type full_type first_type middle_type last_type eof bad_record empty_type : RecordType

-- The enumerators' values.
abbrev pub code : RecordType → ℕ
code zero_type = 0
code full_type = 1
code first_type = 2
code middle_type = 3
code last_type = 4
code eof = 5
code bad_record = 6
code empty_type = 7

-- What a `switch` on a number makes of it; `none` is the default case.
abbrev pub of_code : ℕ → Option RecordType
of_code n =
    if n == 0
    then some zero_type
    else if n == 1
    then some full_type
    else if n == 2
    then some first_type
    else if n == 3
    then some middle_type
    else if n == 4
    then some last_type
    else if n == 5
    then some eof
    else if n == 6
    then some bad_record
    else if n == 7
    then some empty_type
    else none

pub of_code-code : (t : RecordType) → of_code (code t) ≡ some t
of_code-code zero_type = refl
of_code-code full_type = refl
of_code-code first_type = refl
of_code-code middle_type = refl
of_code-code last_type = refl
of_code-code eof = refl
of_code-code bad_record = refl
of_code-code empty_type = refl

-- The four header bytes: the length in three bytes, the low one first, and the type. Each byte is
-- cast to a char.
unfoldable pub header : ℕ → RecordType → List ℕ
header n t = n % 256 ∷ n / 256 % 256 ∷ n / 65536 % 256 ∷ code t ∷ []

-- header[i] of a buffer.
abbrev pub byte_at : List ℕ → ℕ → ℕ
byte_at [] i = 0
byte_at (b ∷ bs) ℕ.zero = b
byte_at (b ∷ bs) (ℕ.suc i) = byte_at bs i

-- `a | (b << 8) | (c << 16)`: the three bytes share no bit, so `|` adds them.
unfoldable pub header_length : List ℕ → ℕ
header_length h = byte_at h 0 % 256 + byte_at h 1 % 256 * 256 + byte_at h 2 % 256 * 65536

unfoldable pub header_type : List ℕ → ℕ
header_type h = byte_at h 3

-- A length of three bytes survives the header.
pub header_length-header : (n : ℕ) (t : RecordType) → n < 16777216 → header_length (header n t) ≡ n
unfolding header header_length
header_length-header n t h = omega arith

pub header_type-header : (n : ℕ) (t : RecordType) → header_type (header n t) ≡ code t
unfolding header header_type
header_type-header n t = refl

pub length-header : (n : ℕ) (t : RecordType) → length (header n t) ≡ header_size
unfolding header
length-header n t = refl
