-- ===== src/Binlog/Encoding.antt =====
-- What Produce of src/common/zp_binlog.cc writes, as a function of the offset in the block: the
-- independent description of the format that the writer and the reader are both compared with.
use zeppelin.Base.{
  ℕ, zero, suc, ◌+◌, ◌-◌, ◌≤◌, ◌<◌, ◌≡◌, Bool, true, false, List, [], ◌++◌, length, take, drop,
  replicate, ltb, leb, ◌==◌, if◌then◌else◌, arith, append-nil, sym, ap, ◌∙◌, take-append-drop,
  nil_of_length, not-ltb→le, append_assoc, length-append, length-replicate, length-drop,
}
use zeppelin.Binlog.Format.{block_size, header_size, header}
use zeppelin.Binlog.Writer.{record_type, fragment_length}

-- Where the next record starts: at the next block where no record fits into this one.
unfoldable pub start : ℕ → ℕ
start off = if leb (block_size - off) header_size then 0 else off

-- How many zeros fill the block before it.
unfoldable pub gap : ℕ → ℕ
gap off = if leb (block_size - off) header_size then block_size - off else 0

-- How many of `left` bytes its record holds.
unfoldable pub part : ℕ → ℕ → ℕ
part off left = fragment_length left (block_size - start off - header_size)

unfoldable pub piece : ℕ → Bool → List ℕ → List ℕ
piece off begin left =
    let n = part off (length left) in
    replicate (gap off) 0 ++ (header n (record_type begin (length left == n)) ++ take n left)

unfoldable pub rest_of : ℕ → List ℕ → List ℕ
rest_of off left = drop (part off (length left)) left

unfoldable pub offset_after : ℕ → ℕ → ℕ
offset_after off left = start off + (header_size + part off left)

unfoldable pub encode : ℕ → ℕ → Bool → List ℕ → List ℕ
encode zero off begin left = []
encode (suc fuel) off begin left =
    piece off begin left ++ elim (ltb 0 (length (rest_of off left))) [
      | true ↦ encode fuel (offset_after off (length left)) false (rest_of off left)
      | false ↦ []
    ]

unfoldable pub final_offset : ℕ → ℕ → List ℕ → ℕ
final_offset zero off left = off
final_offset (suc fuel) off left = elim (ltb 0 (length (rest_of off left))) [
  | true ↦ final_offset fuel (offset_after off (length left)) (rest_of off left)
  | false ↦ offset_after off (length left)
]

pub part-le : (off left : ℕ) → part off left ≤ left
unfolding part
part-le off left = ground arith

pub start-lt : (off : ℕ) → start off + header_size < block_size
unfolding start
start-lt off = ground arith

-- A round that does not take all takes at least one byte.
pub part-pos : (off left : ℕ) → 0 < left → 0 < part off left
unfolding part start
part-pos off left h = ground arith

pub part-lt : (off left : ℕ) → part off left < 0xffff
unfolding part start
part-lt off left = ground arith

pub part_fits : (off left : ℕ) → start off + header_size + part off left ≤ block_size
unfolding part start
part_fits off left = ground arith

pub offset_after-le : (off left : ℕ) → offset_after off left ≤ block_size
unfolding offset_after part start
offset_after-le off left = ground arith

pub length-rest_of-lt :
    (off : ℕ) (left : List ℕ)
    → 0 < length (rest_of off left)
    → length (rest_of off left) < length left
unfolding rest_of
length-rest_of-lt off left h =
    omega (arith, length-drop (part off (length left)) left, part-pos off (length left))

-- `end` of a round says that nothing is left after it.
pub part-eq :
    (off : ℕ) (left : List ℕ)
    → (length left == part off (length left))
      ≡ (if ltb 0 (length (rest_of off left)) then false else true)
unfolding rest_of
part-eq off left =
    ground (arith, length-drop (part off (length left)) left, part-le off (length left))

pub final_offset-le :
    (fuel off : ℕ) (left : List ℕ) → off ≤ block_size → final_offset fuel off left ≤ block_size
unfolding final_offset
final_offset-le zero off left h = h
final_offset-le (suc fuel) off left h = ground (
  arith,
  offset_after-le off (length left),
  final_offset-le fuel (offset_after off (length left)) (rest_of off left),
)

pub length-piece :
    (off : ℕ) (begin : Bool) (left : List ℕ)
    → length (piece off begin left)
      ≡ gap off
        + length (
            header
              (part off (length left))
              (record_type begin (length left == part off (length left)))
            ++ take (part off (length left)) left)
unfolding piece
length-piece off begin left =
    rw (length-append {A = ℕ} (replicate (gap off) 0), length-replicate {A = ℕ})

module _ (fuel off : ℕ) (left : List ℕ) where
  pub encode-more :
      (begin : Bool)
      → ltb 0 (length (rest_of off left)) ≡ true
      → encode (suc fuel) off begin left
        ≡ piece off begin left
          ++ encode fuel (offset_after off (length left)) false (rest_of off left)
  unfolding encode
  encode-more begin h = rw (h, encode)

  pub encode-done :
      (begin : Bool)
      → ltb 0 (length (rest_of off left)) ≡ false
      → encode (suc fuel) off begin left ≡ piece off begin left
  unfolding encode
  encode-done begin h = rw (h, encode) (append-nil (piece off begin left))

  pub final_offset-more :
      ltb 0 (length (rest_of off left)) ≡ true
      → final_offset (suc fuel) off left
        ≡ final_offset fuel (offset_after off (length left)) (rest_of off left)
  unfolding final_offset
  final_offset-more h = rw (h, final_offset)

  pub final_offset-done :
      ltb 0 (length (rest_of off left)) ≡ false
      → final_offset (suc fuel) off left ≡ offset_after off (length left)
  unfolding final_offset
  final_offset-done h = rw (h, final_offset)

pub piece-append :
    (off : ℕ) (begin : Bool) (left more : List ℕ)
    → piece off begin left ++ more
      ≡ replicate (gap off) 0
        ++ (header
              (part off (length left))
              (record_type begin (length left == part off (length left)))
            ++ (take (part off (length left)) left ++ more))
unfolding piece
piece-append off begin left more = simp append_assoc

pub take-append-rest_of :
    (off : ℕ) (left : List ℕ) → take (part off (length left)) left ++ rest_of off left ≡ left
unfolding rest_of
take-append-rest_of off left = take-append-drop (part off (length left)) left

-- The last round takes all that is left.
pub take-part_all :
    (off : ℕ) (left : List ℕ)
    → ltb 0 (length (rest_of off left)) ≡ false
    → take (part off (length left)) left ≡ left
take-part_all off left h =
    sym (append-nil _)
    ∙ (ap (λ c. take (part off (length left)) left ++ c)
          (sym (
            nil_of_length (rest_of off left)
              (omega (arith, not-ltb→le 0 (length (rest_of off left)) h))))
        ∙ take-append-rest_of off left)
