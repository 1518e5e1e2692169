-- ===== src/Transport/Header.antt =====
-- Packing a header and reading it are inverse to each other.
use strongwiz.Base.{
  ℕ, ◌<◌, ◌≤◌, ◌≡◌, true, [], ◌∷◌, ◌++◌, length, length-append, take, drop, nat_eq, list_eq, refl,
  sym, ap, ◌∙◌, arith, take-++-drop, length-take, length-drop, drop-drop, take-append, drop-append,
}
use strongwiz.Base.Result.{ok}
use strongwiz.Transport.Bytes.{
  Bytes, are_bytes, pack_number, unpack_number, weight, length-pack_number,
  unpack_number-pack_number, pack_number-unpack_number, are_bytes-take, are_bytes-drop,
}
use strongwiz.Transport.Frame.{frame_magic, frame_version, validate_limit, parse_header}

-- a header with these fields
abbrev pub header_of : ℕ → Bytes → Bytes
header_of size digest = frame_magic ++ frame_version ∷ (pack_number 8 size ++ digest)

pub length-header_of :
    (size : ℕ) (digest : Bytes) → length digest ≡ 32 → length (header_of size digest) ≡ 45
length-header_of size digest h =
    omega (arith, length-append (pack_number 8 size) digest, length-pack_number 8 size)

-- the size that a header declares
abbrev pub declared_size : Bytes → ℕ
declared_size header = unpack_number (take 8 (drop 5 header))

pub parse_header_ok :
    (header : Bytes) (limit : ℕ)
    → length header ≡ 45
    → take 4 header ≡ frame_magic
    → unpack_number (take 1 (drop 4 header)) ≡ 1
    → 0 < declared_size header
    → declared_size header ≤ limit
    → parse_header header limit ≡ ok (declared_size header, drop 13 header)
unfolding parse_header validate_limit
parse_header_ok header limit size magic version positive fits =
    rw (parse_header, validate_limit, size, magic, version) ground (arith)

pub parse_header_inv :
    (header : Bytes) (limit n : ℕ) (digest : Bytes)
    → parse_header header limit ≡ ok (n, digest)
    → (length header ≡ 45)
      × (take 4 header ≡ frame_magic)
      × (unpack_number (take 1 (drop 4 header)) ≡ 1)
      × (0 < n)
      × (n ≤ limit)
      × (declared_size header ≡ n)
      × (drop 13 header ≡ digest)
unfolding parse_header validate_limit
parse_header_inv header limit n digest h = ground (arith, h)

pub parse_header-header_of :
    (size limit : ℕ) (digest : Bytes)
    → length digest ≡ 32
    → 0 < size
    → size ≤ limit
    → size < weight 8
    → parse_header (header_of size digest) limit ≡ ok (size, digest)
unfolding parse_header validate_limit take drop unpack_number weight
parse_header-header_of size limit digest h positive fits small =
    let whole = length-header_of size digest h in
    let front = take-append 8 (pack_number 8 size) digest (length-pack_number 8 size) in
    let back = drop-append 8 (pack_number 8 size) digest (length-pack_number 8 size) in
    let number = ap unpack_number front ∙ unpack_number-pack_number 8 size small in
    rw
      (
        parse_header_ok (header_of size digest) limit whole refl refl (omega (arith, number))
            (omega (arith, number)),
        number,
        back,
      )
      refl

-- a byte on its own
unpack_one : (bs : Bytes) → length bs ≡ 1 → unpack_number bs ≡ 1 → bs ≡ 1 ∷ []
unfolding unpack_number weight
unpack_one [] size value = absurd (omega arith)
unpack_one (b ∷ []) size value = ap (λ x. x ∷ []) (omega (arith, value))
unpack_one (b ∷ c ∷ bs) size value = absurd (omega arith)

-- a header that is read is the header of what was read
pub header_of-parse_header :
    (header : Bytes) (limit n : ℕ) (digest : Bytes)
    → are_bytes header ≡ true
    → parse_header header limit ≡ ok (n, digest)
    → header ≡ header_of n digest
header_of-parse_header header limit n digest bytes h =
    let (size, magic, version, _, _, number, rest) = parse_header_inv header limit n digest h in
    let back = length-drop 5 header (omega arith) in
    let field = take 8 (drop 5 header) in
    let field_size : length field ≡ 8 = length-take 8 (drop 5 header) (omega arith) in
    let packed : pack_number 8 n ≡ field =
      ap (pack_number 8) (sym number)
      ∙ pack_number-unpack_number 8 field field_size
          (are_bytes-take 8 (drop 5 header) (are_bytes-drop 5 header bytes)) in
    let tail : drop 5 header ≡ pack_number 8 n ++ digest =
      rw (packed, sym rest, sym (drop-drop 5 8 header)) (sym (take-++-drop 8 (drop 5 header))) in
    let one : take 1 (drop 4 header) ≡ 1 ∷ [] =
      unpack_one (take 1 (drop 4 header))
        (length-take 1 (drop 4 header) (omega (arith, length-drop 4 header (omega arith))))
        version in
    let middle : drop 4 header ≡ 1 ∷ (pack_number 8 n ++ digest) =
      sym (take-++-drop 1 (drop 4 header)) ∙ (rw (one, drop-drop 4 1 header, tail) refl) in
    sym (take-++-drop 4 header) ∙ (rw (magic, middle) refl)
