-- ===== src/Request/Header.antt =====
-- The header that the Erlang side packs is the header that the driver reads.
use erlxsl.Prelude.{ℕ, ◌/◌, ◌%◌, ◌^◌, ◌≡◌, List, [], ◌∷◌, ◌++◌, arith, append_assoc}
use erlxsl.Memory.{ok}
use erlxsl.Request.{Endian, little, big, read_u64, read_header, from_bytes}

-- `N:8/native` and `N:64/native`: the low bits of a number, in the machine's byte order.
unfoldable pub pack_8 : ℕ → List ℕ
pack_8 n = (n % 256) ∷ []

unfoldable pub pack_64 : Endian → ℕ → List ℕ
pack_64 little n =
    (n % 256)
    ∷ (n / 256 % 256)
    ∷ (n / 65536 % 256)
    ∷ (n / 16777216 % 256)
    ∷ (n / 4294967296 % 256)
    ∷ (n / 1099511627776 % 256)
    ∷ (n / 281474976710656 % 256)
    ∷ (n / 72057594037927936 % 256)
    ∷ []
pack_64 big n =
    (n / 72057594037927936 % 256)
    ∷ (n / 281474976710656 % 256)
    ∷ (n / 1099511627776 % 256)
    ∷ (n / 4294967296 % 256)
    ∷ (n / 16777216 % 256)
    ∷ (n / 65536 % 256)
    ∷ (n / 256 % 256)
    ∷ (n % 256)
    ∷ []

-- `pack/5`: the number of parameters, the two types, and the two sizes in bytes.
unfoldable pub pack_header : Endian → ℕ → ℕ → ℕ → ℕ → ℕ → List ℕ
pack_header o arity input xsl input_size xsl_size =
    pack_8 arity ++ (pack_8 input ++ (pack_8 xsl ++ (pack_64 o input_size ++ pack_64 o xsl_size)))

bytes_of_64 :
    (n : ℕ)
    → from_bytes little
        (n % 256)
        (n / 256 % 256)
        (n / 65536 % 256)
        (n / 16777216 % 256)
        (n / 4294967296 % 256)
        (n / 1099511627776 % 256)
        (n / 281474976710656 % 256)
        (n / 72057594037927936 % 256)
      ≡ n % 2 ^ 64
bytes_of_64 n = omega arith

read_u64-pack_64 :
    (o : Endian) (n : ℕ) (rest : List ℕ) → read_u64 o (pack_64 o n ++ rest) ≡ ok (n % 2 ^ 64, rest)
unfolding read_u64 pack_64
read_u64-pack_64 little n rest = rw (bytes_of_64 n)
read_u64-pack_64 big n rest = rw (bytes_of_64 n)

-- The driver reads what was packed, each number in its field's width, whatever stands behind it.
pub read_header-pack_header :
    (o : Endian) (arity input xsl input_size xsl_size : ℕ) (rest : List ℕ)
    → read_header o (pack_header o arity input xsl input_size xsl_size ++ rest)
      ≡ ok (
        record { input_kind = input % 256; xsl_kind = xsl % 256; param_grp_arity = arity % 256 },
        record { input_size = input_size % 2 ^ 64; xsl_size = xsl_size % 2 ^ 64 },
      )
unfolding read_header pack_header pack_8
read_header-pack_header o arity input xsl input_size xsl_size rest = rw (
  append_assoc (pack_64 o input_size) (pack_64 o xsl_size) rest,
  read_u64-pack_64 o input_size (pack_64 o xsl_size ++ rest),
  read_u64-pack_64 o xsl_size rest,
)
