-- ===== src/Request.antt =====
-- A request as it reaches `outputv` of c_src/erlxsl.c: its header, which src/erlxsl_marshall.erl
-- packs, and its two buffers.
pub mod Header
pub mod Copy
use erlxsl.Prelude.{
  ℕ, zero, suc, ◌+◌, ◌*◌, ◌/◌, ◌%◌, ◌^◌, List, [], ◌∷◌, ◌++◌, Option, none, some, length, drop,
  replicate, get_elem?, ◌==◌, ltb, leb, if◌then◌else◌,
}
use erlxsl.Types.{Ptr, InputSpec, PayloadSize}
use erlxsl.Memory.{
  M, Outcome, ok, fault, ◌>>=◌, ◌>>◌, pure, throw, lift, load_chars, store, chars_block,
  alloc_chars, invalid_access, buffer_overflow,
}
use erlxsl.CString.{ahead}

-- The byte order of the machine, in which both sides read and write 64-bit numbers.
pub data Endian : Type 0 where
  little big : Endian

-- `ErlIOVec`: the binaries' bytes, where there is a binary, and the bytes of the `SysIOVec`s.
pub record ErlIoVec : Type 0 where
  pub binv : List (Option (List ℕ))
  pub iov : List (List ℕ)

abbrev pub from_bytes : Endian → ℕ → ℕ → ℕ → ℕ → ℕ → ℕ → ℕ → ℕ → ℕ
from_bytes little a b c d e f g h =
    a + 256 * (b + 256 * (c + 256 * (d + 256 * (e + 256 * (f + 256 * (g + 256 * h))))))
from_bytes big a b c d e f g h =
    h + 256 * (g + 256 * (f + 256 * (e + 256 * (d + 256 * (c + 256 * (b + 256 * a))))))

-- The next eight bytes, and what is behind them.
unfoldable pub read_u64 : Endian → List ℕ → Outcome (ℕ × List ℕ)
read_u64 o (a ∷ b ∷ c ∷ d ∷ e ∷ f ∷ g ∷ h ∷ rest) = ok (from_bytes o a b c d e f g h, rest)
read_u64 o _ = fault invalid_access

abbrev second_size :
    Endian → InputSpec → ℕ → Outcome (ℕ × List ℕ) → Outcome (InputSpec × PayloadSize)
second_size o spec n (fault e) = fault e
second_size o spec n (ok (m, rest)) = ok (spec, record { input_size = n; xsl_size = m })

abbrev first_size : Endian → InputSpec → Outcome (ℕ × List ℕ) → Outcome (InputSpec × PayloadSize)
first_size o spec (fault e) = fault e
first_size o spec (ok (n, rest)) = second_size o spec n (read_u64 o rest)

-- Three bytes of types, then two 64-bit sizes.
unfoldable pub read_header : Endian → List ℕ → Outcome (InputSpec × PayloadSize)
read_header o (arity ∷ input ∷ xsl ∷ rest) =
    first_size o (record { input_kind = input; xsl_kind = xsl; param_grp_arity = arity })
      (read_u64 o rest)
read_header o _ = fault invalid_access

abbrev pub header_size : ℕ
header_size = 19

abbrev the_binary : Option (Option (List ℕ)) → Outcome (List ℕ)
the_binary none = fault invalid_access
the_binary (some none) = fault invalid_access
the_binary (some (some bytes)) = ok bytes

-- `ev->binv[i]->orig_bytes`.
abbrev pub binary_at : ErlIoVec → ℕ → Outcome (List ℕ)
binary_at ev i = the_binary (get_elem? ev.binv i)

abbrev the_base : Option (List ℕ) → Outcome (List ℕ)
the_base none = fault invalid_access
the_base (some bytes) = ok bytes

-- `ev->iov[i].iov_base`.
abbrev pub base_at : ErlIoVec → ℕ → Outcome (List ℕ)
base_at ev i = the_base (get_elem? ev.iov i)

-- `strncpy`: at most `n` characters, and zeros behind a terminator. It may not run past the source.
unfoldable pub strncpy_bytes : ℕ → List ℕ → Outcome (List (Option ℕ))
strncpy_bytes zero src = ok []
strncpy_bytes (suc n) [] = fault invalid_access
strncpy_bytes (suc n) (zero ∷ src) = ok (replicate (suc n) (some 0))
strncpy_bytes (suc n) (suc c ∷ src) = ahead (some (suc c)) (strncpy_bytes n src)

unfoldable pub put_byte : ℕ → ℕ → List (Option ℕ) → Outcome (List (Option ℕ))
put_byte n c [] = fault buffer_overflow
put_byte zero c (b ∷ bytes) = ok (some c ∷ bytes)
put_byte (suc n) c (b ∷ bytes) = ahead b (put_byte n c bytes)

-- `p = ALLOC(n + 1); p[n] = '\0'; strncpy(p, data, n)`, with the sum in 64 bits and no check for
-- NULL.
unfoldable pub copy_text : ℕ → List ℕ → M Ptr
copy_text n source = do
  p ← alloc_chars ((n + 1) % 2 ^ 64)
  bytes ← load_chars p
  ended ← lift (put_byte n 0 bytes)
  copied ← lift (strncpy_bytes n source)
  store p (chars_block (copied ++ drop n ended))
  pure p

abbrev with_index : ℕ → Outcome (List ℕ) → Outcome (ℕ × List ℕ)
with_index i (ok bytes) = ok (i, bytes)
with_index i (fault e) = fault e

-- Where the input document is: behind the header, if the first binary has room, or in the next one.
-- The answer has the index of the last binary that was used.
unfoldable pub input_source : ErlIoVec → List ℕ → ℕ → Outcome (ℕ × List ℕ)
input_source ev first size =
    if leb ((header_size + size) % 2 ^ 64) (length first)
    then ok (1, drop header_size first)
    else with_index 2 (binary_at ev 2)

-- Where the stylesheet is: a small one is in an entry of the vector, a large one in a binary.
unfoldable pub xsl_source : ErlIoVec → ℕ → ℕ → Outcome (List ℕ)
xsl_source ev index size = if ltb size 64 then base_at ev (index + 1) else binary_at ev (index + 1)
