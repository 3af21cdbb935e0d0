-- ===== src/CString.antt =====
-- The string functions of C that the driver calls, over the bytes of a block.
pub mod Laws
use erlxsl.Prelude.{ℕ, zero, suc, List, [], ◌∷◌, Option, none, some, ◌==◌, if◌then◌else◌, length}
use erlxsl.Types.{Ptr}
use erlxsl.Memory.{
  M, Outcome, ok, fault, ◌>>=◌, ◌>>◌, pure, throw, lift, load_chars, store, chars_block,
  unterminated_string, indeterminate_value, buffer_overflow, overlapping_copy,
}

-- A byte in front of what a scan of the rest finds.
abbrev pub ahead {ℓ} : {A : Type ℓ} → A → Outcome (List A) → Outcome (List A)
ahead a (ok r) = ok (a ∷ r)
ahead a (fault e) = fault e

-- The characters up to the terminator. To run past the block, or to read what was never written,
-- is a fault.
unfoldable pub read_string : List (Option ℕ) → Outcome (List ℕ)
read_string [] = fault unterminated_string
read_string (none ∷ bytes) = fault indeterminate_value
read_string (some zero ∷ bytes) = ok []
read_string (some (suc c) ∷ bytes) = ahead (suc c) (read_string bytes)

-- Write a string and its terminator at the start of a block.
unfoldable pub put_string : List ℕ → List (Option ℕ) → Outcome (List (Option ℕ))
put_string s [] = fault buffer_overflow
put_string [] (b ∷ bytes) = ok (some 0 ∷ bytes)
put_string (c ∷ s) (b ∷ bytes) = ahead (some c) (put_string s bytes)

-- The same from an offset on.
unfoldable pub put_string_at : ℕ → List ℕ → List (Option ℕ) → Outcome (List (Option ℕ))
put_string_at zero s bytes = put_string s bytes
put_string_at (suc n) s [] = fault buffer_overflow
put_string_at (suc n) s (b ∷ bytes) = ahead b (put_string_at n s bytes)

unfoldable pub c_string : Ptr → M (List ℕ)
c_string p = load_chars p >>= λ bytes. lift (read_string bytes)

unfoldable pub strlen : Ptr → M ℕ
strlen p = c_string p >>= λ s. pure (length s)

unfoldable pub strcpy : Ptr → Ptr → M Ptr
strcpy dest src = if dest == src then throw overlapping_copy else (do
  s ← c_string src
  bytes ← load_chars dest
  written ← lift (put_string s bytes)
  store dest (chars_block written)
  pure dest)

unfoldable pub strcat : Ptr → Ptr → M Ptr
strcat dest src = if dest == src then throw overlapping_copy else (do
  s ← c_string src
  bytes ← load_chars dest
  old ← lift (read_string bytes)
  written ← lift (put_string_at (length old) s bytes)
  store dest (chars_block written)
  pure dest)

-- `printf` of a string: it is read, but for NULL, for which the C library prints `(null)`.
unfoldable pub log_string : Ptr → M (Unit {0})
log_string p = if p == 0 then pure tt else (c_string p >>= λ s. pure tt)

-- `puts`.
unfoldable pub puts : Ptr → M (Unit {0})
puts p = c_string p >>= λ s. pure tt
