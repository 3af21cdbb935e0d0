-- ===== src/CString/Laws.antt =====
-- Laws of the string functions: what is written is read back, and what does not fit overflows.
use erlxsl.Prelude.{
  ℕ, zero, suc, ◌+◌, ◌<◌, ◌≤◌, ◌≡◌, ◌≢◌, refl, List, [], ◌∷◌, ◌++◌, Option, some, arith, length,
  drop, All, eqb_ne,
}
use erlxsl.Types.{Ptr}
use erlxsl.Memory.{World, ok, fault, update, chars_block, chars_of, buffer_overflow}
use erlxsl.Memory.Steps.{load-at, store-live}
use erlxsl.CString.{
  log_string, read_string, put_string, put_string_at, c_string, strlen, strcpy, strcat,
}

-- No character is the terminator.
abbrev pub IsText : List ℕ → Type 0
IsText = All (λ c. c ≢ 0)

-- A string and its terminator, as bytes.
abbrev pub terminated : List ℕ → List (Option ℕ)
terminated [] = some 0 ∷ []
terminated (c ∷ s) = some c ∷ terminated s

pub length-terminated : (s : List ℕ) → length (terminated s) ≡ length s + 1
length-terminated [] = omega arith
length-terminated (c ∷ s) = omega (arith, length-terminated s)

pub read_string-terminated :
    (s : List ℕ) (rest : List (Option ℕ)) → IsText s → read_string (terminated s ++ rest) ≡ ok s
unfolding read_string
read_string-terminated [] rest h = refl
read_string-terminated (zero ∷ s) rest h = absurd (h.0 refl)
read_string-terminated (suc c ∷ s) rest h = rw (read_string-terminated s rest h.1)

pub put_string-fits :
    (s : List ℕ) (bytes : List (Option ℕ))
    → length s < length bytes
    → put_string s bytes ≡ ok (terminated s ++ drop (suc (length s)) bytes)
unfolding put_string
put_string-fits s [] h = absurd (omega arith)
put_string-fits [] (b ∷ bytes) h = refl
put_string-fits (c ∷ s) (b ∷ bytes) h = rw (put_string-fits s bytes (omega arith))

pub put_string-overflows :
    (s : List ℕ) (bytes : List (Option ℕ))
    → length bytes ≤ length s
    → put_string s bytes ≡ fault buffer_overflow
unfolding put_string
put_string-overflows s [] h = refl
put_string-overflows [] (b ∷ bytes) h = absurd (omega arith)
put_string-overflows (c ∷ s) (b ∷ bytes) h = rw (put_string-overflows s bytes (omega arith))

-- Written behind a string, a string is appended to it.
pub put_string_at-fits :
    (s t : List ℕ) (rest : List (Option ℕ))
    → length t ≤ length rest
    → put_string_at (length s) t (terminated s ++ rest)
      ≡ ok (terminated (s ++ t) ++ drop (length t) rest)
unfolding put_string_at
put_string_at-fits [] t rest h = put_string-fits t (some 0 ∷ rest) (omega arith)
put_string_at-fits (c ∷ s) t rest h = rw (put_string_at-fits s t rest h)

pub put_string_at-overflows :
    (s t : List ℕ) (rest : List (Option ℕ))
    → length rest < length t
    → put_string_at (length s) t (terminated s ++ rest) ≡ fault buffer_overflow
unfolding put_string_at
put_string_at-overflows [] t rest h = put_string-overflows t (some 0 ∷ rest) (omega arith)
put_string_at-overflows (c ∷ s) t rest h = rw (put_string_at-overflows s t rest h)

-- At `p` stands the string `s`, with `rest` behind its terminator.
abbrev pub StringAt : World → Ptr → List ℕ → List (Option ℕ) → Type 0
StringAt w p s rest = w.cells p ≡ some (chars_block (terminated s ++ rest))

-- The world with other bytes at `p`.
abbrev pub with_bytes : Ptr → List (Option ℕ) → World → World
with_bytes p bytes w = record w { cells = update w.cells p (some (chars_block bytes)) }

module _ (p : Ptr) (s : List ℕ) (rest : List (Option ℕ)) (w : World) (at : StringAt w p s rest)
    (is_text : IsText s) where
  pub c_string-at : c_string p w ≡ ok (s, w)
  unfolding c_string
  c_string-at =
      rw (
        load-at chars_of p w _ (terminated s ++ rest) at refl,
        read_string-terminated s rest is_text,
      )

  pub strlen-at : strlen p w ≡ ok (length s, w)
  unfolding strlen
  strlen-at = rw c_string-at

  pub log_string-at : p ≢ 0 → log_string p w ≡ ok (tt, w)
  unfolding log_string
  log_string-at nz = rw (eqb_ne p 0 nz, c_string-at)

module _ (dest src : Ptr) (t : List ℕ) (rest : List (Option ℕ)) (w : World) (differ : dest ≢ src)
    (src_at : StringAt w src t rest) (is_text : IsText t) where
  module _ (bytes : List (Option ℕ)) (dest_at : w.cells dest ≡ some (chars_block bytes)) where
    pub strcpy-fits :
        length t < length bytes
        → strcpy dest src w
          ≡ ok (dest, with_bytes dest (terminated t ++ drop (suc (length t)) bytes) w)
    unfolding strcpy
    strcpy-fits h = rw (
      eqb_ne dest src differ,
      c_string-at src t rest w src_at is_text,
      load-at chars_of dest w _ bytes dest_at refl,
      put_string-fits t bytes h,
      store-live dest (chars_block (terminated t ++ drop (suc (length t)) bytes)) w _ dest_at,
    )

    pub strcpy-overflows : length bytes ≤ length t → strcpy dest src w ≡ fault buffer_overflow
    unfolding strcpy
    strcpy-overflows h = rw (
      eqb_ne dest src differ,
      c_string-at src t rest w src_at is_text,
      load-at chars_of dest w _ bytes dest_at refl,
      put_string-overflows t bytes h,
    )

  module _ (s : List ℕ) (room : List (Option ℕ)) (dest_at : StringAt w dest s room)
      (old_text : IsText s) where
    pub strcat-fits :
        length t ≤ length room
        → strcat dest src w
          ≡ ok (dest, with_bytes dest (terminated (s ++ t) ++ drop (length t) room) w)
    unfolding strcat
    strcat-fits h = rw (
      eqb_ne dest src differ,
      c_string-at src t rest w src_at is_text,
      load-at chars_of dest w _ (terminated s ++ room) dest_at refl,
      read_string-terminated s room old_text,
      put_string_at-fits s t room h,
      store-live dest (chars_block (terminated (s ++ t) ++ drop (length t) room)) w _ dest_at,
    )

    pub strcat-overflows : length room < length t → strcat dest src w ≡ fault buffer_overflow
    unfolding strcat
    strcat-overflows h = rw (
      eqb_ne dest src differ,
      c_string-at src t rest w src_at is_text,
      load-at chars_of dest w _ (terminated s ++ room) dest_at refl,
      read_string-terminated s room old_text,
      put_string_at-overflows s t room h,
    )
