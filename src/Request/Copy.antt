-- ===== src/Request/Copy.antt =====
-- The driver's private copies of a request's buffers.
use erlxsl.Prelude.{
  ℕ, zero, suc, true, ◌+◌, ◌%◌, ◌^◌, ◌<◌, ◌≡◌, refl, List, [], ◌∷◌, ◌++◌, map, Option, none, some,
  arith, length, drop, replicate,
}
use erlxsl.Memory.{World, ok, chars_block, chars_of}
use erlxsl.Memory.Steps.{load-at, store-live, driver_alloc-granted}
use erlxsl.Memory.WellFormed.{granted, same_cells}
use erlxsl.CString.Laws.{IsText, terminated}
use erlxsl.Request.{copy_text, put_byte, strncpy_bytes}

size_mod : (n : ℕ) → n + 1 < 2 ^ 64 → (n + 1) % 2 ^ 64 ≡ suc n
size_mod n h = omega arith

put_byte-last :
    (n : ℕ) → put_byte n 0 (replicate (suc n) none) ≡ ok (replicate n none ++ some 0 ∷ [])
unfolding put_byte
put_byte-last zero = refl
put_byte-last (suc n) = rw (put_byte-last n)

drop-replicate : (n : ℕ) (r : List (Option ℕ)) → drop n (replicate n none ++ r) ≡ r
drop-replicate zero r = refl
drop-replicate (suc n) r = drop-replicate n r

strncpy_bytes-text :
    (s more : List ℕ) → IsText s → strncpy_bytes (length s) (s ++ more) ≡ ok (map some s)
unfolding strncpy_bytes
strncpy_bytes-text [] more h = refl
strncpy_bytes-text (zero ∷ s) more h = absurd (h.0 refl)
strncpy_bytes-text (suc c ∷ s) more h = rw (strncpy_bytes-text s more h.1)

map-some-terminated : (s : List ℕ) → map some s ++ some 0 ∷ [] ≡ terminated s
map-some-terminated [] = refl
map-some-terminated (c ∷ s) = rw (map-some-terminated s)

-- With memory for it, the copy is a fresh block of exactly the text and a terminator.
pub copy_text-granted :
    (s more : List ℕ) (w : World)
    → IsText s
    → length s + 1 < 2 ^ 64
    → w.grants w.next ≡ true
    → copy_text (length s) (s ++ more) w ≡ ok (w.next, granted (chars_block (terminated s)) w)
unfolding copy_text
copy_text-granted s more w h small g =
    rw
      (
        size_mod (length s) small,
        driver_alloc-granted (chars_block (replicate (suc (length s)) none)) w g,
        load-at chars_of w.next (granted (chars_block (replicate (suc (length s)) none)) w)
            (chars_block (replicate (suc (length s)) none)) (replicate (suc (length s)) none)
            (ground arith) refl,
        put_byte-last (length s),
        strncpy_bytes-text s more h,
        drop-replicate (length s) (some 0 ∷ []),
        map-some-terminated s,
        store-live w.next (chars_block (terminated s))
            (granted (chars_block (replicate (suc (length s)) none)) w)
            (chars_block (replicate (suc (length s)) none)) (ground arith),
      )
      (same_cells w.next w (w.next + 1) _ _ λ q. ground arith)
