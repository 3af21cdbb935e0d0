-- ===== src/Ei/Progress.antt =====
-- The decoding of c_src/erlxsl_ei.h comes to an end.
use erlxsl.Prelude.{
  ℕ, zero, suc, ◌+◌, ◌<◌, ◌≤◌, ◌≡◌, refl, List, [], ◌∷◌, Option, none, some, length, arith, ◌==◌,
}
use erlxsl.Types.{Ptr, DriverState, CmdData, ReallocFunction, internal_realloc}
use erlxsl.Memory.{World, M, Outcome, ok, fault, ◌>>=◌}
use erlxsl.Memory.Finishes.{
  Finishes, Finished, Ends, EndedWell, Finishes-bind, Finishes-if, Finishes-pure, Finishes-after,
  ends_rules,
}
use erlxsl.CString.{read_string, put_string, c_string, strlen, strcpy, ahead}
use erlxsl.CommandData.{
  first_item, set_first, load_item, store_item, alloc_item, resize_items, write_cmd_data,
  get_cmd_data,
}
use erlxsl.Ei.{
  Ei, write_text, tag_item, decode_tag, fill_item, decode_payload, next_term, decode_pair, by_type,
  is_success, decode_ei_cmd, erl_small_tuple_ext, erl_atom_ext, erl_string_ext,
}

ahead-EndedWell : {A : Type 0} (a : A) (o : Outcome (List A)) → EndedWell o → EndedWell (ahead a o)
ahead-EndedWell a (ok r) h = tt
ahead-EndedWell a (fault e) h = h

read_string-EndedWell : (bytes : List (Option ℕ)) → EndedWell (read_string bytes)
unfolding read_string
read_string-EndedWell [] = refl
read_string-EndedWell (none ∷ bytes) = refl
read_string-EndedWell (some zero ∷ bytes) = tt
read_string-EndedWell (some (suc c) ∷ bytes) = ahead-EndedWell _ _ (read_string-EndedWell bytes)

put_string-EndedWell : (s : List ℕ) (bytes : List (Option ℕ)) → EndedWell (put_string s bytes)
unfolding put_string
put_string-EndedWell s [] = refl
put_string-EndedWell [] (b ∷ bytes) = tt
put_string-EndedWell (c ∷ s) (b ∷ bytes) = ahead-EndedWell _ _ (put_string-EndedWell s bytes)

c_string-Ends : (p : Ptr) → Ends (c_string p)
unfolding c_string
c_string-Ends p = search (ends_rules, read_string-EndedWell) depth 24

strlen-Ends : (p : Ptr) → Ends (strlen p)
unfolding strlen
strlen-Ends p = search (ends_rules, c_string-Ends) depth 24

strcpy-Ends : (dest src : Ptr) → Ends (strcpy dest src)
unfolding strcpy
strcpy-Ends dest src = search (ends_rules, c_string-Ends, put_string-EndedWell) depth 24

first_item-Ends : (items : List CmdData) → Ends (first_item items)
first_item-Ends [] = search ends_rules depth 24
first_item-Ends (item ∷ items) = search ends_rules depth 24

load_item-Ends : (p : Ptr) → Ends (load_item p)
unfolding load_item
load_item-Ends p = search (ends_rules, first_item-Ends) depth 24

set_first-Ends : (p : Ptr) (item : CmdData) (items : List CmdData) → Ends (set_first p item items)
set_first-Ends p item [] = search ends_rules depth 24
set_first-Ends p item (old ∷ items) = search ends_rules depth 24

store_item-Ends : (p : Ptr) (item : CmdData) → Ends (store_item p item)
unfolding store_item
store_item-Ends p item = search (ends_rules, set_first-Ends) depth 24

alloc_item-Ends : Ends alloc_item
unfolding alloc_item
alloc_item-Ends = search ends_rules depth 24

resize_items-Ends : (c : ReallocFunction) (p : Ptr) (n : ℕ) → Ends (resize_items c p n)
unfolding resize_items
resize_items-Ends internal_realloc p n = search ends_rules depth 24

write_cmd_data-Ends : (item cmd : Ptr) → Ends (write_cmd_data item cmd)
unfolding write_cmd_data
write_cmd_data-Ends item cmd = search (ends_rules, resize_items-Ends, load_item-Ends) depth 24

get_cmd_data-Ends : (cmd : Ptr) → Ends (get_cmd_data cmd)
unfolding get_cmd_data
get_cmd_data-Ends cmd = search ends_rules depth 24

write_text-Ends : (p : Ptr) (s : List ℕ) → Ends (write_text p s)
unfolding write_text
write_text-Ends p s = search (ends_rules, put_string-EndedWell) depth 24

-- What ei says of its decoders: the index is moved behind the term, and the term was in the buffer.
pub record Advances (ei : Ei) (buf : List ℕ) : Type 0 where
  pub tuple_header :
      (i j arity : ℕ) → ei.decode_tuple_header buf i ≡ some (j, arity) → (i < j) × (j ≤ length buf)
  pub atom :
      (i j : ℕ) (s : List ℕ) → ei.decode_atom buf i ≡ some (j, s) → (i < j) × (j ≤ length buf)
  pub string :
      (i j : ℕ) (s : List ℕ) → ei.decode_string buf i ≡ some (j, s) → (i < j) × (j ≤ length buf)

-- The index that a decoder leaves is no earlier, and in the buffer or at its end.
pub record IsBehind (i : ℕ) (buf : List ℕ) (r : DriverState × ℕ) : Type 0 where
  pub after : i ≤ r.1
  pub inside : r.1 ≤ length buf

module _ (buf : List ℕ) where
  same-IsBehind : (i : ℕ) → i ≤ length buf → (state : DriverState) → IsBehind i buf (state, i)
  same-IsBehind i h state = record { after = omega arith; inside = h }

  moved-IsBehind :
      (i j : ℕ) → (i < j) × (j ≤ length buf) → (state : DriverState) → IsBehind i buf (state, j)
  moved-IsBehind i j (h, k) state = record { after = omega arith; inside = k }

  tag_item-Finishes :
      (cmd : Ptr) (i : ℕ) (pcmd : Ptr) (o : Option (ℕ × List ℕ))
      → i ≤ length buf
      → ((j : ℕ) (s : List ℕ) → o ≡ some (j, s) → (i < j) × (j ≤ length buf))
      → Finishes (IsBehind i buf) (tag_item cmd i pcmd o)
  tag_item-Finishes cmd i pcmd none h f = Finishes-pure _ (same-IsBehind i h _)
  tag_item-Finishes cmd i pcmd (some (j, s)) h f =
      let behind = moved-IsBehind i j (f j s refl) in
      search
        (
          ends_rules, write_text-Ends, get_cmd_data-Ends, strlen-Ends, load_item-Ends,
          store_item-Ends, strcpy-Ends, behind,
        )
        depth 40

  decode_tag-Finishes :
      (ei : Ei)
      → Advances ei buf
      → (cmd : Ptr) (i : ℕ) → i ≤ length buf
      → Finishes (IsBehind i buf) (decode_tag ei cmd buf i)
  unfolding decode_tag
  decode_tag-Finishes ei adv cmd i h =
      let body =
        λ (pcmd : Ptr). tag_item-Finishes cmd i pcmd (ei.decode_atom buf i) h (adv.atom i) in
      search (ends_rules, body) depth 24

  fill_item-Finishes :
      (cmd : Ptr) (i : ℕ) (copy : Ptr) (o : Option (ℕ × List ℕ))
      → i ≤ length buf
      → ((j : ℕ) (s : List ℕ) → o ≡ some (j, s) → (i < j) × (j ≤ length buf))
      → Finishes (IsBehind i buf) (fill_item cmd copy o)
  fill_item-Finishes cmd i copy none h f = search ends_rules depth 24
  fill_item-Finishes cmd i copy (some (j, s)) h f =
      let behind = moved-IsBehind i j (f j s refl) in
      search
        (
          ends_rules, write_text-Ends, get_cmd_data-Ends, load_item-Ends, store_item-Ends,
          strcpy-Ends, behind,
        )
        depth 40

  decode_payload-Finishes :
      (ei : Ei)
      → Advances ei buf
      → (cmd : Ptr) (i size : ℕ) → i ≤ length buf
      → Finishes (IsBehind i buf) (decode_payload ei cmd buf i size)
  unfolding decode_payload
  decode_payload-Finishes ei adv cmd i size h =
      let same = same-IsBehind i h in
      let body =
        λ (copy : Ptr). fill_item-Finishes cmd i copy (ei.decode_string buf i) h (adv.string i) in
      search (ends_rules, body, same) depth 24

  module _ (again : ℕ → M (DriverState × ℕ)) (bound : ℕ)
      (more : (i : ℕ) → bound < i → i ≤ length buf → Finishes (IsBehind i buf) (again i)) where
    -- A later start is as good.
    earlier :
        (i j : ℕ)
        → i ≤ j
        → (m : M (DriverState × ℕ)) → Finishes (IsBehind j buf) m
        → Finishes (IsBehind i buf) m
    earlier i j h m f = record { at = λ w. go (m w) (f.at w) }
      where
        go :
            (o : Outcome ((DriverState × ℕ) × World))
            → Finished (IsBehind j buf) o
            → Finished (IsBehind i buf) o
        go (fault e) e' = e'
        go (ok (r, w)) b = record { after = omega (arith, b.after); inside = b.inside }

    next_term-Finishes :
        (i : ℕ)
        → bound < i
        → (r : DriverState × ℕ) → IsBehind i buf r
        → Finishes (IsBehind i buf) (next_term again r)
    next_term-Finishes i h (state, j) b =
        Finishes-if (is_success state) _ _
          (earlier i j b.after (again j) (more j (omega (arith, b.after)) b.inside))
          (Finishes-pure _ b)

    decode_pair-Finishes :
        (cmd : Ptr) (o : Option (ℕ × ℕ))
        → ((j arity : ℕ) → o ≡ some (j, arity) → (bound < j) × (j ≤ length buf))
        → Finishes (IsBehind bound buf) (decode_pair cmd again o)
    decode_pair-Finishes cmd none f = search ends_rules depth 24
    decode_pair-Finishes cmd (some (j, arity)) f =
        let (past, inside) = f j arity refl in
        let same = moved-IsBehind bound j (past, inside) in
        let terms : Finishes (IsBehind bound buf) (again j >>= next_term again) =
          earlier bound j (omega (arith, past)) (again j >>= next_term again) (
            Finishes-bind (again j) (next_term again) (more j past inside)
              (next_term-Finishes j past)) in
        Finishes-if (arity == 2) _ _
          (Finishes-after alloc_item _ alloc_item-Ends λ item.
            Finishes-if (item == 0) _ _ (Finishes-pure _ (same _)) (
              Finishes-after (write_cmd_data item cmd) _ (write_cmd_data-Ends item cmd)
                λ written. terms))
          (Finishes-pure _ (same _))

    by_type-Finishes :
        (ei : Ei)
        → Advances ei buf
        → (cmd : Ptr) → bound ≤ length buf
        → (o : Option (ℕ × ℕ)) → Finishes (IsBehind bound buf) (by_type ei cmd buf bound again o)
    by_type-Finishes ei adv cmd h none = Finishes-pure _ (same-IsBehind bound h _)
    by_type-Finishes ei adv cmd h (some (type, size)) =
        let pair =
          decode_pair-Finishes cmd (ei.decode_tuple_header buf bound) (adv.tuple_header bound) in
        let tag = decode_tag-Finishes ei adv cmd bound h in
        let payload = decode_payload-Finishes ei adv cmd bound size h in
        let same = same-IsBehind bound h in
        Finishes-if (type == erl_small_tuple_ext) _ _ pair (
          Finishes-if (type == erl_atom_ext) _ _ tag
            (Finishes-if (type == erl_string_ext) _ _ payload (Finishes-pure _ (same _))))

pub decode_ei_cmd-Finishes :
    (ei : Ei) (buf : List ℕ)
    → Advances ei buf
    → (fuel : ℕ) (cmd : Ptr) (i : ℕ) → i ≤ length buf
    → length buf < fuel + i
    → Finishes (IsBehind i buf) (decode_ei_cmd ei fuel cmd buf i)
unfolding decode_ei_cmd
decode_ei_cmd-Finishes ei buf adv zero cmd i h enough = absurd (omega arith)
decode_ei_cmd-Finishes ei buf adv (suc fuel) cmd i h enough =
    by_type-Finishes buf (λ j. decode_ei_cmd ei fuel cmd buf j) i
      (λ j past inside. decode_ei_cmd-Finishes ei buf adv fuel cmd j inside (omega (arith, past)))
      ei adv cmd h (ei.get_type buf i)

-- The nesting of tuples is bounded: if ei moves the index behind each term that it decodes, and no
-- further than the buffer's end, then decoding from an index in the buffer never runs out of a fuel
-- that is larger than what is left of the buffer, whatever memory it runs in; and when it returns,
-- with whatever state, the index has not moved back and is in the buffer or at its end.
pub decode_ei_cmd-terminates :
    (ei : Ei) (buf : List ℕ)
    → Advances ei buf
    → (fuel : ℕ) (cmd : Ptr) (i : ℕ) → i ≤ length buf
    → length buf < fuel + i
    → (w : World) → Finished (IsBehind i buf) (decode_ei_cmd ei fuel cmd buf i w)
decode_ei_cmd-terminates ei buf adv fuel cmd i h enough w =
    (decode_ei_cmd-Finishes ei buf adv fuel cmd i h enough).at w
