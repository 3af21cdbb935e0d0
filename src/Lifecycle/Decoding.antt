-- ===== src/Lifecycle/Decoding.antt =====
-- What the decoding of c_src/erlxsl_ei.h keeps.
use erlxsl.Prelude.{ℕ, zero, suc, List, Option, none, some}
use erlxsl.Types.{Ptr, DriverState}
use erlxsl.Memory.{M}
use erlxsl.Memory.Keeps.{Quiet, keeps_rules}
use erlxsl.Ei.{
  Ei, write_text, tag_item, decode_tag, fill_item, decode_payload, next_term, decode_pair, by_type,
  decode_ei_cmd,
}
use erlxsl.Lifecycle.Buffers.{
  strlen-Keeps, strcpy-Keeps, alloc_item-Keeps, load_item-Keeps, store_item-Keeps,
  write_cmd_data-Keeps, get_cmd_data-Keeps,
}

pub write_text-Keeps : (p : Ptr) (s : List ℕ) → Quiet (write_text p s)
unfolding write_text
write_text-Keeps p s = search keeps_rules depth 24

tag_item-Keeps :
    (cmd : Ptr) (index : ℕ) (pcmd : Ptr) (o : Option (ℕ × List ℕ))
    → Quiet (tag_item cmd index pcmd o)
tag_item-Keeps cmd index pcmd none = search keeps_rules depth 24
tag_item-Keeps cmd index pcmd (some (index', s)) =
    search
      (
        keeps_rules, write_text-Keeps, get_cmd_data-Keeps, strlen-Keeps, load_item-Keeps,
        store_item-Keeps, strcpy-Keeps,
      )
      depth 24

decode_tag-Keeps :
    (ei : Ei) (cmd : Ptr) (buf : List ℕ) (index : ℕ) → Quiet (decode_tag ei cmd buf index)
unfolding decode_tag
decode_tag-Keeps ei cmd buf index = search (keeps_rules, tag_item-Keeps) depth 24

fill_item-Keeps : (cmd copy : Ptr) (o : Option (ℕ × List ℕ)) → Quiet (fill_item cmd copy o)
fill_item-Keeps cmd copy none = search keeps_rules depth 24
fill_item-Keeps cmd copy (some (index', s)) =
    search
      (
        keeps_rules, write_text-Keeps, get_cmd_data-Keeps, load_item-Keeps, store_item-Keeps,
        strcpy-Keeps,
      )
      depth 24

decode_payload-Keeps :
    (ei : Ei) (cmd : Ptr) (buf : List ℕ) (index size : ℕ)
    → Quiet (decode_payload ei cmd buf index size)
unfolding decode_payload
decode_payload-Keeps ei cmd buf index size = search (keeps_rules, fill_item-Keeps) depth 24

module _ (again : ℕ → M (DriverState × ℕ)) (more : (i : ℕ) → Quiet (again i)) where
  next_term-Keeps : (r : DriverState × ℕ) → Quiet (next_term again r)
  next_term-Keeps (state, index) = search (keeps_rules, more) depth 24

  decode_pair-Keeps : (cmd : Ptr) (o : Option (ℕ × ℕ)) → Quiet (decode_pair cmd again o)
  decode_pair-Keeps cmd none = search keeps_rules depth 24
  decode_pair-Keeps cmd (some (index, arity)) =
      search (keeps_rules, more, next_term-Keeps, alloc_item-Keeps, write_cmd_data-Keeps) depth 24

  by_type-Keeps :
      (ei : Ei) (cmd : Ptr) (buf : List ℕ) (index : ℕ) (o : Option (ℕ × ℕ))
      → Quiet (by_type ei cmd buf index again o)
  by_type-Keeps ei cmd buf index none = search keeps_rules depth 24
  by_type-Keeps ei cmd buf index (some (type, size)) =
      search (keeps_rules, decode_pair-Keeps, decode_tag-Keeps, decode_payload-Keeps) depth 24

pub decode_ei_cmd-Keeps :
    (ei : Ei) (fuel : ℕ) (cmd : Ptr) (buf : List ℕ) (index : ℕ)
    → Quiet (decode_ei_cmd ei fuel cmd buf index)
unfolding decode_ei_cmd
decode_ei_cmd-Keeps ei zero cmd buf index = search keeps_rules depth 24
decode_ei_cmd-Keeps ei (suc fuel) cmd buf index =
    by_type-Keeps (λ i. decode_ei_cmd ei fuel cmd buf i)
      (λ i. decode_ei_cmd-Keeps ei fuel cmd buf i) ei cmd buf index (ei.get_type buf index)
