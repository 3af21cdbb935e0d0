-- ===== src/Lifecycle/Buffers.antt =====
-- What the string functions and the providers' macros of c_src/erlxsl.h keep.
use erlxsl.Prelude.{ℕ, List, [], ◌∷◌}
use erlxsl.Types.{Ptr, AllocFunction, internal_alloc, ReallocFunction, internal_realloc, CmdData}
use erlxsl.Memory.Keeps.{Quiet, keeps_rules}
use erlxsl.CString.{c_string, strlen, strcpy, strcat, log_string, puts}
use erlxsl.Api.{get_buffer, get_doc_buffer, get_doc_size}
use erlxsl.ResultBuffer.{
  call_alloc, call_resize, driver_realloc, SizeArgument, resize_result_buffer, make_result_buffer,
  ensure_buffer, write_result_buffer, clear_result_buffer,
}
use erlxsl.CommandData.{
  first_item, set_first, alloc_item, load_item, store_item, resize_items, write_cmd_data,
  get_cmd_data,
}

pub c_string-Keeps : (p : Ptr) → Quiet (c_string p)
unfolding c_string
c_string-Keeps p = search keeps_rules depth 24

pub strlen-Keeps : (p : Ptr) → Quiet (strlen p)
unfolding strlen
strlen-Keeps p = search (keeps_rules, c_string-Keeps) depth 24

pub strcpy-Keeps : (dest src : Ptr) → Quiet (strcpy dest src)
unfolding strcpy
strcpy-Keeps dest src = search (keeps_rules, c_string-Keeps) depth 24

strcat-Keeps : (dest src : Ptr) → Quiet (strcat dest src)
unfolding strcat
strcat-Keeps dest src = search (keeps_rules, c_string-Keeps) depth 24

pub log_string-Keeps : (p : Ptr) → Quiet (log_string p)
unfolding log_string
log_string-Keeps p = search (keeps_rules, c_string-Keeps) depth 24

pub puts-Keeps : (p : Ptr) → Quiet (puts p)
unfolding puts
puts-Keeps p = search (keeps_rules, c_string-Keeps) depth 24

call_alloc-Keeps : (f : AllocFunction) (n : ℕ) → Quiet (call_alloc f n)
call_alloc-Keeps internal_alloc n = search keeps_rules depth 24

driver_realloc-Keeps : (p : Ptr) (n : ℕ) → Quiet (driver_realloc p n)
unfolding driver_realloc
driver_realloc-Keeps p n = search keeps_rules depth 24

call_resize-Keeps : (f : ReallocFunction) (p : Ptr) (n : ℕ) → Quiet (call_resize f p n)
call_resize-Keeps internal_realloc p n = driver_realloc-Keeps p n

resize_result_buffer-Keeps : (n : ℕ) (cmd : Ptr) → Quiet (resize_result_buffer n cmd)
unfolding resize_result_buffer
resize_result_buffer-Keeps n cmd = search (keeps_rules, call_resize-Keeps) depth 24

pub make_result_buffer-Keeps : (n : SizeArgument) (cmd : Ptr) → Quiet (make_result_buffer n cmd)
unfolding make_result_buffer
make_result_buffer-Keeps n cmd = search (keeps_rules, call_alloc-Keeps) depth 24

ensure_buffer-Keeps : (buff cmd : Ptr) → Quiet (ensure_buffer buff cmd)
unfolding ensure_buffer
ensure_buffer-Keeps buff cmd =
    search (keeps_rules, strlen-Keeps, resize_result_buffer-Keeps, make_result_buffer-Keeps) depth
      24

pub write_result_buffer-Keeps : (buff cmd : Ptr) → Quiet (write_result_buffer buff cmd)
unfolding write_result_buffer
write_result_buffer-Keeps buff cmd =
    search (keeps_rules, ensure_buffer-Keeps, strcpy-Keeps, strcat-Keeps) depth 24

pub clear_result_buffer-Keeps : (cmd : Ptr) → Quiet (clear_result_buffer cmd)
unfolding clear_result_buffer
clear_result_buffer-Keeps cmd = search keeps_rules depth 24

pub get_buffer-Keeps : (p : Ptr) → Quiet (get_buffer p)
unfolding get_buffer
get_buffer-Keeps p = search keeps_rules depth 24

pub get_doc_buffer-Keeps : (p : Ptr) → Quiet (get_doc_buffer p)
unfolding get_doc_buffer
get_doc_buffer-Keeps p = search (keeps_rules, get_buffer-Keeps) depth 24

pub get_doc_size-Keeps : (p : Ptr) → Quiet (get_doc_size p)
unfolding get_doc_size
get_doc_size-Keeps p = search keeps_rules depth 24

pub alloc_item-Keeps : Quiet alloc_item
unfolding alloc_item
alloc_item-Keeps = search keeps_rules depth 24

pub load_item-Keeps : (p : Ptr) → Quiet (load_item p)
unfolding load_item
load_item-Keeps p = search (keeps_rules, first_item-Keeps) depth 24
  where
    first_item-Keeps : (items : List CmdData) → Quiet (first_item items)
    first_item-Keeps [] = search keeps_rules
    first_item-Keeps (item ∷ items) = search keeps_rules

pub store_item-Keeps : (p : Ptr) (item : CmdData) → Quiet (store_item p item)
unfolding store_item
store_item-Keeps p item = search (keeps_rules, set_first-Keeps) depth 24
  where
    set_first-Keeps : (items : List CmdData) → Quiet (set_first p item items)
    set_first-Keeps [] = search keeps_rules
    set_first-Keeps (old ∷ items) = search keeps_rules

resize_items-Keeps : (f : ReallocFunction) (p : Ptr) (n : ℕ) → Quiet (resize_items f p n)
unfolding resize_items
resize_items-Keeps internal_realloc p n = search keeps_rules depth 24

pub write_cmd_data-Keeps : (item cmd : Ptr) → Quiet (write_cmd_data item cmd)
unfolding write_cmd_data
write_cmd_data-Keeps item cmd = search (keeps_rules, resize_items-Keeps, load_item-Keeps) depth 24

pub get_cmd_data-Keeps : (cmd : Ptr) → Quiet (get_cmd_data cmd)
unfolding get_cmd_data
get_cmd_data-Keeps cmd = search keeps_rules depth 24
