-- ===== src/TestEngine/Documents.antt =====
-- A command with two text documents, as a provider's transform relies on, and what the macros that
-- read it give.
use erlxsl.Prelude.{
  ℕ, ◌≡◌, ◌≢◌, refl, ◌∙◌, List, [], ◌∷◌, Option, Distinct, some, true, false, length, eqb_ne,
}
use erlxsl.Types.{Ptr, Command, DriverIoVec, InputDocument, XslTask, text}
use erlxsl.Memory.{
  World, ok, command_block, iov_block, document_block, task_block, iov_of, document_of,
}
use erlxsl.Memory.Steps.{load-at}
use erlxsl.Memory.WellFormed.{WellFormed, allocated-ne}
use erlxsl.CString.Laws.{IsText, StringAt}
use erlxsl.Internal.{transform_command}
use erlxsl.Api.{get_doc_size, get_doc_buffer, get_buffer}

-- At `doc` stands a document whose vector at `iov` has the text `s` at `buffer`, and its size.
pub record TextDocument (w : World) (doc iov buffer : Ptr) (s : List ℕ) (rest : List (Option ℕ))
    : Type 0 where
  pub d : InputDocument
  pub v : DriverIoVec
  pub doc_at : w.cells doc ≡ some (document_block d)
  pub iov_is : d.iov ≡ iov
  pub iov_at : w.cells iov ≡ some (iov_block v)
  pub is_text : v.type ≡ text
  pub owned : v.dirty ≡ true
  pub size_is : v.size ≡ length s
  pub buffer_is : v.payload ≡ buffer
  pub text_at : StringAt w buffer s rest
  pub characters : IsText s

module _ {w : World} (wf : WellFormed w) {doc iov buffer : Ptr} {s : List ℕ}
    {rest : List (Option ℕ)} (h : TextDocument w doc iov buffer s rest) where
  pub get_doc_size-text : get_doc_size doc w ≡ ok (length s, w)
  unfolding get_doc_size
  get_doc_size-text = rw (
    eqb_ne doc 0 (allocated-ne w wf doc _ h.doc_at),
    load-at document_of doc w _ h.d h.doc_at refl,
    h.iov_is,
    eqb_ne iov 0 (allocated-ne w wf iov _ h.iov_at),
    load-at iov_of iov w _ h.v h.iov_at refl,
    h.size_is,
  )

  pub get_doc_buffer-text : get_doc_buffer doc w ≡ ok (buffer, w)
  unfolding get_doc_buffer get_buffer
  get_doc_buffer-text = rw (
    eqb_ne doc 0 (allocated-ne w wf doc _ h.doc_at),
    load-at document_of doc w _ h.d h.doc_at refl,
    h.iov_is,
    eqb_ne iov 0 (allocated-ne w wf iov _ h.iov_at),
    load-at iov_of iov w _ h.v h.iov_at refl,
    h.is_text,
    h.buffer_is,
  )

-- A transform command whose task has the two documents' texts `s` and `t`, and whose result has a
-- clean vector.
pub record TransformReady (w : World) (cmd res task doc doc' iov iov' buffer buffer' : Ptr)
    (s t : List ℕ) (rest rest' : List (Option ℕ)) : Type 0 where
  pub wf : WellFormed w
  pub c : Command
  pub v : DriverIoVec
  pub tk : XslTask
  pub cmd_at : w.cells cmd ≡ some (command_block c)
  pub is_transform : c.command_string ≡ some transform_command
  pub task_is : c.command_data ≡ task
  pub result_is : c.result ≡ res
  pub result_at : w.cells res ≡ some (iov_block v)
  pub clean : v.dirty ≡ false
  pub task_at : w.cells task ≡ some (task_block tk)
  pub input_is : tk.input_doc ≡ some doc
  pub xslt_is : tk.xslt_doc ≡ some doc'
  pub no_parameters : tk.parameters ≡ some 0
  pub input : TextDocument w doc iov buffer s rest
  pub xslt : TextDocument w doc' iov' buffer' t rest'
  pub input_iov_apart : iov ≢ res
  pub xslt_iov_apart : iov' ≢ res
  pub apart : Distinct (buffer ∷ iov ∷ doc ∷ buffer' ∷ iov' ∷ doc' ∷ res ∷ cmd ∷ [])

pub TextDocument-same :
    {w : World} {doc iov buffer : Ptr} {s : List ℕ} {rest : List (Option ℕ)} (w' : World)
    → TextDocument w doc iov buffer s rest
    → w'.cells doc ≡ w.cells doc
    → w'.cells iov ≡ w.cells iov
    → w'.cells buffer ≡ w.cells buffer
    → TextDocument w' doc iov buffer s rest
TextDocument-same w' h d i b = record {
  d = h.d;
  v = h.v;
  doc_at = d ∙ h.doc_at;
  iov_is = h.iov_is;
  iov_at = i ∙ h.iov_at;
  is_text = h.is_text;
  owned = h.owned;
  size_is = h.size_is;
  buffer_is = h.buffer_is;
  text_at = b ∙ h.text_at;
  characters = h.characters;
}
