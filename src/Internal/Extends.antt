-- ===== src/Internal/Extends.antt =====
-- A structure is still there in a memory that holds at least the same blocks.
use erlxsl.Prelude.{◌≡◌, some, List, [], ◌∷◌, All}
use erlxsl.Types.{Ptr}
use erlxsl.Memory.{Cells, Block}
use erlxsl.Memory.Blocks.{IsLive}
use erlxsl.Internal.Owned.{
  IovAt, null_iov, an_iov, DocumentAt, null_document, a_document, ParametersAt, no_parameter,
  a_parameter, TaskAt, a_task, CommandAt, a_transform, another_command,
}

-- `g` holds each block of `f`.
abbrev pub Extends : Cells → Cells → Type 0
Extends f g = (q : Ptr) (b : Block) → f q ≡ some b → g q ≡ some b

module _ (f g : Cells) (more : Extends f g) where
  IovAt-Extends : (p : Ptr) (ps : List Ptr) → IovAt f p ps → IovAt g p ps
  IovAt-Extends p ps (null_iov z e) = null_iov z e
  IovAt-Extends p ps (an_iov v nz at e) = an_iov v nz (more p _ at) e

  DocumentAt-Extends : (p : Ptr) (ps : List Ptr) → DocumentAt f p ps → DocumentAt g p ps
  DocumentAt-Extends p ps (null_document z e) = null_document z e
  DocumentAt-Extends p ps (a_document d qs nz at iov e) =
      a_document d qs nz (more p _ at) (IovAt-Extends d.iov qs iov) e

  ParametersAt-Extends : {p : Ptr} {ps : List Ptr} → ParametersAt f p ps → ParametersAt g p ps
  ParametersAt-Extends (no_parameter p ps z e) = no_parameter p ps z e
  ParametersAt-Extends (a_parameter p ps n qs nz at rest e) =
      a_parameter p ps n qs nz (more p _ at) (ParametersAt-Extends rest) e

  TaskAt-Extends : (p : Ptr) (ps : List Ptr) → TaskAt f p ps → TaskAt g p ps
  TaskAt-Extends p ps (a_task parameters input_doc xslt_doc qs rs ss nz at list input xslt e) =
      a_task parameters input_doc xslt_doc qs rs ss nz (more p _ at) (ParametersAt-Extends list)
        (DocumentAt-Extends input_doc rs input) (DocumentAt-Extends xslt_doc ss xslt) e

  pub CommandAt-Extends : (p : Ptr) (ps : List Ptr) → CommandAt f p ps → CommandAt g p ps
  CommandAt-Extends p ps (a_transform c qs rs nz at tr task own res e) =
      a_transform c qs rs nz (more p _ at) tr (TaskAt-Extends c.command_data qs task) own
        (IovAt-Extends c.result rs res) e
  CommandAt-Extends p ps (another_command c qs rs nz at other vec res e) =
      another_command c qs rs nz (more p _ at) other (IovAt-Extends c.command_data qs vec)
        (IovAt-Extends c.result rs res) e

  pub IsLive-Extends : (ps : List Ptr) → All (IsLive f) ps → All (IsLive g) ps
  IsLive-Extends [] h = tt
  IsLive-Extends (p ∷ ps) ((b, nz, at), hs) = ((b, nz, more p b at), IsLive-Extends ps hs)
