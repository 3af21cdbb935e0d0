-- ===== src/Internal/Owned.antt =====
-- Which blocks the structures at an address are made of. Each predicate names the address, the
-- blocks in the order in which the code frees them, and what stands in memory there.
use erlxsl.Prelude.{
  zero, suc, ◌≡◌, ◌≢◌, refl, ◌∙◌, List, [], ◌∷◌, ◌++◌, some, if◌then◌else◌, All, All-append_left,
  All-append_right, Bool, true, false, subst,
}
use erlxsl.Types.{Ptr, DriverIoVec, InputDocument, ParameterListNode, Command}
use erlxsl.Memory.{Cells, iov_block, document_block, parameter_block, task_block, command_block}
use erlxsl.Internal.{is_transform}

-- A block that a pointer owns, unless it is NULL.
abbrev pub nonnull : Ptr → List Ptr
nonnull zero = []
nonnull (suc p) = suc p ∷ []

pub nonnull_ne : (p : Ptr) → p ≢ 0 → nonnull p ≡ p ∷ []
nonnull_ne zero nz = absurd (nz refl)
nonnull_ne (suc p) nz = refl

abbrev pub payload_blocks : Bool → Ptr → List Ptr
payload_blocks dirty payload = if dirty then nonnull payload else []

-- A vector owns its payload when its dirty bit is set.
abbrev pub iov_blocks : Ptr → DriverIoVec → List Ptr
iov_blocks p v = payload_blocks v.dirty v.payload ++ p ∷ []

pub data IovAt (f : Cells) (p : Ptr) (ps : List Ptr) : Type 0 where
  null_iov : p ≡ 0 → ps ≡ [] → IovAt f p ps
  an_iov : (v : DriverIoVec) → p ≢ 0 → f p ≡ some (iov_block v) → ps ≡ iov_blocks p v → IovAt f p ps

pub data DocumentAt (f : Cells) (p : Ptr) (ps : List Ptr) : Type 0 where
  null_document : p ≡ 0 → ps ≡ [] → DocumentAt f p ps
  a_document :
      (d : InputDocument) (qs : List Ptr)
      → p ≢ 0
      → f p ≡ some (document_block d)
      → IovAt f d.iov qs
      → ps ≡ qs ++ p ∷ []
      → DocumentAt f p ps

pub data ParametersAt (f : Cells) : Ptr → List Ptr → Type 0 where
  no_parameter : (p : Ptr) (ps : List Ptr) → p ≡ 0 → ps ≡ [] → ParametersAt f p ps
  a_parameter :
      (p : Ptr) (ps : List Ptr) (n : ParameterListNode) (qs : List Ptr)
      → p ≢ 0
      → f p ≡ some (parameter_block n)
      → ParametersAt f n.next qs
      → ps ≡ nonnull n.key ++ (nonnull n.value ++ p ∷ qs)
      → ParametersAt f p ps

-- A task's own block is not among the blocks that it owns.
pub data TaskAt (f : Cells) (p : Ptr) (ps : List Ptr) : Type 0 where
  a_task :
      (parameters input_doc xslt_doc : Ptr) (qs rs ss : List Ptr)
      → p ≢ 0
      → f p
        ≡ some (
            task_block (record {
              input_doc = some input_doc;
              xslt_doc = some xslt_doc;
              parameters = some parameters;
            }))
      → ParametersAt f parameters qs
      → DocumentAt f input_doc rs
      → DocumentAt f xslt_doc ss
      → ps ≡ qs ++ (rs ++ ss)
      → TaskAt f p ps

-- A command owns its task's documents and parameters, or its vector, and its result.
pub data CommandAt (f : Cells) (p : Ptr) (ps : List Ptr) : Type 0 where
  a_transform :
      (c : Command) (qs rs : List Ptr)
      → p ≢ 0
      → f p ≡ some (command_block c)
      → is_transform c.command_string ≡ true
      → TaskAt f c.command_data qs
      → All (λ q. q ≢ c.command_data) (qs ++ (rs ++ p ∷ []))
      → IovAt f c.result rs
      → ps ≡ qs ++ (rs ++ p ∷ [])
      → CommandAt f p ps
  another_command :
      (c : Command) (qs rs : List Ptr)
      → p ≢ 0
      → f p ≡ some (command_block c)
      → is_transform c.command_string ≡ false
      → IovAt f c.command_data qs
      → IovAt f c.result rs
      → ps ≡ qs ++ (rs ++ p ∷ [])
      → CommandAt f p ps

-- The predicates speak of the owned blocks alone: where these are the same, so is the structure.
abbrev pub SameAt : Cells → Cells → List Ptr → Type 0
SameAt f g ps = All (λ q. g q ≡ f q) ps

pub SameAt-last : (f g : Cells) (qs : List Ptr) (p : Ptr) → SameAt f g (qs ++ p ∷ []) → g p ≡ f p
SameAt-last f g qs p s = (All-append_right _ qs (p ∷ []) s).0

pub IovAt-same :
    (f g : Cells) (p : Ptr) (ps : List Ptr) → SameAt f g ps → IovAt f p ps → IovAt g p ps
IovAt-same f g p ps s (null_iov z e) = null_iov z e
IovAt-same f g p ps s (an_iov v nz at e) =
    an_iov v nz (SameAt-last f g _ p (subst (SameAt f g) e s) ∙ at) e

pub DocumentAt-same :
    (f g : Cells) (p : Ptr) (ps : List Ptr) → SameAt f g ps → DocumentAt f p ps → DocumentAt g p ps
DocumentAt-same f g p ps s (null_document z e) = null_document z e
DocumentAt-same f g p ps s (a_document d qs nz at iov e) =
    let s' : SameAt f g (qs ++ p ∷ []) = subst (SameAt f g) e s in
    a_document d qs nz (SameAt-last f g qs p s' ∙ at)
      (IovAt-same f g d.iov qs (All-append_left _ qs _ s') iov) e

pub ParametersAt-same :
    (f g : Cells) {p : Ptr} {ps : List Ptr}
    → SameAt f g ps
    → ParametersAt f p ps
    → ParametersAt g p ps
ParametersAt-same f g s (no_parameter p ps z e) = no_parameter p ps z e
ParametersAt-same f g s (a_parameter p ps n qs nz at rest e) =
    let s₁ : SameAt f g (nonnull n.key ++ (nonnull n.value ++ p ∷ qs)) = subst (SameAt f g) e s in
    let s₂ = All-append_right _ (nonnull n.key) _ s₁ in
    let s₃ = All-append_right _ (nonnull n.value) (p ∷ qs) s₂ in
    a_parameter p ps n qs nz (s₃.0 ∙ at) (ParametersAt-same f g s₃.1 rest) e
