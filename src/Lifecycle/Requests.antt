-- ===== src/Lifecycle/Requests.antt =====
-- What the callbacks for a transform request keep, with any provider whose functions keep it.
use erlxsl.Prelude.{
  ◌==◌, ℕ, zero, suc, ◌+◌, ◌^◌, ◌%◌, ◌≡◌, ◌≢◌, refl, sym, subst, List, [], ◌∷◌, Option, none, some,
  All, Bool-cases, inl, inr, eqb_ne, replicate, drop, ◌++◌,
}
use erlxsl.Types.{Ptr, DriverState, success, out_of_memory, DataFormat, text, binary, TermWord}
use erlxsl.Memory.Keeps.{
  Quiet, AsksOnce, AsksOnce-then, keeps_rules, asks_rules, Keeps-emit, Keeps-run,
  Keeps-driver_alloc, Keeps-load, Keeps-store, Keeps-lift, Keeps-pure, Keeps-if, Holds, Grows,
}
use erlxsl.Memory.Answers.{Result, Answers, Answers-after, Answers-pure}
use erlxsl.Memory.Gives.{Gives, Keeps-knowing, Keeps-unless_null}
use erlxsl.Memory.Steps.{driver_alloc-granted, driver_alloc-refused, load-freed, Outcome-cases}
use erlxsl.Memory.WellFormed.{refused}
use erlxsl.Memory.{
  M, ◌>>=◌, ◌>>◌, load_chars, lift, handle_of, input_spec_block, payload_size_block, World, Fault,
  fault, driver_send_term, drv_free, raw_block, chars_block, chars_of, store, pure,
}
use erlxsl.Driver.Allocation.{try_driver_alloc-granted}
use erlxsl.Request.{
  ErlIoVec, copy_text, put_byte, strncpy_bytes, binary_at, read_header, input_source, xsl_source,
}
use erlxsl.Driver.{
  Emulator, Provider, call_engine, free_arguments, try_driver_alloc, start_driver, submit, outputv,
  apply_transform, make_driver_term, make_driver_term_bin, send_term, reply_term, ready_async,
}
use erlxsl.Lifecycle.Structures.{init_command-Keeps, init_task-Keeps, free_async_state-Keeps}
use erlxsl.Lifecycle.Buffers.{strlen-Keeps, log_string-Keeps}

-- A provider whose functions use memory as the driver does.
pub record ProviderKeeps (provider : Provider) : Type 0 where
  pub run : (f : ℕ) (cmd : Ptr) → Quiet (provider.run f cmd)
  pub run_shutdown : (f : ℕ) → Quiet (provider.run_shutdown f)

-- With no NULL among the arguments, the loop that frees them does not return.
free_arguments-Faults :
    (ps : List Ptr) (w : World)
    → All (λ p. p ≢ 0) ps
    → (e : Fault) × (free_arguments ps w ≡ fault e)
unfolding free_arguments
free_arguments-Faults [] w h = (_, refl)
free_arguments-Faults (p ∷ ps) w h = elim (Outcome-cases (drv_free p w)) [
  | inl (e, f) ↦ (e, rw (eqb_ne p 0 h.0, f))
  | inr ((u, v), f) ↦
      let rest = free_arguments-Faults ps v h.1 in (rest.0, rw (eqb_ne p 0 h.0, f) (rest.1))
]

module _ (port : ℕ) (behind : List Ptr) (nonnull : All (λ p. p ≢ 0) behind) where
  try_driver_alloc-Keeps : Quiet (try_driver_alloc port behind)
  unfolding try_driver_alloc
  try_driver_alloc-Keeps = record {
    at = λ w wf. elim (Bool-cases (w.grants w.next)) [
      | inl g ↦
          subst (Holds (Grows 0 w)) (sym (try_driver_alloc-granted port behind w wf g))
            (Keeps-run (Keeps-driver_alloc raw_block) w _ _ wf (driver_alloc-granted raw_block w g))
      | inr g ↦
          let ends = free_arguments-Faults behind (refused w) nonnull in
          rw (driver_alloc-refused raw_block w g, ends.1) tt
    ];
  }

  -- It answers NULL to no caller in this driver.
  try_driver_alloc-nonnull : Gives (λ p. p ≢ 0) (try_driver_alloc port behind)
  unfolding try_driver_alloc
  try_driver_alloc-nonnull = record {
    at = λ w wf. elim (Bool-cases (w.grants w.next)) [
      | inl g ↦
          subst (Result (λ p. p ≢ 0)) (sym (try_driver_alloc-granted port behind w wf g)) wf.started
      | inr g ↦
          let ends = free_arguments-Faults behind (refused w) nonnull in
          rw (driver_alloc-refused raw_block w g, ends.1) tt
    ];
  }

  allocating :
      {A : Type 0} (f : Ptr → M A)
      → ((p : Ptr) → p ≢ 0 → AsksOnce (f p))
      → AsksOnce (try_driver_alloc port behind >>= f)
  allocating f kf = Keeps-knowing _ 1 _ f try_driver_alloc-Keeps try_driver_alloc-nonnull kf

pub start_driver-Keeps : (port : ℕ) → Quiet (start_driver port)
unfolding start_driver
start_driver-Keeps port = search keeps_rules depth 24

copy_text-Keeps : (n : ℕ) (source : List ℕ) → Quiet (copy_text n source)
unfolding copy_text
copy_text-Keeps n source = search keeps_rules depth 24

-- The copying answers the address it was given.
copied-nonnull :
    (n : ℕ) (source : List ℕ) (p : Ptr)
    → p ≢ 0
    → Answers {A = Ptr}
        (λ q. q ≢ 0)
        (do
          bytes ← load_chars p
          ended ← lift (put_byte n 0 bytes)
          copied ← lift (strncpy_bytes n source)
          store p (chars_block (copied ++ drop n ended))
          pure p)
copied-nonnull n source p nz = search (Answers-after, Answers-pure {P = λ q. q ≢ 0} p nz) depth 12

-- A copy that was made is not at NULL, since the copying would have met it.
copy_text-nonnull : (n : ℕ) (source : List ℕ) → Gives (λ p. p ≢ 0) (copy_text n source)
unfolding copy_text
copy_text-nonnull n source = record {
  at = λ w wf. elim (Bool-cases (w.grants w.next)) [
    | inl g ↦
        rw (driver_alloc-granted (chars_block (replicate ((n + 1) % 2 ^ 64) none)) w g)
          ((copied-nonnull n source w.next wf.started).at _)
    | inr g ↦
        rw
          (
            driver_alloc-refused (chars_block (replicate ((n + 1) % 2 ^ 64) none)) w g,
            load-freed chars_of 0 (refused w) wf.null_free,
          )
          tt
  ];
}

submit-Keeps : (port : ℕ) (asd : Ptr) (state : DriverState) → AsksOnce (submit port asd state)
submit-Keeps port asd out_of_memory = search (asks_rules, free_async_state-Keeps) depth 24
submit-Keeps port asd success = search asks_rules depth 24
submit-Keeps port asd _ = search asks_rules depth 24

pub outputv-Keeps :
    (em : Emulator) (drv_data : Ptr) (ev : ErlIoVec) → AsksOnce (outputv em drv_data ev)
unfolding outputv
outputv-Keeps em drv_data ev = AsksOnce-then _ _ (Keeps-load handle_of drv_data) λ d.
    AsksOnce-then _ _ (Keeps-driver_alloc raw_block) λ hspec.
      Keeps-unless_null 1 hspec _ _ (Keeps-emit _) λ spec_at.
        allocating d.port [] tt _ λ hsize size_at. Keeps-if 1 (hsize == 0) _ _ (Keeps-pure 1 tt) (
          AsksOnce-then _ _ (Keeps-lift (binary_at ev 1)) λ first.
            AsksOnce-then _ _ (Keeps-lift (read_header em.endian first)) λ header.
              AsksOnce-then _ _ (Keeps-store hspec (input_spec_block header.0)) λ u.
                AsksOnce-then _ _ (Keeps-store hsize (payload_size_block header.1)) λ v.
                  AsksOnce-then _ _ (Keeps-lift (input_source ev first header.1.input_size))
                    λ source.
                      AsksOnce-then _ _ (copy_text-Keeps header.1.input_size source.1) λ xml.
                        AsksOnce-then _ _ (Keeps-lift (xsl_source ev source.0 header.1.xsl_size))
                          λ xsl_bytes.
                            Keeps-knowing _ 1 _ _ (copy_text-Keeps header.1.xsl_size xsl_bytes)
                              (copy_text-nonnull header.1.xsl_size xsl_bytes)
                              λ xsl xsl_at.
                                allocating d.port (xsl ∷ hsize ∷ hspec ∷ [])
                                  (xsl_at, (size_at, (spec_at, tt))) _
                                  λ job job_at. Keeps-if 1 (job == 0) _ _ (Keeps-pure 1 tt) (
                                    allocating d.port (xsl ∷ hsize ∷ hspec ∷ job ∷ [])
                                      (xsl_at, (size_at, (spec_at, (job_at, tt)))) _
                                      λ ctx ctx_at. Keeps-if 1 (ctx == 0) _ _ (Keeps-pure 1 tt) (
                                        allocating d.port (xsl ∷ hsize ∷ hspec ∷ job ∷ ctx ∷ [])
                                          (xsl_at, (size_at, (spec_at, (job_at, (ctx_at, tt))))) _
                                          λ asd asd_at.
                                            Keeps-if 1 (asd == 0) _ _ (Keeps-pure 1 tt) (
                                              search
                                                (
                                                  asks_rules, init_command-Keeps, init_task-Keeps,
                                                  free_async_state-Keeps, submit-Keeps,
                                                )
                                                depth 40))))

make_driver_term-Keeps :
    (em : Emulator) (port : ℕ) (payload : Ptr) (tag : ℕ)
    → Quiet (make_driver_term em port payload tag)
unfolding make_driver_term
make_driver_term-Keeps em port payload tag = search (keeps_rules, strlen-Keeps) depth 24

make_driver_term_bin-Keeps :
    (em : Emulator) (port : ℕ) (payload : Ptr) (tag : ℕ)
    → Quiet (make_driver_term_bin em port payload tag)
unfolding make_driver_term_bin
make_driver_term_bin-Keeps em port payload tag = search keeps_rules depth 24

reply_term-Keeps :
    (em : Emulator) (port : ℕ) (type : DataFormat) (payload : Ptr) (tag : ℕ)
    → Quiet (reply_term em port type payload tag)
reply_term-Keeps em port text payload tag = make_driver_term-Keeps em port payload tag
reply_term-Keeps em port binary payload tag = make_driver_term_bin-Keeps em port payload tag
reply_term-Keeps em port _ payload tag = make_driver_term-Keeps em port _ tag

send_term-Keeps : (pid : ℕ) (words : List TermWord) → AsksOnce (send_term pid words)
send_term-Keeps pid words = record {
  at = λ w wf. (Keeps-emit (driver_send_term pid words w.cells)).at w wf;
}

module _ (provider : Provider) (keeps : ProviderKeeps provider) where
  pub call_engine-Keeps : (f : Option ℕ) (cmd : Ptr) → Quiet (call_engine provider f cmd)
  call_engine-Keeps none cmd = search keeps_rules
  call_engine-Keeps (some zero) cmd = search keeps_rules
  call_engine-Keeps (some (suc f)) cmd = keeps.run (suc f) cmd

  pub apply_transform-Keeps : (asd : Ptr) → Quiet (apply_transform provider asd)
  unfolding apply_transform
  apply_transform-Keeps asd = search (keeps_rules, call_engine-Keeps, log_string-Keeps) depth 40

  pub ready_async-Keeps :
      (em : Emulator) (fuel : ℕ) (drv_data asd : Ptr)
      → AsksOnce (ready_async em provider fuel drv_data asd)
  unfolding ready_async
  ready_async-Keeps em fuel drv_data asd =
      search
        (asks_rules, call_engine-Keeps, reply_term-Keeps, send_term-Keeps, free_async_state-Keeps)
        depth 60
