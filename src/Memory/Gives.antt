-- ===== src/Memory/Gives.antt =====
-- What holds of a function's result whenever it returns from a well-formed world, for what follows to
-- rely on: the addresses that an allocation answers are not NULL where the code has tested them.
use erlxsl.Prelude.{ℕ, ◌+◌, ◌≡◌, ◌≢◌, if◌then◌else◌, ◌==◌, Bool-cases, subst, inl, inr, arith}
use erlxsl.Types.{Ptr}
use erlxsl.Memory.{World, Outcome, ok, fault, M, after_step, ◌>>=◌}
use erlxsl.Memory.WellFormed.{WellFormed}
use erlxsl.Memory.Answers.{Result}
use erlxsl.Memory.Keeps.{Keeps, Grows, Grows-trans, Holds, Quiet}

pub record Gives {A : Type 0} (P : A → Type 0) (m : M A) : Type 0 where
  pub at : (w : World) → WellFormed w → Result P (m w)

zero_add : (k : ℕ) → 0 + k ≡ k
zero_add k = omega arith

-- What follows may rely on what is known of the result.
module _ {A B : Type 0} (P : A → Type 0) (k : ℕ) (m : M A) (f : A → M B) where
  Holds-knowing :
      (u : World) (o : Outcome (A × World))
      → Holds (Grows 0 u) o
      → Result P o
      → ((a : A) → P a → Keeps k (f a))
      → Holds (Grows k u) (after_step o f)
  Holds-knowing u (fault e) h r kf = tt
  Holds-knowing u (ok (a, v)) g r kf = widen (f a v) ((kf a r).at v g.wf)
    where
      widen : (o : Outcome (B × World)) → Holds (Grows k v) o → Holds (Grows k u) o
      widen (fault e) h = tt
      widen (ok (b, x)) h = subst (λ j. Grows j u x) (zero_add k) (Grows-trans u v x g h)

  pub Keeps-knowing : Quiet m → Gives P m → ((a : A) → P a → Keeps k (f a)) → Keeps k (m >>= f)
  Keeps-knowing km gm kf = record {
    at = λ w wf. Holds-knowing w (m w) (km.at w wf) (gm.at w wf) kf;
  }

-- After a test for NULL.
pub Keeps-unless_null :
    {A : Type 0} (k : ℕ) (p : Ptr) (m n : M A)
    → Keeps k m
    → (p ≢ 0 → Keeps k n)
    → Keeps k (if p == 0 then m else n)
Keeps-unless_null k p m n km kn = elim (Bool-cases (p == 0)) [
  | inl z ↦ rw z km
  | inr nz ↦ rw nz (kn (ground arith))
]
