-- ===== src/Memory/Answers.antt =====
-- What holds of a function's result whenever it returns, wherever it starts.
use erlxsl.Prelude.{◌≡◌, Bool, true, false, if◌then◌else◌, subst}
use erlxsl.Memory.{World, Fault, Outcome, ok, fault, M, pure, throw, after_step, ◌>>=◌}

abbrev pub Result : {A : Type 0} → (A → Type 0) → Outcome (A × World) → Type 0
Result P (ok (a, w)) = P a
Result P (fault e) = Unit

pub record Answers {A : Type 0} (P : A → Type 0) (m : M A) : Type 0 where
  pub at : (w : World) → Result P (m w)

pub Answers-run :
    {A : Type 0} {P : A → Type 0} {m : M A}
    → Answers P m
    → (w w' : World) (a : A) → m w ≡ ok (a, w')
    → P a
Answers-run {P = P} h w w' a e = subst (Result P) e (h.at w)

module _ {A : Type 0} {P : A → Type 0} where
  pub Answers-pure : (a : A) → P a → Answers P (pure a)
  Answers-pure a p = record { at = λ w. p }

  pub Answers-throw : (f : Fault) → Answers P (throw f)
  Answers-throw f = record { at = λ w. tt }

  pub Answers-if :
      (b : Bool) (m n : M A) → Answers P m → Answers P n → Answers P (if b then m else n)
  Answers-if true m n km kn = km
  Answers-if false m n km kn = kn

module _ {A B : Type 0} (P : A → Type 0) (Q : B → Type 0) (m : M A) (f : A → M B) where
  pub Answers-bind : Answers P m → ((a : A) → P a → Answers Q (f a)) → Answers Q (m >>= f)
  Answers-bind km kf = record { at = λ w. after (m w) (km.at w) }
    where
      after : (o : Outcome (A × World)) → Result P o → Result Q (after_step o f)
      after (fault e) h = tt
      after (ok (a, v)) h = (kf a h).at v

module _ {A B : Type 0} (Q : B → Type 0) (m : M A) (f : A → M B) where
  -- With nothing known of the first result.
  pub Answers-after : ((a : A) → Answers Q (f a)) → Answers Q (m >>= f)
  Answers-after kf = Answers-bind (λ a. Unit {0}) Q m f anything (λ a _. kf a)
    where
      anything : Answers (λ a. Unit {0}) m
      anything = record { at = λ w. any (m w) }
        where
          any : (o : Outcome (A × World)) → Result (λ a. Unit {0}) o
          any (fault e) = tt
          any (ok (a, v)) = tt
