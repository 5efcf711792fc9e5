-- ===== src/Cluster/Traces.antt =====
-- What is said of a run: a property of the states it starts in, and of those it ends in.
use bindplane_operator.Prelude.{List}
use bindplane_operator.Crd.{Bindplane}
use bindplane_operator.Cluster.{Call, Reply, returns, fails, panics, Run, resume, ◌>>=◌}

abbrev pub State : Type 1
State = Bindplane → List Call → Type 0

-- After a run that returns, Q holds of the value; after one that fails or panics, F holds.
abbrev pub Ends : {A : Type 0} → (A → State) → State → Reply A × Bindplane × List Call → Type 0
Ends Q F (returns a, b, cs) = Q a b cs
Ends Q F (fails, b, cs) = F b cs
Ends Q F (panics, b, cs) = F b cs

abbrev pub Triple : {A : Type 0} → State → Run A → (A → State) → State → Type 0
Triple P m Q F = (b : Bindplane) → (cs : List Call) → P b cs → Ends Q F (m b cs)

module _ {A B : Type 0} (Q : A → State) (R : B → State) (F : State) where
  resume-Ends :
      (k : A → Run B)
      → ((a : A) → Triple (Q a) (k a) R F)
      → (r : Reply A × Bindplane × List Call) → Ends Q F r
      → Ends R F (resume k r)
  resume-Ends k h (returns a, b, cs) e = h a b cs e
  resume-Ends k h (fails, b, cs) e = e
  resume-Ends k h (panics, b, cs) e = e

  -- One run after the other.
  pub bind :
      (P : State) (m : Run A) (k : A → Run B)
      → Triple P m Q F
      → ((a : A) → Triple (Q a) (k a) R F)
      → Triple P (m >>= k) R F
  bind P m k t h b cs p = resume-Ends k h (m b cs) (t b cs p)
