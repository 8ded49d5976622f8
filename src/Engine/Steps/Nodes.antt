-- ===== src/Engine/Steps/Nodes.antt =====
-- internal/engine/engine.go: what a run's legal steps do to its nodes.
use grael.Prelude.{ℕ, String, ◌≡◌, refl, sym, subst, some}
use grael.Prelude.Map.{lookup}
use grael.Result.{Result, ok, err}
use grael.Runtime.{Event}
use grael.State.{Node, ExecutionState}
use grael.State.Apply.{apply, advance_seq}
use grael.Engine.{Session}
use grael.Engine.Legal.{Legal}
use grael.Engine.Legal.Nodes.{Evolves, Legal-Evolves}
use grael.Engine.Steps.{Steps, Steps-keep}

pub nodes-advance_seq :
    (seq : ℕ) (r : Result (Unit {0})) (s : ExecutionState) → (advance_seq seq r s).nodes ≡ s.nodes
nodes-advance_seq seq (ok _) s = refl
nodes-advance_seq seq (err _) s = refl

-- A legal event moves each node along one edge at most, and adds new nodes only.
pub apply-Evolves :
    (e : Event) (s : ExecutionState) → Legal s e.payload → Evolves s.nodes (apply e s).1.nodes
unfolding apply
apply-Evolves e s legal =
    subst (Evolves s.nodes) (sym (nodes-advance_seq e.seq _ _))
      (Legal-Evolves s e.run_id e.timestamp legal)

-- A node that is there stays there.
pub Steps-stays :
    {s t : Session} (id : String) (n : Node)
    → Steps s t
    → lookup id s.st.nodes ≡ some n
    → (n' : Node) × (lookup id t.st.nodes ≡ some n')
Steps-stays id n steps at =
    Steps-keep (λ st _. (n' : Node) × (lookup id st.nodes ≡ some n'))
      (λ e st _ legal h.
        let (m, now, _) = (apply-Evolves e st legal).all_move id h.0 h.1 in (m, now))
      steps (n, at)
