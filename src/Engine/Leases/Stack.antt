-- ===== src/Engine/Leases/Stack.antt =====
-- internal/state/state.go and internal/engine/engine.go: the entry that is compensated next.
use mathlib.Core.List.{reverse, reverse-cons}
use grael.Prelude.{
  ◌≡◌, refl, sym, ap, ◌∙◌, true, ◌||◌, some, List, [], ◌∷◌, ◌++◌, String, eq_iff, arith,
}
use grael.State.{ExecutionState, CompensationEntry, on_stack}
use grael.Engine.Queries.{first_open, next_compensation_entry}

on_stack-append :
    (id : String) (cs ds : List CompensationEntry)
    → on_stack id (cs ++ ds) ≡ (on_stack id cs || on_stack id ds)
unfolding on_stack
on_stack-append id [] ds = refl
on_stack-append id (c ∷ cs) ds = ground (arith, on_stack-append id cs ds)

on_stack-reverse :
    (id : String) (cs : List CompensationEntry) → on_stack id (reverse cs) ≡ on_stack id cs
unfolding on_stack
on_stack-reverse id [] = refl
on_stack-reverse id (c ∷ cs) =
    ap (on_stack id) (reverse-cons c cs)
    ∙ ground (arith, on_stack-append id (reverse cs) (c ∷ []), on_stack-reverse id cs)

on_stack-first_open :
    (cs : List CompensationEntry) (c : CompensationEntry)
    → first_open cs ≡ some c
    → on_stack c.node_id cs ≡ true
unfolding on_stack first_open
on_stack-first_open [] c h = absurd (ground arith)
on_stack-first_open (d ∷ cs) c h =
    ground (arith, on_stack-first_open cs c, eq_iff d.node_id c.node_id)

pub on_stack-next :
    (s : ExecutionState) (c : CompensationEntry)
    → next_compensation_entry s ≡ some c
    → on_stack c.node_id s.compensation_stack ≡ true
unfolding next_compensation_entry
on_stack-next s c h =
    let open_c : first_open (reverse s.compensation_stack) ≡ some c = ground arith in
    sym (on_stack-reverse c.node_id s.compensation_stack)
    ∙ on_stack-first_open (reverse s.compensation_stack) c open_c
