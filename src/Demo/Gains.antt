-- ===== src/Demo/Gains.antt =====
-- demo/adapter/adapter.go: `addSignal`, and what a part of `analyzeEvents` adds to the signals of the nodes.
use grael.Prelude.{
  ◌≡◌, refl, ◌∙◌, inl, inr, Bool-cases, arith, String, Bool, true, false, not, ◌&&◌, ◌||◌, List, [],
  ◌∷◌, ◌++◌, ◌==◌, if◌then◌else◌,
}
use text.Mathlib.TextEquality.{eq_iff}
use grael.Prelude.Lists.{contains, contains-append, Distinct}
use grael.Prelude.Map.{Map, insert, has, lookup-insert}
use grael.Demo.Analysis.{Analysis, list_at, open_seen, add_signal}

-- `signals` is `seenSignals` as a list, in the order of arrival.
pub record IsTidy (a : Analysis) : Type 0 where
  pub agrees :
      (id signal : String)
      → contains (list_at id a.seen_signals) signal ≡ contains (list_at id a.signals) signal
  pub distinct : (id : String) → Distinct (list_at id a.signals)

-- From one analysis to another that has the given signals more.
pub record Gains (given : String → String → Bool) (a b : Analysis) : Type 0 where
  pub tidy : IsTidy b
  pub gains :
      (id signal : String)
      → contains (list_at id b.signals) signal
        ≡ (contains (list_at id a.signals) signal || not (id == "") && given id signal)

list_at-insert :
    {A : Type 0} (written read : String) (items : List A) (m : Map (List A))
    → list_at read (insert written items m) ≡ (if written == read then items else list_at read m)
unfolding list_at
list_at-insert written read items m = ground (arith, lookup-insert written read items m)

Distinct-snoc :
    (signals : List String) (signal : String)
    → Distinct signals
    → contains signals signal ≡ false
    → Distinct (signals ++ signal ∷ [])
unfolding contains
Distinct-snoc [] signal distinct new = (refl, tt)
Distinct-snoc (first ∷ signals) signal (fresh, distinct) new =
    let rest = Distinct-snoc signals signal distinct (ground (arith, new)) in
    (
      ground (
        arith,
        new,
        fresh,
        contains-append signals (signal ∷ []) first,
        eq_iff first signal,
        eq_iff signal first,
      ),
      rest,
    )

pub Gains-none : (a : Analysis) → IsTidy a → Gains (λ _ _. false) a a
Gains-none a tidy = record { tidy = tidy; gains = λ id signal. ground arith }

pub Gains-trans :
    {f g : String → String → Bool} {a b c : Analysis}
    → Gains f a b
    → Gains g b c
    → Gains (λ id signal. f id signal || g id signal) a c
Gains-trans first second = record {
  tidy = second.tidy;
  gains = λ id signal. ground (arith, first.gains id signal, second.gains id signal);
}

-- The set of seen signals of a node is made before it is read.
list_at-open_seen :
    (node_id id : String) (seen : Map (List String))
    → list_at id (open_seen node_id seen) ≡ list_at id seen
unfolding has list_at open_seen
list_at-open_seen node_id id seen =
    ground (arith, lookup-insert node_id id [] seen, eq_iff node_id id)

Distinct-if :
    (b : Bool) (xs ys : List String) → Distinct xs → Distinct ys → Distinct (if b then xs else ys)
Distinct-if true xs ys first second = first
Distinct-if false xs ys first second = second

pub add_signal-Gains :
    (node_id signal : String) (a : Analysis)
    → (signal == "") ≡ false
    → IsTidy a
    → Gains (λ id given. node_id == id && signal == given) a (add_signal node_id signal a)
unfolding add_signal
add_signal-Gains node_id signal a named tidy =
    let seen = open_seen node_id a.seen_signals in
    let opened = λ (id : String). list_at-open_seen node_id id a.seen_signals in
    elim (Bool-cases (node_id == "")) [
      | inl nobody ↦
          rw (add_signal, nobody)
            (record {
              tidy = tidy;
              gains = λ id given.
                  ground (arith, nobody, eq_iff node_id id, eq_iff node_id "", eq_iff id "");
            })
      | inr somebody ↦ elim (Bool-cases (contains (list_at node_id a.signals) signal)) [
        | inl old ↦
            rw (add_signal, somebody, named, opened node_id, tidy.agrees node_id signal, old)
              (record {
                tidy = record {
                  agrees = λ id given. rw (opened id) (tidy.agrees id given);
                  distinct = tidy.distinct;
                };
                gains = λ id given. ground (arith, old, eq_iff node_id id, eq_iff signal given);
              })
        | inr new ↦
            rw (add_signal, somebody, named, opened node_id, tidy.agrees node_id signal, new)
              (record {
                tidy = record {
                  agrees = λ id given.
                      rw
                        (
                          list_at-insert node_id id (signal ∷ list_at node_id a.seen_signals) seen,
                          list_at-insert node_id id (list_at node_id a.signals ++ signal ∷ [])
                              a.signals,
                          opened id,
                        )
                        (ground (
                          arith,
                          tidy.agrees id given,
                          eq_iff node_id id,
                          contains-append (list_at node_id a.signals) (signal ∷ []) given,
                        ));
                  distinct = λ id.
                      rw
                        (list_at-insert node_id id (list_at node_id a.signals ++ signal ∷ [])
                          a.signals)
                        (Distinct-if (node_id == id) _ _
                          (Distinct-snoc (list_at node_id a.signals) signal (tidy.distinct node_id)
                            new)
                          (tidy.distinct id));
                };
                gains = λ id given.
                    rw
                      (list_at-insert node_id id (list_at node_id a.signals ++ signal ∷ [])
                        a.signals)
                      (ground (
                        arith,
                        somebody,
                        eq_iff node_id id,
                        contains-append (list_at node_id a.signals) (signal ∷ []) given,
                      ));
              })
      ]
    ]

-- What leaves both maps as they are.
abbrev pub SameSignals : Analysis → Analysis → Type 0
SameSignals a b = (b.seen_signals ≡ a.seen_signals) × (b.signals ≡ a.signals)

pub SameSignals-IsTidy : (a b : Analysis) → SameSignals a b → IsTidy a → IsTidy b
SameSignals-IsTidy a b (seen, signals) tidy = record {
  agrees = λ id given. rw (seen, signals) (tidy.agrees id given);
  distinct = λ id. rw signals (tidy.distinct id);
}

pub Gains-same :
    {given : String → String → Bool} {a b : Analysis} (c : Analysis)
    → Gains given a b
    → SameSignals b c
    → Gains given a c
Gains-same {b = b} c gain same = record {
  tidy = SameSignals-IsTidy b c same gain.tidy;
  gains = λ id signal. rw (same.1) (gain.gains id signal);
}

-- The same signals, described in another way.
pub Gains-as :
    {f g : String → String → Bool} {a b : Analysis}
    → ((id signal : String) → f id signal ≡ g id signal)
    → Gains f a b
    → Gains g a b
Gains-as same gain = record {
  tidy = gain.tidy;
  gains = λ id signal. gain.gains id signal ∙ rw (same id signal) refl;
}
