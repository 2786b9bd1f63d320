-- ===== src/Debug/Checks.antt =====
-- Samples published and traces ordered at concrete states.
use beremiz4u_c.Common.{ℕ, ◌≡◌, refl, List, [], ◌∷◌, none, some, arith}
use beremiz4u_c.Debug.{Debug, TraceOrder, ok, publish_debug}
use beremiz4u_c.Debug.Publish.{publish_debug-appends}
use beremiz4u_c.Debug.Example.{Ring, ring, pair, tracing}

abbrev values : List (List ℕ)
values = (7 ∷ 8 ∷ []) ∷ (9 ∷ []) ∷ []

publish_debug-appends_example :
    ((publish_debug (ring 16) pair 3 tracing).1 ≡ ok)
    × ((publish_debug (ring 16) pair 3 tracing).0.trace_samples.0 ≡ 3 ∷ 0 ∷ 0 ∷ 0 ∷ 7 ∷ 8 ∷ 9 ∷ [])
unfolding ring
publish_debug-appends_example =
    publish_debug-appends (ring 16) pair 3 tracing values (omega arith) refl (refl, (refl, tt)) refl

-- The second variable traced has no value any more.
abbrev stale : Debug Ring
stale = record tracing { traced_vars_idxs = 0 ∷ 2 ∷ [] }

abbrev orders : List TraceOrder
orders = record { idx = 1; force = none } ∷ record { idx = 0; force = some (1 ∷ 2 ∷ []) } ∷ []
