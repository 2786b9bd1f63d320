-- ===== src/Debug/Orders.antt =====
-- app/src/plc_debug.c, `SetTraceVariablesList`: the variables that it notes and the token it returns.
use beremiz4u_c.Common.{
  ℕ, zero, suc, ◌+◌, ◌%◌, ◌^◌, ◌≤◌, ◌<◌, ◌≡◌, ◌∙◌, refl, ap, true, false, List, [], ◌∷◌, ◌++◌,
  Option, none, some, arith, length, length-set, take, set, append-nil, append_assoc, if◌then◌else◌,
  ◌==◌, ◌⊎◌,
}
use native.Mathlib.Nat.{add-zero}
use native.Mathlib.Numerals.{add-one}
use beremiz4u_c.Debug.{
  RingBuffer, Module, Debug, TraceOrder, ok, size_of_variable, note_variable, trace_orders,
  restart_trace, set_trace_variables_list, too_many_traced, debug_suspended,
}
use beremiz4u_c.Debug.Publish.{traced}

abbrev pub sum : List ℕ → ℕ
sum [] = 0
sum (n ∷ ns) = n + sum ns

abbrev pub indices : List TraceOrder → List ℕ
indices [] = []
indices (o ∷ os) = o.idx ∷ indices os

pub length-indices : (os : List TraceOrder) → length (indices os) ≡ length os
length-indices [] = refl
length-indices (o ∷ os) = ap suc (length-indices os)

take-set {ℓ} :
    {A : Type ℓ} (xs : List A) (i : ℕ) (v : A)
    → i < length xs
    → take (suc i) (set xs i v) ≡ take i xs ++ v ∷ []
take-set [] i v h = elim h [ ]
take-set (x ∷ xs) zero v h = refl
take-set (x ∷ xs) (suc i) v h = ap (◌∷◌ x) (take-set xs i v (omega arith))

module _ {B P : Type 0} (r : RingBuffer B) (m : Module P) where
  -- The sizes that the program answers for the orders, one after the other.
  abbrev pub Found : P → List TraceOrder → List ℕ → Type 0
  Found p [] [] = Unit {0}
  Found p [] (n ∷ ns) = ⊥
  Found p (o ∷ os) [] = ⊥
  Found p (o ∷ os) (n ∷ ns) =
      (size_of_variable (m.get_debug_variable p o.idx) ≡ some n)
      × Found (m.set_trace o.idx o.force p) os ns

  -- The program after all orders.
  abbrev pub ordered : P → List TraceOrder → P
  ordered p [] = p
  ordered p (o ∷ os) = ordered (m.set_trace o.idx o.force p) os

  -- What the loop leaves, from the order i on.
  pub record Noted (i : ℕ) (os : List TraceOrder) (ns : List ℕ) (p : P) (d : Debug B) : Type 0 where
    pub state : Debug B
    pub result : trace_orders r m i os d p ≡ (state, ordered p os, ok)
    pub total : state.traced_vars_total_size ≡ d.traced_vars_total_size + sum ns
    pub count :
        state.traced_vars_count ≡ (if length os == 0 then d.traced_vars_count else i + length os)
    pub idxs : take (i + length os) state.traced_vars_idxs ≡ take i d.traced_vars_idxs ++ indices os
    pub same_token : state.debugtoken ≡ d.debugtoken
    pub same_samples : state.trace_samples ≡ d.trace_samples
    pub same_thread : state.debug_thread_state ≡ d.debug_thread_state

  grow :
      (i : ℕ) (o : TraceOrder) (os : List TraceOrder) (d last : Debug B)
      → take (i + 1 + length os) last.traced_vars_idxs
        ≡ take (i + 1) (set d.traced_vars_idxs i o.idx) ++ indices os
      → i < length d.traced_vars_idxs
      → take (i + length (o ∷ os)) last.traced_vars_idxs
        ≡ take i d.traced_vars_idxs ++ indices (o ∷ os)
  grow i o os d last h room =
      ap (λ n. take n last.traced_vars_idxs) (omega arith)
      ∙ h
      ∙ ap (λ n. take n (set d.traced_vars_idxs i o.idx) ++ indices os) (add-one i)
      ∙ ap (λ l. l ++ indices os) (take-set d.traced_vars_idxs i o.idx room)
      ∙ append_assoc (take i d.traced_vars_idxs) (o.idx ∷ []) (indices os)

  trace_orders-Noted :
      (os : List TraceOrder) (i : ℕ) (ns : List ℕ) (p : P) (d : Debug B)
      → Found p os ns
      → i + length os ≤ length d.traced_vars_idxs
      → Noted i os ns p d
  unfolding trace_orders
  trace_orders-Noted [] i [] p d h room = record {
    state = d;
    result = refl;
    total = omega arith;
    count = refl;
    idxs = rw (add-zero, append-nil);
    same_token = refl;
    same_samples = refl;
    same_thread = refl;
  }
  trace_orders-Noted [] i (n ∷ ns) p d h room = absurd h
  trace_orders-Noted (o ∷ os) i [] p d h room = absurd h
  trace_orders-Noted (o ∷ os) i (n ∷ ns) p d h room =
      let rest =
        trace_orders-Noted os (i + 1) ns (m.set_trace o.idx o.force p) (note_variable r m i o n d)
          h.1 (omega (arith, length-set d.traced_vars_idxs i o.idx)) in
      record {
        state = rest.state;
        result = rw (h.0, trace_orders) rest.result;
        total = omega (arith, rest.total);
        count = ground (arith, rest.count);
        idxs = grow i o os d rest.state rest.idxs (omega arith);
        same_token = rest.same_token;
        same_samples = rest.same_samples;
        same_thread = rest.same_thread;
      }

  all_traced :
      (os : List TraceOrder) (last d : Debug B)
      → 1 ≤ length os
      → last.traced_vars_count ≡ (if length os == 0 then d.traced_vars_count else 0 + length os)
      → take (0 + length os) last.traced_vars_idxs ≡ take 0 d.traced_vars_idxs ++ indices os
      → traced last ≡ indices os
  all_traced os last d least count idxs =
      ap (λ n. take n last.traced_vars_idxs) (ground arith) ∙ idxs

  restart_trace_lem :
      (d : Debug B)
      → ((restart_trace r m d).traced_vars_total_size ≡ 0)
        × ((restart_trace r m d).debugtoken ≡ (d.debugtoken + 1) % 2 ^ 32)
        × (r.contents (restart_trace r m d).trace_samples ≡ [])
        × ((restart_trace r m d).debug_thread_state ≡ false)
        × ((restart_trace r m d).traced_vars_idxs ≡ d.traced_vars_idxs)
  unfolding restart_trace
  restart_trace_lem d = ground (arith, r.contents-reset d.trace_samples)

  -- With no orders, or with none in the list, the call answers `DEBUG_SUSPENDED`, and with more than
  -- 64 `TOO_MANY_TRACED`. The buffer is empty then, the debug thread is not running, the token has
  -- changed, and the program is as it was.
  pub set_trace_variables_list-refused :
      (plc_run : ℕ) (elements : Option (List TraceOrder)) (d : Debug B) (p : P) (answer : ℕ)
      → ((elements ≡ none) × (answer ≡ debug_suspended))
        ⊎ ((elements ≡ some []) × (answer ≡ debug_suspended))
        ⊎ ((os : List TraceOrder) × (elements ≡ some os)
            × (64 < length os)
            × (answer ≡ too_many_traced))
      → ((set_trace_variables_list r m plc_run elements d p).2 ≡ answer)
        × ((set_trace_variables_list r m plc_run elements d p).1 ≡ p)
        × (r.contents (set_trace_variables_list r m plc_run elements d p).0.trace_samples ≡ [])
        × ((set_trace_variables_list r m plc_run elements d p).0.debug_thread_state ≡ false)
        × ((set_trace_variables_list r m plc_run elements d p).0.debugtoken
            ≡ (d.debugtoken + 1) % 2 ^ 32)
  unfolding set_trace_variables_list
  set_trace_variables_list-refused plc_run none d p answer h = ground (arith, restart_trace_lem d)
  set_trace_variables_list-refused plc_run (some os) d p answer h =
      ground (arith, restart_trace_lem d)

  -- With at least one order and at most 64, room for 64 indices, and a size for each variable, the
  -- call answers the new token; the traced indices are those of the orders, the total size is the
  -- sum of the sizes, the buffer is empty, the program has been given every order behind a reset of
  -- its trace, and the debug thread runs just when the PLC is to run.
  pub set_trace_variables_list-traces :
      (plc_run : ℕ) (os : List TraceOrder) (ns : List ℕ) (d : Debug B) (p : P)
      → 1 ≤ length os
      → length os ≤ 64
      → length d.traced_vars_idxs ≡ 64
      → Found (m.trace_reset p) os ns
      → ((set_trace_variables_list r m plc_run (some os) d p).2 ≡ (d.debugtoken + 1) % 2 ^ 32)
        × ((set_trace_variables_list r m plc_run (some os) d p).0.debugtoken
            ≡ (d.debugtoken + 1) % 2 ^ 32)
        × ((set_trace_variables_list r m plc_run (some os) d p).1 ≡ ordered (m.trace_reset p) os)
        × (traced (set_trace_variables_list r m plc_run (some os) d p).0 ≡ indices os)
        × ((set_trace_variables_list r m plc_run (some os) d p).0.traced_vars_total_size ≡ sum ns)
        × (r.contents (set_trace_variables_list r m plc_run (some os) d p).0.trace_samples ≡ [])
        × ((set_trace_variables_list r m plc_run (some os) d p).0.debug_thread_state
            ≡ (if plc_run == 0 then false else true))
  unfolding set_trace_variables_list
  set_trace_variables_list-traces plc_run os ns d p least most size h =
      let fresh = restart_trace_lem d in
      let noted =
        trace_orders-Noted os 0 ns (m.trace_reset p) (restart_trace r m d) h
          (omega (arith, ap length fresh.4)) in
      let all = all_traced os noted.state (restart_trace r m d) least noted.count noted.idxs in
      ground (
        arith, fresh, noted.result, noted.total, noted.same_token, noted.same_samples,
        noted.same_thread, all,
      )
