-- ===== src/Control/Progress.antt =====
-- The main task of app/src/plc_task.c answers a stop, and its tick stays in range.
use beremiz4u_c.Common.{
  ℕ, suc, ◌^◌, ◌≤◌, ◌<◌, ◌≡◌, refl, some, arith, Option-cases, inl, inr, ◌==◌, if◌then◌else◌, ◌∙◌,
}
use beremiz4u_c.Control.{
  Semaphore, Program, System, MainAt, waiting, cycling, sleeping, stopping, main_cycle, main_test,
  next_tick,
}
use beremiz4u_c.Control.Steps.{MainStep, cycle, test, Reach}
use beremiz4u_c.Control.Quiet.{Inv, Reach-Inv}

-- The tick of a round is below the limit that the program sets, and a 32-bit number where it sets
-- none.
pub next_tick-lt :
    (tick greatest : ℕ) → next_tick tick greatest < (if greatest == 0 then 2 ^ 32 else greatest)
unfolding next_tick
next_tick-lt tick greatest = grind arith

module _ {S : Type 0} (k : Semaphore S) where
  -- A semaphore that is given can be taken.
  pub take_given : (s : S) → k.count s ≡ 1 → (t : S) × (k.take s ≡ some t)
  take_given s given = elim (Option-cases (k.take s)) [
    | inl e ↦ absurd (omega (arith, k.take_none s e))
    | inr found ↦ found
  ]

module _ {S P : Type 0} (k : Semaphore S) (p : Program P) where
  -- A number of steps of the main task.
  pub data MainRun (s : System S P) : ℕ → System S P → Type 0 where
    none_yet : MainRun s 0 s
    one_more : {n : ℕ} {t u : System S P} → MainRun s n t → MainStep k p t u → MainRun s (suc n) u

  -- A state some steps of the main task on, in which the waiting stop gets its semaphore.
  pub record Answer (s : System S P) (n : ℕ) : Type 0 where
    pub state : System S P
    pub taken : S
    pub run : MainRun s n state
    pub still_waits : state.caller ≡ stopping
    pub given : k.take state.sem ≡ some taken

  answered_now :
      {s t : System S P} {n : ℕ}
      → MainRun s n t
      → t.caller ≡ stopping
      → k.count t.sem ≡ 1
      → Answer s n
  answered_now {t} run waits one =
      let (taken, given) = take_given k t.sem one in
      record { state = t; taken = taken; run = run; still_waits = waits; given = given }

  -- Behind a sleep the loop of a stopped PLC ends.
  test_gives :
      (s : System S P)
      → s.plc_run ≡ 0
      → ((main_test k p s).caller ≡ s.caller) × (k.count (main_test k p s).sem ≡ 1)
  unfolding main_test
  test_gives s off = ground (arith, k.count-give s.sem)

  cycle_sleeps :
      (c : S) (s : System S P)
      → ((main_cycle k p c s).caller ≡ s.caller)
        × ((main_cycle k p c s).main ≡ sleeping)
        × ((main_cycle k p c s).plc_run ≡ s.plc_run)
  unfolding main_cycle
  cycle_sleeps c s = (refl, refl, refl)

  answered_from :
      (m : MainAt) (s : System S P)
      → s.main ≡ m
      → s.caller ≡ stopping
      → Inv k p s
      → (n : ℕ) × (n ≤ 2) × Answer s n
  answered_from waiting s at waits v =
      (0, omega arith, answered_now none_yet waits (ground (arith, k.count-le s.sem)))
  answered_from sleeping s at waits v =
      let (same, one) = test_gives s (v.stopping_flag waits) in
      (1, omega arith, answered_now (one_more none_yet (test at)) (same ∙ waits) one)
  answered_from cycling s at waits v =
      let (c, taken) = take_given k s.cycle_start (ground arith) in
      let (same, sleeps, flag) = cycle_sleeps c s in
      let (same', one) = test_gives (main_cycle k p c s) (flag ∙ v.stopping_flag waits) in
      (
        2,
        omega arith,
        answered_now (one_more (one_more none_yet (cycle at taken)) (test sleeps))
            (same' ∙ same ∙ waits) one,
      )

  -- While a stop waits in a reachable state, other stops that timed out and the clearing by `NewPLC`
  -- included, at most two steps of the main task give the semaphore
  -- for which it waits.
  pub stop_completes :
      {s : System S P} → Reach k p s → s.caller ≡ stopping → (n : ℕ) × (n ≤ 2) × Answer s n
  stop_completes {s} r waits = answered_from s.main s refl waits (Reach-Inv k p r)
