-- ===== src/Network/Answers.antt =====
-- app/src/plc_network.c, `initialize_network`: what its answer tells.
use beremiz4u_c.Common.{
  ℕ, zero, suc, ◌≤◌, ◌≡◌, ◌⊎◌, sym, subst, ap, ◌∙◌, Bool, true, false, inl, inr, arith, Bool-cases,
  ℤ, pos, negsuc, minus, etimedout,
}
use beremiz4u_c.Network.{Flags, Net, Config, services_are_ready, check_interface, take_waiter}
use beremiz4u_c.Network.Start.{
  Waits, now, later, initial_count, is_positive, wait_services, services_from, interface_phase,
  setup, is_minus_one, services_phase, finish_start, initialize_network,
}
use beremiz4u_c.Network.Waits.{
  services_phase-same, finish_start-waits, interface_phase-waits, check_interface-waits,
}

module _ {A : Type 0} (c : Config A) where
  wait_services-served :
      (flags : Flags) (n : ℕ) (ws : Waits) (s : Net A)
      → (services_are_ready flags (wait_services c flags n ws s).0 ≡ true)
        ⊎ ((wait_services c flags n ws s).1 ≡ minus 1)
  unfolding wait_services
  wait_services-served flags zero ws s = elim (Bool-cases (services_are_ready flags s)) [
    | inl ready ↦ inl ready
    | inr missing ↦ inr (rw (missing))
  ]
  wait_services-served flags (suc n) ws s = elim (Bool-cases (services_are_ready flags s)) [
    | inl ready ↦ inl (rw (ready) ready)
    | inr missing ↦
        rw (missing) (wait_services-served flags n (later ws) (take_waiter c (now ws) s).0)
  ]

  services_phase-served :
      (flags : Flags) (timeout : ℤ) (r : Net A × ℤ)
      → is_positive timeout ≡ true
      → (services_are_ready flags r.0 ≡ true) ⊎ (r.1 ≡ minus 1)
      → (services_phase c timeout r).1 ≡ pos 0
      → services_are_ready flags (services_phase c timeout r).0 ≡ true
  unfolding services_phase
  services_phase-served flags timeout (s, count) positive (inl ready) answer =
      ap (services_are_ready flags) (services_phase-same c timeout s count) ∙ ready
  services_phase-served flags timeout (s, count) positive (inr out) answer =
      let late : (services_phase c timeout (s, count)).1 ≡ minus etimedout =
        ground (arith, positive, ap is_minus_one out) in
      absurd (ground (arith, late, answer))

  finish_start-served :
      (flags : Flags) (timeout count : ℤ) (ws : Waits) (s : Net A)
      → is_positive timeout ≡ true
      → (finish_start c flags timeout (s, count, ws)).1 ≡ pos 0
      → services_are_ready flags (finish_start c flags timeout (s, count, ws)).0 ≡ true
  unfolding finish_start services_from
  finish_start-served flags timeout (negsuc n) ws s positive answer =
      absurd (ground (arith, positive, answer))
  finish_start-served flags timeout (pos n) ws s positive answer =
      let served = wait_services-served flags n ws (setup c s) in
      let same : finish_start c flags timeout (s, pos n, ws)
          ≡ services_phase c timeout (wait_services c flags n ws (setup c s)) =
        ground arith in
      subst (λ r. services_are_ready flags r.0 ≡ true) (sym same)
        (services_phase-served flags timeout (wait_services c flags n ws (setup c s)) positive
          served (sym (ap (λ r. r.1) same) ∙ answer))

  -- With a positive timeout, an answer 0 tells that all services of the flags are ready.
  pub initialize_network-served :
      (has_iface no_auto_start : Bool) (flags : Flags) (timeout : ℤ) (ws : Waits) (s : Net A)
      → is_positive timeout ≡ true
      → (initialize_network c has_iface no_auto_start flags timeout ws s).1 ≡ pos 0
      → services_are_ready flags (initialize_network c has_iface no_auto_start flags timeout ws s).0
        ≡ true
  unfolding initialize_network
  initialize_network-served false b flags timeout ws s positive answer =
      absurd (ground (arith, answer))
  initialize_network-served true true flags timeout ws s positive answer =
      absurd (ground (arith, answer))
  initialize_network-served true false flags timeout ws s positive answer =
      let waited = interface_phase c (initial_count timeout) ws (check_interface s) in
      finish_start-served flags timeout waited.1 waited.2 waited.0 positive answer

  patient :
      (flags : Flags) (n : ℕ) (waited : Net A × ℤ × Waits)
      → (finish_start c flags (negsuc n) waited).1 ≡ pos 0
  unfolding finish_start services_phase
  patient flags n (s, count, ws) = ground arith

  -- With a negative timeout, for an interface that starts by itself, the answer is 0 with no wait at
  -- all, whether or not the interface is up and the services are ready.
  pub initialize_network-negative :
      (flags : Flags) (n : ℕ) (ws : Waits) (s : Net A)
      → ((initialize_network c true false flags (negsuc n) ws s).1 ≡ pos 0)
        × ((initialize_network c true false flags (negsuc n) ws s).0.waits ≤ s.waits)
  unfolding initialize_network
  initialize_network-negative flags n ws s =
      let checked = check_interface s in
      let waited = interface_phase c (minus 1) ws checked in
      (
        patient flags n waited,
        omega (
          arith,
          finish_start-waits c flags (negsuc n) waited.1 waited.2 waited.0,
          interface_phase-waits c (minus 1) ws checked.0 checked.1,
          check_interface-waits c s,
        ),
      )
