-- ===== src/Network/Up.antt =====
-- app/src/plc_network.c, `initialize_network`: an interface that comes up during a wait.
use beremiz4u_c.Common.{
  ℕ, zero, suc, ◌+◌, ◌-◌, ◌≤◌, ◌≡◌, refl, sym, ap, ◌∙◌, true, false, [], ◌∷◌, ◌++◌, none, some, leb,
  if◌then◌else◌, arith, replicate, ℤ, pos, minus, enetdown,
}
use beremiz4u_c.Network.{
  Flags, covers, or_flags, Net, Config, if_up, services_notify_ready, services_are_ready,
  iface_up_handler, check_interface, setup_dhcpv4, parsed, with_address, setup_ipv4, deliver,
  deliver_all, take_waiter,
}
use beremiz4u_c.Network.Start.{
  Waits, wait_interface, from_count, wait_services, services_from, interface_phase, setup,
  services_phase, finish_start, initialize_network,
}

covers_self : (flags : Flags) → covers flags flags ≡ true
unfolding covers
covers_self [] = refl
covers_self (false ∷ fs) = covers_self fs
covers_self (true ∷ fs) = covers_self fs

-- Flags that are set are set.
pub covers-or_flags : (flags have : Flags) → covers flags (or_flags flags have) ≡ true
unfolding covers or_flags
covers-or_flags [] have = refl
covers-or_flags (f ∷ flags) [] = covers_self (f ∷ flags)
covers-or_flags (false ∷ flags) (h ∷ have) = covers-or_flags flags have
covers-or_flags (true ∷ flags) (h ∷ have) = covers-or_flags flags have

zero_add : (n : ℕ) → 0 + suc n ≡ suc n
zero_add n = omega arith

plus_none : (w : ℕ) → w ≡ 0 + w
plus_none w = omega arith

suc_add : (m n : ℕ) → suc m + suc n ≡ suc (m + suc n)
suc_add m n = omega arith

shift : (m w : ℕ) → m + (w + 1) ≡ suc m + w
shift m w = omega arith

nine : (m : ℕ) → m ≤ 9 → leb 1 (9 - m) ≡ leb m 8
nine m h = ground arith

module _ {A : Type 0} (c : Config A) where
  -- The state after a number of waits in which nothing happens, and after one in which the
  -- interface comes up.
  abbrev quiet : ℕ → Net A → Net A
  quiet m s = record s { waits = m + s.waits }

  abbrev risen : Net A → Net A
  risen s = record s { is_up = true; counter = 0; waiter = 0; waits = s.waits + 1 }

  wait_quiet :
      (n : ℕ) (ws : Waits) (s : Net A)
      → s.waiter ≡ 0
      → s.counter ≡ 1
      → wait_interface c (suc n) ([] ∷ ws) s
        ≡ wait_interface c n ws (record s { waits = s.waits + 1 })
  unfolding wait_interface take_waiter deliver_all
  wait_quiet n ws s empty down = ground (arith, empty, down)

  wait_up :
      (n : ℕ) (ws : Waits) (s : Net A)
      → s.waiter ≡ 0
      → s.counter ≡ 1
      → s.up_callback ≡ true
      → wait_interface c (suc n) ((if_up ∷ []) ∷ ws) s ≡ wait_interface c n ws (risen s)
  unfolding wait_interface take_waiter deliver_all deliver iface_up_handler
  wait_up n ws s empty down registered = ground (arith, empty, down, registered)

  wait_end :
      (n : ℕ) (ws : Waits) (s : Net A)
      → s.counter ≡ 0
      → wait_interface c n ws s ≡ (s, if leb 1 n then pos (n - 1) else minus 1, ws)
  unfolding wait_interface
  wait_end zero ws s h = refl
  wait_end (suc n) ws s h = ground (arith, h)

  wait_services_ready :
      (flags : Flags) (n : ℕ) (ws : Waits) (s : Net A)
      → services_are_ready flags s ≡ true
      → wait_services c flags n ws s ≡ (s, pos n)
  unfolding wait_services
  wait_services_ready flags zero ws s h = rw (h)
  wait_services_ready flags (suc n) ws s h = rw (h)

  wait_rises :
      (m n : ℕ) (ws : Waits) (s : Net A)
      → s.waiter ≡ 0
      → s.counter ≡ 1
      → s.up_callback ≡ true
      → wait_interface c (m + suc n) (replicate m [] ++ (if_up ∷ []) ∷ ws) s
        ≡ wait_interface c n ws (risen (quiet m s))
  wait_rises zero n ws s empty down registered =
      ap (λ k. wait_interface c k ((if_up ∷ []) ∷ ws) s) (zero_add n)
      ∙ wait_up n ws s empty down registered
      ∙ ap (λ w. wait_interface c n ws (risen (record s { waits = w }))) (plus_none s.waits)
  wait_rises (suc m) n ws s empty down registered =
      ap (λ k. wait_interface c k ([] ∷ (replicate m [] ++ (if_up ∷ []) ∷ ws)) s) (suc_add m n)
      ∙ wait_quiet (m + suc n) (replicate m [] ++ (if_up ∷ []) ∷ ws) s empty down
      ∙ wait_rises m n ws (record s { waits = s.waits + 1 }) empty down registered
      ∙ ap (λ w. wait_interface c n ws (risen (record s { waits = w }))) (shift m s.waits)

  -- The callback is dropped behind the wait, where the network is native.
  abbrev closed : Net A × ℤ × Waits → Net A × ℤ × Waits
  closed (t, left, rest) =
      (record t { up_callback = if c.native then false else t.up_callback }, left, rest)

  abbrev waiting : Net A → Net A
  waiting s = record s { up_callback = true; counter = 1 }

  phase_down :
      (ws : Waits) (s : Net A)
      → s.is_up ≡ false
      → interface_phase c (pos 10) ws (check_interface s)
        ≡ closed (wait_interface c 10 ws (waiting s))
  unfolding interface_phase from_count check_interface
  phase_down ws s down = rw (down)

  abbrev left_over : ℕ → ℤ
  left_over n = if leb 1 n then pos (n - 1) else minus 1

  phase_up :
      (m n : ℕ) (ws : Waits) (s : Net A)
      → m + suc n ≡ 10
      → s.is_up ≡ false
      → s.waiter ≡ 0
      → interface_phase c (pos 10) (replicate m [] ++ (if_up ∷ []) ∷ ws) (check_interface s)
        ≡ closed (risen (quiet m (waiting s)), left_over n, ws)
  phase_up m n ws s ten down empty =
      let coming = replicate m [] ++ (if_up ∷ []) ∷ ws in
      phase_down coming s down
      ∙ ap closed (
          ap (λ k. wait_interface c k coming (waiting s)) (sym ten)
          ∙ wait_rises m n ws (waiting s) empty refl refl
          ∙ wait_end n ws (risen (quiet m (waiting s))) refl)

  setup_ready :
      (a : A) (s : Net A)
      → parsed c c.my_ipv4_addr none ≡ some a
      → (services_are_ready c.need_ipv4 (setup c s) ≡ true) × ((setup c s).is_up ≡ s.is_up)
  unfolding setup setup_ipv4 setup_dhcpv4 with_address services_notify_ready services_are_ready
  setup_ready a s h = ground (arith, h, covers-or_flags c.need_ipv4 s.services_flags)

  finish_up :
      (n : ℕ) (k : ℕ) (a : A) (ws : Waits) (s : Net A)
      → parsed c c.my_ipv4_addr none ≡ some a
      → ((finish_start c c.need_ipv4 (pos (suc k)) (s, left_over n, ws)).1
          ≡ (if leb 1 n then pos 0 else minus enetdown))
        × ((finish_start c c.need_ipv4 (pos (suc k)) (s, left_over n, ws)).0.is_up ≡ s.is_up)
  unfolding finish_start services_from services_phase
  finish_up zero k a ws s h = (refl, (setup_ready a s h).1)
  finish_up (suc n) k a ws s h = ground (
    arith,
    wait_services_ready c.need_ipv4 (suc n - 1) ws (setup c s) (setup_ready a s h).0,
    (setup_ready a s h).1,
  )

  -- Where the interface is down, a valid address is configured, the timeout is positive and no wait
  -- is left over, and the interface comes up in the wait number m (from zero) of the ten with nothing
  -- happening before: the answer is 0 for the first nine and ENETDOWN for the last one; the interface
  -- is up behind each of them.
  pub initialize_network-up :
      (m k : ℕ) (a : A) (ws : Waits) (s : Net A)
      → m ≤ 9
      → parsed c c.my_ipv4_addr none ≡ some a
      → s.is_up ≡ false
      → s.waiter ≡ 0
      → ((initialize_network c true false c.need_ipv4
            (pos (suc k))
            (replicate m [] ++ (if_up ∷ []) ∷ ws)
            s).1
          ≡ (if leb m 8 then pos 0 else minus enetdown))
        × ((initialize_network c true false c.need_ipv4
              (pos (suc k))
              (replicate m [] ++ (if_up ∷ []) ∷ ws)
              s).0.is_up
            ≡ true)
  unfolding initialize_network
  initialize_network-up m k a ws s bound valid down empty =
      let n = 9 - m in
      let up = closed (risen (quiet m (waiting s)), left_over n, ws) in
      let phase = phase_up m n ws s (omega arith) down empty in
      let done = finish_up n k a ws up.0 valid in
      (
        ap (λ r. (finish_start c c.need_ipv4 (pos (suc k)) r).1) phase
            ∙ done.0
            ∙ ap (λ b. if b then pos 0 else minus enetdown) (nine m bound),
        ap (λ r. (finish_start c c.need_ipv4 (pos (suc k)) r).0.is_up) phase ∙ done.1,
      )
