-- ===== src/Log/Checks.antt =====
-- A log with one message, and the theorems on it.
use beremiz4u_c.Common.{joined, ◌≡◌, refl, true, [], ◌∷◌, ◌++◌, some, arith, codes}
use beremiz4u_c.Log.{Entry, digits}
use beremiz4u_c.Log.Lines.{IsLogged}
use beremiz4u_c.Log.Calls.{Log, Files, log_message, get_log_message}
use beremiz4u_c.Log.Lookup.{lines, new_entry, get_log_message-log_message}

abbrev all_open : Files
all_open = record { log_opens = true; state_opens = true }

-- The message 0 of the level 1.
abbrev earlier : Entry
earlier = record { id = 0; tick = 5; sec = 100; nsec = 7; level = 1; msg = codes "on" }

abbrev log : Log
log = record {
  message_indexes = 0 ∷ 1 ∷ 0 ∷ 0 ∷ [];
  plc_log_counts = 0 ∷ 1 ∷ 0 ∷ 0 ∷ [];
  log_file = some (joined (lines (earlier ∷ [])));
  state_file = some ((0, 0) ∷ (1, 1) ∷ []);
}

earlier-IsLogged : IsLogged earlier
unfolding digits
earlier-IsLogged = record {
  id_small = omega arith;
  tick_small = omega arith;
  sec_small = omega arith;
  nsec_small = omega arith;
  level_small = omega arith;
  text = ground arith;
  fits = omega arith;
}

off-IsLogged : IsLogged (new_entry 1 (codes "off") 9 101 8 log)
unfolding digits
off-IsLogged = record {
  id_small = omega arith;
  tick_small = omega arith;
  sec_small = omega arith;
  nsec_small = omega arith;
  level_small = omega arith;
  text = ground arith;
  fits = omega arith;
}

get_log_message-log_message_example :
    (let logged = log_message all_open 1 (codes "off") 9 101 8 log in
      (logged.1 ≡ 1)
      × ((get_log_message all_open 1 1 true logged.0).1
          ≡ record { msg = some (codes "off" ++ 10 ∷ []); tick = 9; sec = 101; nsec = 8 }))
get_log_message-log_message_example =
    get_log_message-log_message all_open 1 (codes "off") 9 101 8 (earlier ∷ []) log refl
      (omega arith) (earlier-IsLogged, tt {0}) off-IsLogged refl refl
