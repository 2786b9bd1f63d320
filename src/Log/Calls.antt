-- ===== src/Log/Calls.antt =====
-- app/src/plc_rte_log.c: logging a message, reading one back, the counters, and their state file.
-- The state file is the list of the pairs that `fprintf` writes and `fscanf` reads.
use beremiz4u_c.Common.{
  zero, suc, fgets, length, ℕ, ◌+◌, ◌-◌, ◌%◌, ◌^◌, Bool, true, false, ◌&&◌, List, [], ◌∷◌, ◌++◌,
  Option, none, some, leb, ◌==◌, if◌then◌else◌, get_or, set, replicate, codes,
}
use beremiz4u_c.Settings.{c_string}
use beremiz4u_c.Log.{Entry, line_of, scan_fields, message_start}

abbrev pub log_levels : ℕ
log_levels = 4

pub record Log : Type 0 where
  pub message_indexes : List ℕ
  pub plc_log_counts : List ℕ
  pub log_file : Option (List ℕ)
  pub state_file : Option (List (ℕ × ℕ))

-- Which files open.
pub record Files : Type 0 where
  pub log_opens : Bool
  pub state_opens : Bool

-- `log_message` of the answer. `msg` is NULL where the log file does not open.
pub record Message : Type 0 where
  pub msg : Option (List ℕ)
  pub tick : ℕ
  pub sec : ℕ
  pub nsec : ℕ

abbrev pub bytes_of : Option (List ℕ) → List ℕ
bytes_of none = []
bytes_of (some bytes) = bytes

-- What a loop of `fgets` into an array of 512 bytes reads, on fuel: as much as there are bytes.
unfoldable pub log_lines : ℕ → List ℕ → List (List ℕ)
log_lines zero bytes = []
log_lines (suc fuel) [] = []
log_lines (suc fuel) (b ∷ bytes) =
    let line = fgets 511 (b ∷ bytes) in line.0 ∷ log_lines fuel line.1

abbrev pub increment : List ℕ → ℕ → List ℕ
increment counts level = set counts level ((get_or counts level 0 + 1) % 2 ^ 32)

abbrev pub decrement : List ℕ → ℕ → List ℕ
decrement counts level = set counts level ((get_or counts level 0 + 2 ^ 32 - 1) % 2 ^ 32)

-- `LogMessage`, at a tick and a time.
unfoldable pub log_message : Files → ℕ → List ℕ → ℕ → ℕ → ℕ → Log → Log × ℕ
log_message files level buf tick sec nsec s =
    let entry : Entry = record {
      id = get_or s.message_indexes level 0;
      tick = tick;
      sec = sec;
      nsec = nsec;
      level = level;
      msg = c_string buf;
    } in
    if leb log_levels level
    then (s, 0)
    else if files.log_opens
    then (
      record s {
        log_file = some (bytes_of s.log_file ++ line_of entry);
        message_indexes = increment s.message_indexes level;
        plc_log_counts = increment s.plc_log_counts level;
      },
      1,
    )
    else (s, 0)

-- A line as its five numbers and its message, where it has them and the id and the level are those
-- that are looked for.
unfoldable pub match_line : ℕ → ℕ → List ℕ → Option Message
match_line level msg_id line = elim (scan_fields 5 line) [
  | none ↦ none
  | some values ↦
      if (get_or values 0 0 == msg_id) && (get_or values 4 0 == level)
      then elim (message_start 5 line) [
        | none ↦ none
        | some text ↦ some (record {
          msg = some text;
          tick = get_or values 1 0;
          sec = get_or values 2 0;
          nsec = get_or values 3 0;
        })
      ]
      else none
]

-- The loop over the lines.
unfoldable pub find_message : ℕ → ℕ → List (List ℕ) → Option Message
unfolding match_line
find_message level msg_id [] = none
find_message level msg_id (line ∷ lines) = elim (match_line level msg_id line) [
  | none ↦ find_message level msg_id lines
  | some message ↦ some message
]

abbrev pub not_found : Message
not_found = record { msg = some (codes "Message not found!"); tick = 0; sec = 0; nsec = 0 }

abbrev pub no_file : Message
no_file = record { msg = none; tick = 0; sec = 0; nsec = 0 }

unfoldable pub give_message : ℕ → Bool → Option Message → Log → Log × Message
give_message level alloc none s = (s, not_found)
give_message level true (some message) s =
    (record s { plc_log_counts = decrement s.plc_log_counts level }, message)
give_message level false (some message) s = (s, not_found)

-- `GetLogMessage`, which answers 0 always; `alloc` is whether memory for the message is given.
unfoldable pub get_log_message : Files → ℕ → ℕ → Bool → Log → Log × Message
unfolding give_message find_message log_lines
get_log_message files level msg_id alloc s =
    let bytes = bytes_of s.log_file in
    let found = find_message level msg_id (log_lines (length bytes) bytes) in
    if files.log_opens then give_message level alloc found s else (s, no_file)

abbrev pub pairs : List ℕ → List ℕ → List (ℕ × ℕ)
pairs [] cs = []
pairs (i ∷ is) [] = []
pairs (i ∷ is) (c ∷ cs) = (i, c) ∷ pairs is cs

unfoldable pub save_log_state : Files → Log → Log
save_log_state files s =
    if files.state_opens
    then record s { state_file = some (pairs s.message_indexes s.plc_log_counts) }
    else s

-- The loop of `LoadLogState`: it stops where a pair is missing.
abbrev pub load_pairs : ℕ → List (ℕ × ℕ) → Log → Log
load_pairs i [] s = s
load_pairs i (p ∷ ps) s = load_pairs (i + 1) ps (record s {
  message_indexes = set s.message_indexes i p.0;
  plc_log_counts = set s.plc_log_counts i p.1;
})

load_from : Option (List (ℕ × ℕ)) → Log → Log
load_from none s = s
load_from (some ps) s = load_pairs 0 ps s

unfoldable pub load_log_state : Files → Log → Log
unfolding load_from
load_log_state files s = if files.state_opens then load_from s.state_file s else s

-- `ResetLogCount`; the arguments are whether each file could be deleted where it is.
unfoldable pub reset_log_count : Files → Bool → Bool → Log → Log
unfolding save_log_state
reset_log_count files log_deleted state_deleted s = save_log_state files (record s {
  log_file = if log_deleted then none else s.log_file;
  state_file = if state_deleted then none else s.state_file;
  message_indexes = replicate log_levels 0;
  plc_log_counts = replicate log_levels 0;
})

unfoldable pub initialize_logging : Files → Bool → Bool → Log → Log
unfolding reset_log_count load_log_state
initialize_logging files log_deleted state_deleted s =
    load_log_state files (reset_log_count files log_deleted state_deleted s)

unfoldable pub get_log_count : ℕ → Log → ℕ
get_log_count level s = if leb log_levels level then 0 else get_or s.plc_log_counts level 0
