-- ===== src/Log/Lookup.antt =====
-- app/src/plc_rte_log.c: which message is read back.
use beremiz4u_c.Common.{
  zero, suc, ◌+◌, ◌≤◌, sym, length, length-append, joined, append-nil, append_assoc, fgets,
  fgets-line, IsLine, ℕ, ◌<◌, ◌≡◌, refl, ap, ◌∙◌, Bool, true, List, [], ◌∷◌, ◌++◌, Option, none,
  some, ◌&&◌, ◌==◌, if◌then◌else◌, arith, get_or,
}
use beremiz4u_c.Settings.{c_string}
use beremiz4u_c.Log.{Entry, line_of}
use beremiz4u_c.Log.Lines.{
  IsLogged, body_of, body_of_line, body_of-IsLine, scan_fields-line_of, message_start-line_of,
}
use beremiz4u_c.Log.Calls.{
  Log, Files, Message, bytes_of, log_lines, log_message, match_line, find_message, get_log_message,
  give_message, load_log_state, reset_log_count, save_log_state, initialize_logging,
}

abbrev pub is_entry : ℕ → ℕ → Entry → Bool
is_entry level msg_id e = (e.id == msg_id) && (e.level == level)

abbrev pub message_of : Entry → Message
message_of e = record { msg = some (e.msg ++ 10 ∷ []); tick = e.tick; sec = e.sec; nsec = e.nsec }

-- The first entry with an id and a level.
abbrev pub first_entry : ℕ → ℕ → List Entry → Option Message
first_entry level msg_id [] = none
first_entry level msg_id (e ∷ es) =
    if is_entry level msg_id e then some (message_of e) else first_entry level msg_id es

abbrev pub lines : List Entry → List (List ℕ)
lines [] = []
lines (e ∷ es) = line_of e ∷ lines es

-- Every one of the entries can stand in a line.
abbrev pub AreLogged : List Entry → Type 0
AreLogged [] = Unit {0}
AreLogged (e ∷ es) = IsLogged e × AreLogged es

log_lines_next :
    (fuel : ℕ) (s : List ℕ)
    → 0 < length s
    → log_lines (suc fuel) s ≡ (fgets 511 s).0 ∷ log_lines fuel (fgets 511 s).1
unfolding log_lines
log_lines_next fuel [] h = elim h [ ]
log_lines_next fuel (b ∷ s) h = refl

-- The loop of `fgets` gives the lines that were written.
log_lines-lines :
    (fuel : ℕ) (es : List Entry)
    → AreLogged es
    → length (joined (lines es)) ≤ fuel
    → log_lines fuel (joined (lines es)) ≡ lines es
unfolding log_lines
log_lines-lines zero [] h enough = refl
log_lines-lines (suc fuel) [] h enough = refl
log_lines-lines zero (e ∷ es) h enough = absurd (
    omega (
      arith,
      enough,
      length-append (line_of e) (joined (lines es)),
      length-append (body_of e) (10 ∷ []),
      ap length (body_of_line e),
    ))
log_lines-lines (suc fuel) (e ∷ es) h enough =
    let rest = joined (lines es) in
    let size : length (line_of e) ≡ length (body_of e) + 1 =
      omega (arith, length-append (body_of e) (10 ∷ []), ap length (body_of_line e)) in
    let whole : length (line_of e ++ rest) ≡ length (line_of e) + length rest =
      length-append (line_of e) rest in
    let first : fgets 511 (line_of e ++ rest) ≡ (line_of e, rest) =
      ap (λ l. fgets 511 (l ++ rest)) (sym (body_of_line e))
      ∙ fgets-line 511 (body_of e) rest (body_of-IsLine e h.0.text) (omega (arith, size, h.0.fits))
      ∙ ap (λ l. (l, rest)) (body_of_line e) in
    log_lines_next fuel (line_of e ++ rest) (omega (arith, size, whole))
    ∙ ap (λ r. r.0 ∷ log_lines fuel r.1) first
    ∙ ap (◌∷◌ (line_of e)) (log_lines-lines fuel es h.1 (omega (arith, size, whole, enough)))

match_line-line_of :
    (level msg_id : ℕ) (e : Entry)
    → IsLogged e
    → match_line level msg_id (line_of e)
      ≡ (if is_entry level msg_id e then some (message_of e) else none)
unfolding match_line
match_line-line_of level msg_id e h =
    ground (arith, scan_fields-line_of e h, message_start-line_of e)

-- In a file of lines that `LogMessage` wrote, the search finds the first with the id and the level.
pub find_message-lines :
    (level msg_id : ℕ) (es : List Entry)
    → AreLogged es
    → find_message level msg_id (lines es) ≡ first_entry level msg_id es
unfolding find_message
find_message-lines level msg_id [] h = refl
find_message-lines level msg_id (e ∷ es) h =
    ground (arith, match_line-line_of level msg_id e h.0, find_message-lines level msg_id es h.1)

first_entry-last :
    (level msg_id : ℕ) (es : List Entry) (e : Entry)
    → first_entry level msg_id es ≡ none
    → is_entry level msg_id e ≡ true
    → first_entry level msg_id (es ++ e ∷ []) ≡ some (message_of e)
first_entry-last level msg_id [] e none_before is_it = ground (arith, is_it)
first_entry-last level msg_id (x ∷ es) e none_before is_it =
    ground (arith, none_before, first_entry-last level msg_id es e)

lines-append : (es : List Entry) (e : Entry) → lines (es ++ e ∷ []) ≡ lines es ++ line_of e ∷ []
lines-append [] e = refl
lines-append (x ∷ es) e = ap (◌∷◌ (line_of x)) (lines-append es e)

joined-append : (ls : List (List ℕ)) (l : List ℕ) → joined (ls ++ l ∷ []) ≡ joined ls ++ l
joined-append [] l = append-nil l
joined-append (m ∷ ls) l = ap (◌++◌ m) (joined-append ls l) ∙ sym (append_assoc m (joined ls) l)

AreLogged-append :
    (es : List Entry) (e : Entry) → AreLogged es → IsLogged e → AreLogged (es ++ e ∷ [])
AreLogged-append [] e h k = (k, tt {0})
AreLogged-append (x ∷ es) e h k = (h.0, AreLogged-append es e h.1 k)

c_string-IsLine : (s : List ℕ) → IsLine s → c_string s ≡ s
c_string-IsLine [] h = refl
c_string-IsLine (zero ∷ s) h = absurd (omega (arith, h.0))
c_string-IsLine (suc c ∷ s) h = ap (◌∷◌ (suc c)) (c_string-IsLine s h.2)

-- The entry that `LogMessage` writes.
abbrev pub new_entry : ℕ → List ℕ → ℕ → ℕ → ℕ → Log → Entry
new_entry level buf tick sec nsec s = record {
  id = get_or s.message_indexes level 0;
  tick = tick;
  sec = sec;
  nsec = nsec;
  level = level;
  msg = buf;
}

logs :
    (files : Files) (level : ℕ) (buf : List ℕ) (tick sec nsec : ℕ) (es : List Entry) (s : Log)
    → files.log_opens ≡ true
    → level < 4
    → c_string buf ≡ buf
    → bytes_of s.log_file ≡ joined (lines es)
    → ((log_message files level buf tick sec nsec s).1 ≡ 1)
      × (bytes_of (log_message files level buf tick sec nsec s).0.log_file
          ≡ joined (lines (es ++ new_entry level buf tick sec nsec s ∷ [])))
unfolding log_message
logs files level buf tick sec nsec es s opens small text e =
    let entry = new_entry level buf tick sec nsec s in
    let all : joined (lines (es ++ entry ∷ [])) ≡ joined (lines es) ++ line_of entry =
      ap joined (lines-append es entry) ∙ joined-append (lines es) (line_of entry) in
    ground (arith, opens, text, e, all)

gives :
    (files : Files) (level msg_id : ℕ) (s : Log) (message : Message)
    → files.log_opens ≡ true
    → find_message level msg_id (log_lines (length (bytes_of s.log_file)) (bytes_of s.log_file))
      ≡ some message
    → (get_log_message files level msg_id true s).1 ≡ message
unfolding get_log_message give_message
gives files level msg_id s message opens found = ground (arith, opens, found)

-- Where the log file opens and holds lines that were logged, none of them with the next index of a
-- valid level, a message that is logged at that level is accepted and is read back by this index,
-- with the tick and the time at which it was logged; its text has the newline of the line. All that is
-- for messages with no newline that fit into the 256 bytes of the buffer with their brackets, and for
-- numbers, the seconds among them, of 32 bits.
pub get_log_message-log_message :
    (files : Files) (level : ℕ) (buf : List ℕ) (tick sec nsec : ℕ) (es : List Entry) (s : Log)
    → files.log_opens ≡ true
    → level < 4
    → AreLogged es
    → IsLogged (new_entry level buf tick sec nsec s)
    → bytes_of s.log_file ≡ joined (lines es)
    → first_entry level (get_or s.message_indexes level 0) es ≡ none
    → (let logged = log_message files level buf tick sec nsec s in
        (logged.1 ≡ 1)
        × ((get_log_message files level (get_or s.message_indexes level 0) true logged.0).1
            ≡ record { msg = some (buf ++ 10 ∷ []); tick = tick; sec = sec; nsec = nsec }))
get_log_message-log_message files level buf tick sec nsec es s opens small before new e fresh =
    let logged = log_message files level buf tick sec nsec s in
    let entry = new_entry level buf tick sec nsec s in
    let id = get_or s.message_indexes level 0 in
    let all = AreLogged-append es entry before new in
    let bytes = joined (lines (es ++ entry ∷ [])) in
    let written =
      logs files level buf tick sec nsec es s opens small (c_string-IsLine buf new.text) e in
    (
      written.0,
      gives files level id logged.0 (message_of entry) opens (
          ap (λ b. find_message level id (log_lines (length b) b)) written.1
          ∙ ap (find_message level id)
              (log_lines-lines (length bytes) (es ++ entry ∷ []) all (omega arith))
          ∙ find_message-lines level id (es ++ entry ∷ []) all
          ∙ first_entry-last level id es entry fresh (is_new id level)),
    )
  where
    is_new : (id level : ℕ) → ((id == id) && (level == level)) ≡ true
    is_new id level = ground arith

-- Where the state file can be written, `initialize_logging` sets every index and every counter to
-- zero, whatever the state file held: the reset in front of the load writes zeros over it.
pub initialize_logging-forgets :
    (files : Files) (log_deleted state_deleted : Bool) (s : Log)
    → files.state_opens ≡ true
    → ((initialize_logging files log_deleted state_deleted s).message_indexes ≡ 0 ∷ 0 ∷ 0 ∷ 0 ∷ [])
      × ((initialize_logging files log_deleted state_deleted s).plc_log_counts ≡ 0 ∷ 0 ∷ 0 ∷ 0 ∷ [])
unfolding initialize_logging load_log_state reset_log_count save_log_state
initialize_logging-forgets files log_deleted state_deleted s opens = ground (arith, opens)
