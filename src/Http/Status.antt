-- ===== src/Http/Status.antt =====
-- app/src/plc_http.c and app/src/plc_util.c: the status that is told in JSON, and its page.
use beremiz4u_c.Common.{
  ℕ, suc, ◌+◌, ◌/◌, ◌%◌, ◌^◌, ◌≡◌, Bool, true, false, List, [], ◌∷◌, ◌++◌, Option, none, some, ltb,
  if◌then◌else◌, length, take, replicate, codes, arith,
}
use beremiz4u_c.Settings.{Memory, c_string}
use beremiz4u_c.Settings.Access.{get_plc_autostart_setting, get_plc_autostart_source_setting}
use beremiz4u_c.Uploads.{Bytes}
use beremiz4u_c.Network.Address.{Interface, get_ip_address, get_ip_assignment_method}
use beremiz4u_c.Log.{print_number, read_digits}
use beremiz4u_c.Log.Decimal.{read_digits-digits}
use beremiz4u_c.Http.Files.{crlf}

-- The members that are encoded. A text that is not set is a null pointer.
pub record StatusInfo : Type 0 where
  pub message_type : Option Bytes
  pub plc_module_loaded : Bool
  pub load_source : Option Bytes
  pub plc_autostart : Bool
  pub start_source : Option Bytes
  pub plc_started : Bool
  pub cycle_time : Option Bytes
  pub ip_address : Option Bytes
  pub ip_status : Option Bytes
  pub rpc_server : Bool
  pub rpc_server_port : ℕ

-- `plc_loader_get_modulename`, with the name that the linker has of the module.
unfoldable pub plc_loader_get_modulename : ℕ → Bytes → Bytes
plc_loader_get_modulename plc_initialized module_name =
    if ltb 0 plc_initialized then module_name else codes "no module loaded"

unfoldable pub plc_loader_get_autostart_source : Memory → Bytes
plc_loader_get_autostart_source m =
    if get_plc_autostart_setting m
    then (if get_plc_autostart_source_setting m then codes "FileSystem" else codes "Flash")
    else codes "no autostart"

-- `plc_task_get_cycle_time`: the text is cut to its buffer.
unfoldable pub plc_task_get_cycle_time : ℕ → ℕ → Bytes
plc_task_get_cycle_time common_cycle_time tick =
    take 19
      (print_number (common_cycle_time / 1000000 % 2 ^ 32) ++ codes "ms tick=" ++ print_number tick)

-- What the two functions read.
pub record Sources : Type 0 where
  pub plc_initialized : ℕ
  pub plc_run : ℕ
  pub module_name : Bytes
  pub settings : Memory
  pub interface : Interface

-- `json_calc_encoded_len` and `json_obj_encode_buf` of the kernel, and its `net_addr_ntop`.
pub record Json : Type 0 where
  pub json_calc_encoded_len : StatusInfo → Option ℕ
  pub json_obj_encode_buf : StatusInfo → Option Bytes
  pub net_addr_ntop : ℕ → Option Bytes

-- The number in front of an empty line is read back.
read_length :
    (n : ℕ) (content : Bytes)
    → read_digits 0 (print_number n ++ (crlf ++ (crlf ++ content))) ≡ (n, crlf ++ (crlf ++ content))
unfolding read_digits
read_length n content =
    ground (arith, read_digits-digits (suc n) n (crlf ++ (crlf ++ content)) (omega arith))

abbrev pub error_message : Bytes
error_message = codes "{\"error\": \"Could not encode JSON\"}"

encoded_or : Bytes → Option Bytes → Bytes
encoded_or other none = other
encoded_or other (some json) = json

unfoldable pub page_head : Bytes
page_head =
    codes "HTTP/1.1 200 OK"
    ++ crlf
    ++ codes "Content-Type: application/json"
    ++ crlf
    ++ codes "Content-Length: "

unfoldable pub page_of : Bytes → Bytes
page_of content = page_head ++ (print_number (length content) ++ (crlf ++ (crlf ++ content)))

module _ (k : Json) where
  -- The status of `send_status_update`, and that of `handle_status_request`.
  unfoldable pub updated_status : Sources → StatusInfo
  updated_status s = record {
    message_type = some (codes "status");
    plc_module_loaded = ltb 0 s.plc_initialized;
    load_source = some (plc_loader_get_modulename s.plc_initialized s.module_name);
    plc_autostart = get_plc_autostart_setting s.settings;
    start_source = some (plc_loader_get_autostart_source s.settings);
    plc_started = ltb 0 s.plc_run;
    cycle_time = some (codes "-");
    ip_address = some (get_ip_address k.net_addr_ntop s.interface);
    ip_status = some (get_ip_assignment_method s.interface);
    rpc_server = false;
    rpc_server_port = 0;
  }

  unfoldable pub requested_status : Sources → StatusInfo
  requested_status s = record {
    message_type = none;
    plc_module_loaded = ltb 0 s.plc_initialized;
    load_source = none;
    plc_autostart = false;
    start_source = none;
    plc_started = ltb 0 s.plc_run;
    cycle_time = none;
    ip_address = some (get_ip_address k.net_addr_ntop s.interface);
    ip_status = none;
    rpc_server = false;
    rpc_server_port = 0;
  }

  -- `send_status_update` up to the message, if the memory is there.
  unfoldable pub update_text : Bool → Sources → Option Bytes
  unfolding encoded_or
  update_text allocated s = elim (k.json_calc_encoded_len (updated_status s)) [
    | none ↦ none
    | some needed ↦
        if allocated
        then some (encoded_or error_message (k.json_obj_encode_buf (updated_status s)))
        else none
  ]

  -- The content of the page in the memory for `needed` bytes. `strncpy` leaves out the zero where the
  -- message does not fit, and then the text goes on with the bytes behind that memory.
  unfoldable pub page_content : Bytes → ℕ → Sources → Bytes
  unfolding encoded_or
  page_content behind needed s =
      let copied = take (needed + 1) (error_message ++ replicate (needed + 1) 0) in
      c_string (encoded_or (copied ++ behind) (k.json_obj_encode_buf (requested_status s)))

  -- `handle_status_request`: what is sent, if the memory is there, twice.
  unfoldable pub handle_status_request : Bytes → Bool → Bool → Sources → List Bytes
  handle_status_request behind allocated response_allocated s =
      elim (k.json_calc_encoded_len (requested_status s)) [
        | none ↦ []
        | some needed ↦
            if allocated
            then (if response_allocated then page_of (page_content behind needed s) ∷ [] else [])
            else []
      ]

  -- Where the length is known and there is memory, one text is sent: a head that ends in the length of
  -- the content, in decimal, an empty line and the content.
  pub handle_status_request-length :
      (behind : Bytes) (s : Sources) (needed : ℕ)
      → k.json_calc_encoded_len (requested_status s) ≡ some needed
      → (rest : List ℕ) × (handle_status_request behind true true s ≡ (page_head ++ rest) ∷ [])
        × (read_digits 0 rest ≡ (
          length (page_content behind needed s),
          crlf ++ (crlf ++ page_content behind needed s),
        ))
  unfolding handle_status_request page_of
  handle_status_request-length behind s needed known =
      let content = page_content behind needed s in
      (
        print_number (length content) ++ (crlf ++ (crlf ++ content)),
        ground (arith, known),
        read_length (length content) content,
      )
