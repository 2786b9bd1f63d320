-- ===== src/Uploads/Serve.antt =====
-- app/src/plc_rpc.c, `rpc_server_task`: the thread that serves the remote calls, and what it holds of
-- the eRPC library.
use beremiz4u_c.Common.{
  ℕ, ◌≡◌, refl, ◌∙◌, ap, Bool, true, false, inl, inr, List, [], ◌∷◌, ◌++◌, Option, none, some, ◌==◌,
  if◌then◌else◌, arith, Bool-cases,
}

-- The transport, the message buffer factory, the server, the service, and the service in the server.
pub data Resource : Type 0 where
  transport factory server service service_in_server : Resource

pub data Action : Type 0 where
  acquire release : Resource → Action
  server_stop : Action

-- What a call of `erpc_server_poll` answers: success, a closed connection, or another status.
pub data Poll : Type 0 where
  success connection_closed other_status : Poll

-- What one turn of the outer loop meets: which calls of the library give a resource, and its polls.
pub record Turn : Type 0 where
  pub has_transport : Bool
  pub has_factory : Bool
  pub has_server : Bool
  pub has_service : Bool
  pub polls : List Poll

-- What was done, whether the inner loop goes on, and `rpc_connection_active`.
pub record Served : Type 0 where
  pub actions : List Action
  pub serving : Bool
  pub rpc_connection_active : ℕ

-- The cleanup behind a bad status.
abbrev pub clean_up : List Action
clean_up =
    release service_in_server
    ∷ release service
    ∷ server_stop
    ∷ release server
    ∷ release factory
    ∷ release transport
    ∷ []

-- The inner loop.
unfoldable pub poll_loop : List Poll → ℕ → Served
poll_loop [] active = record { actions = []; serving = true; rpc_connection_active = active }
poll_loop (success ∷ polls) active = poll_loop polls active
poll_loop (connection_closed ∷ polls) active = poll_loop polls 0
poll_loop (other_status ∷ polls) active = record {
  actions = clean_up;
  serving = false;
  rpc_connection_active = active;
}

abbrev ended : List Action → ℕ → Served
ended actions active = record { actions = actions; serving = false; rpc_connection_active = active }

-- A turn of the outer loop.
unfoldable pub serve_turn : Turn → ℕ → Served
unfolding poll_loop
serve_turn t active =
    let polled = poll_loop t.polls active in
    if t.has_transport
    then (if t.has_factory
        then (if t.has_server
            then (if t.has_service
                then record polled {
                  actions =
                      acquire transport
                      ∷ acquire factory
                      ∷ acquire server
                      ∷ acquire service
                      ∷ acquire service_in_server
                      ∷ polled.actions;
                }
                else ended
                    (acquire transport
                      ∷ acquire factory
                      ∷ acquire server
                      ∷ release server
                      ∷ release factory
                      ∷ release transport
                      ∷ [])
                    active)
            else ended
                (acquire transport ∷ acquire factory ∷ release factory ∷ release transport ∷ [])
                active)
        else ended (acquire transport ∷ release transport ∷ []) active)
    else ended [] active

-- The outer loop over the turns, up to one that still serves.
unfoldable pub rpc_server_task : List Turn → ℕ → Served
unfolding serve_turn
rpc_server_task [] active = ended [] active
rpc_server_task (t ∷ turns) active =
    let served = serve_turn t active in
    let rest = rpc_server_task turns served.rpc_connection_active in
    if served.serving then served else record rest { actions = served.actions ++ rest.actions }

rank : Resource → ℕ
rank transport = 0
rank factory = 1
rank server = 2
rank service = 3
rank service_in_server = 4

-- What is held after some actions, the newest first: none where a resource is released that is not the
-- newest of those held.
unfoldable pub held_after : List Action → List Resource → Option (List Resource)
unfolding rank
held_after [] held = some held
held_after (acquire r ∷ actions) held = held_after actions (r ∷ held)
held_after (server_stop ∷ actions) held = held_after actions held
held_after (release r ∷ actions) [] = none
held_after (release r ∷ actions) (newest ∷ held) =
    let rest = held_after actions held in if rank r == rank newest then rest else none

abbrev pub all_held : List Resource
all_held = service_in_server ∷ service ∷ server ∷ factory ∷ transport ∷ []

-- What a turn leaves: all while it serves, and nothing otherwise.
abbrev pub left_by : Bool → List Resource
left_by true = all_held
left_by false = []

held_after-append :
    (a b : List Action) (held left : List Resource)
    → held_after a held ≡ some left
    → held_after (a ++ b) held ≡ held_after b left
unfolding held_after
held_after-append [] b held left h =
    let same : held ≡ left = ground (arith, h) in ap (held_after b) same
held_after-append (acquire r ∷ a) b held left h = held_after-append a b (r ∷ held) left h
held_after-append (server_stop ∷ a) b held left h = held_after-append a b held left h
held_after-append (release r ∷ a) b [] left h = absurd (ground (arith, h))
held_after-append (release r ∷ a) b (newest ∷ held) left h =
    elim (Bool-cases (rank r == rank newest)) [
      | inl same ↦
          let rest : held_after a held ≡ some left = ground (arith, h, same) in
          ground (arith, same, held_after-append a b held left rest)
      | inr other ↦ absurd (ground (arith, h, other))
    ]

poll_loop-held :
    (polls : List Poll) (active : ℕ)
    → held_after (poll_loop polls active).actions all_held
      ≡ some (left_by (poll_loop polls active).serving)
unfolding poll_loop held_after
poll_loop-held [] active = refl
poll_loop-held (success ∷ polls) active = poll_loop-held polls active
poll_loop-held (connection_closed ∷ polls) active = poll_loop-held polls 0
poll_loop-held (other_status ∷ polls) active = refl

serve_turn-held :
    (t : Turn) (active : ℕ)
    → held_after (serve_turn t active).actions [] ≡ some (left_by (serve_turn t active).serving)
unfolding serve_turn held_after
serve_turn-held t active = ground (arith, poll_loop-held t.polls active)

next-held :
    (on : Bool) (served rest : Served)
    → served.serving ≡ on
    → held_after served.actions [] ≡ some (left_by served.serving)
    → held_after rest.actions [] ≡ some (left_by rest.serving)
    → held_after
        (if on then served else record rest { actions = served.actions ++ rest.actions }).actions
        []
      ≡ some (
          left_by
            (if on
              then served
              else record rest { actions = served.actions ++ rest.actions }).serving)
next-held true served rest e h k = h
next-held false served rest e h k =
    held_after-append served.actions rest.actions [] [] (h ∙ ap (λ b. some (left_by b)) e) ∙ k

-- Whatever calls fail and whatever the polls answer, the thread releases what it holds of the library
-- in the reverse order of its acquisition, and holds nothing between two turns: while it serves it
-- holds one resource of each kind, and nothing otherwise.
pub rpc_server_task-held :
    (turns : List Turn) (active : ℕ)
    → held_after (rpc_server_task turns active).actions []
      ≡ some (left_by (rpc_server_task turns active).serving)
unfolding rpc_server_task held_after
rpc_server_task-held [] active = refl
rpc_server_task-held (t ∷ turns) active =
    let served = serve_turn t active in
    next-held served.serving served (rpc_server_task turns served.rpc_connection_active) refl
      (serve_turn-held t active) (rpc_server_task-held turns served.rpc_connection_active)
