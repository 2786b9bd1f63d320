-- ===== src/Device/Loads.antt =====
-- app/src/plc_loader.c, `plc_loader_task`: what its loads do to the run control.
use beremiz4u_c.Common.{
  ℕ, ◌≤◌, ◌≡◌, ◌≢◌, refl, sym, subst, ap, ap₂, ◌∙◌, Bool, true, false, inl, inr, ◌==◌, ==_iff,
  if◌then◌else◌, arith, Bool-cases, List, length, take,
}
use beremiz4u_c.Settings.{Memory}
use beremiz4u_c.Settings.Access.{get_plc_autostart_setting}
use beremiz4u_c.Control.{
  System, stopped, empty, idle, unload_plc_module, new_plc_clears, plc_set_start, get_plc_status,
  plc_get_state, plc_get_loader_state,
}
use beremiz4u_c.Control.Steps.{Step, Reach, later}
use beremiz4u_c.Uploads.{Bytes, same_bytes}
use beremiz4u_c.Uploads.Install.{ExtraFile}
use beremiz4u_c.Uploads.Bytes.{same_bytes_refl, same_bytes_sound}
use beremiz4u_c.Uploads.Replace.{new_plc-checks}
use beremiz4u_c.Loader.{load_plc_module}
use beremiz4u_c.Device.Tells.{load_plc_module-Tells}
use beremiz4u_c.Device.{Machine, Parts, Found, load, start_loaded, autostart, reload, new_plc_call}

module _ {S P M D Q : Type 0} (k : Parts S P M D Q) where
  load-Reach :
      (filename : Bytes) (found : Found) (m : Machine S P M D Q)
      → Reach k.sem k.program m.run
      → m.run.plc_run ≡ 0
      → m.run.caller ≡ idle
      → Reach k.sem k.program (load k filename found m).0.run
  unfolding load
  load-Reach filename found m r off free =
      let before = record m.loader { plc_initialized = m.run.plc_initialized } in
      let l = load_plc_module k.linker k.crc32_ieee k.sign filename found.file found.flash before in
      let tells =
        load_plc_module-Tells k.linker k.crc32_ieee k.sign filename found.file found.flash before in
      elim (Bool-cases (l.1 == 0)) [
        | inl good ↦
            subst (Reach k.sem k.program)
              (ap₂ (λ i p. record m.run { plc_initialized = i; program = p })
                (sym (tells.0 ((==_iff l.1 0).0 good)))
                (ap
                  (λ b.
                    if b
                    then k.instance_of l.0.linked_module
                    else k.after_failed l.0.linked_module m.run.program)
                  (sym good)))
              (later r (Step.load off free (k.instance_of l.0.linked_module)))
        | inr bad ↦
            let answer : l.1 ≢ 0 = λ e. ground (arith, bad, e) in
            let left = k.after_failed l.0.linked_module m.run.program in
            subst (Reach k.sem k.program)
              (ap₂ (λ i p. record m.run { plc_initialized = i; program = p }) (sym (tells.1 answer))
                (ap (λ b. if b then k.instance_of l.0.linked_module else left) (sym bad)))
              (later r (Step.load_failed off free left))
      ]

  either_way :
      (b : Bool) (x y : Machine S P M D Q)
      → (b ≡ true → Reach k.sem k.program x.run)
      → Reach k.sem k.program y.run
      → Reach k.sem k.program (if b then x else y).run
  either_way true x y hx hy = hx refl
  either_way false x y hx hy = hy

  start_loaded-Reach :
      (x : Machine S P M D Q × ℕ)
      → Reach k.sem k.program x.0.run
      → x.0.run.caller ≡ idle
      → Reach k.sem k.program (start_loaded k x).run
  unfolding start_loaded
  start_loaded-Reach (m, answer) r free =
      either_way (answer == 0) (record m { run = plc_set_start k.sem k.program m.run }) m
        (λ e. later r (Step.start free)) r

  load-caller :
      (filename : Bytes) (found : Found) (m : Machine S P M D Q)
      → (load k filename found m).0.run.caller ≡ m.run.caller
  unfolding load
  load-caller filename found m = refl

  unload-keeps :
      (s : System S P)
      → ((unload_plc_module k.sem k.program s).plc_run ≡ s.plc_run)
        × ((unload_plc_module k.sem k.program s).caller ≡ s.caller)
        × (s.plc_run ≡ 0
            → s.plc_initialized ≤ 1
            → (unload_plc_module k.sem k.program s).plc_initialized ≡ 0)
  unfolding unload_plc_module
  unload-keeps s = (ground arith, ground arith, λ off flag. ground (arith, off, flag))

  reload-Reach :
      (found : Found) (m : Machine S P M D Q)
      → Reach k.sem k.program m.run
      → m.run.caller ≡ idle
      → Reach k.sem k.program (reload k found m).run
  unfolding reload
  reload-Reach found m r free =
      let bin = k.paths.plc_bin_file in
      let unloaded = record m { run = unload_plc_module k.sem k.program m.run } in
      let kept = unload-keeps m.run in
      let reloaded = (load k bin found unloaded).0 in
      either_way (m.uploads.reload_plc_file == 1) _ m
        (λ e.
          either_way (m.run.plc_run == 0) reloaded m
            (λ z.
              load-Reach bin found unloaded (later r (Step.unload free))
                (kept.0 ∙ (==_iff m.run.plc_run 0).0 z) (kept.1 ∙ free))
            r)
        r

  new_plc_call-caller :
      (md5 : Bytes → Bytes) (md5sum blob_id : Bytes) (files : List ExtraFile)
      (m : Machine S P M D Q)
      → (new_plc_call k md5 md5sum blob_id files m).0.run.caller ≡ m.run.caller
  unfolding new_plc_call
  new_plc_call-caller md5 md5sum blob_id files m = refl

  -- `NewPLC` leaves the run control as it was, or clears `plc_run`.
  new_plc_call-Reach :
      (md5 : Bytes → Bytes) (md5sum blob_id : Bytes) (files : List ExtraFile)
      (m : Machine S P M D Q)
      → length blob_id ≤ 33
      → Reach k.sem k.program m.run
      → m.run.caller ≡ idle
      → Reach k.sem k.program (new_plc_call k md5 md5sum blob_id files m).0.run
  unfolding new_plc_call new_plc_clears
  new_plc_call-Reach md5 md5sum blob_id files m fits r free =
      let u = record m.uploads { plc_run = m.run.plc_run } in
      let checks = new_plc-checks k.disk k.paths md5 md5sum blob_id files u fits in
      let start = take (length blob_id) (md5 u.complete_ctx) in
      elim (Bool-cases (same_bytes start blob_id)) [
        | inl matches ↦
            let equal = same_bytes_sound start blob_id matches in
            subst (λ n. Reach k.sem k.program (record m.run { plc_run = n })) (sym (checks.1 equal))
              (later r (Step.cleared free))
        | inr differs ↦
            let unequal : start ≢ blob_id = λ e.
              ground (arith, differs, ap (λ b. same_bytes b blob_id) e, same_bytes_refl blob_id) in
            subst (λ n. Reach k.sem k.program (record m.run { plc_run = n }))
              (sym (checks.2 unequal).0) r
      ]

  -- Whatever `plc_loader_task` finds, its start with the PLC off and its passes take the run control
  -- only where the steps of its threads could take it, as long as no stop is under way; and so does
  -- `NewPLC`, which asks for the reload and clears the `plc_run` that they read, for an id that fits its
  -- array of 33 bytes. So what holds in every reachable state holds behind them.
  pub plc_loader_task-Reach :
      (memory : Memory) (found : Found) (m : Machine S P M D Q)
      → Reach k.sem k.program m.run
      → m.run.caller ≡ idle
      → (m.run.plc_run ≡ 0 → Reach k.sem k.program (autostart k memory found m).run)
        × Reach k.sem k.program (reload k found m).run
        × ((md5 : Bytes → Bytes) (md5sum blob_id : Bytes) (files : List ExtraFile)
            → length blob_id ≤ 33
            → Reach k.sem k.program (new_plc_call k md5 md5sum blob_id files m).0.run
              × Reach k.sem k.program
                  (reload k found (new_plc_call k md5 md5sum blob_id files m).0).run)
  unfolding autostart
  plc_loader_task-Reach memory found m r free =
      let bin = k.paths.plc_bin_file in
      (
        λ off.
            either_way (get_plc_autostart_setting memory) (start_loaded k (load k bin found m)) m
              (λ e.
                start_loaded-Reach (load k bin found m) (load-Reach bin found m r off free)
                  (load-caller bin found m ∙ free))
              r,
        reload-Reach found m r free,
        λ md5 md5sum blob_id files fits.
            let called = new_plc_call-Reach md5 md5sum blob_id files m fits r free in
            (
              called,
              reload-Reach found (new_plc_call k md5 md5sum blob_id files m).0 called
                  (new_plc_call-caller md5 md5sum blob_id files m ∙ free),
            ),
      )

  load-status :
      (filename : Bytes) (found : Found) (m : Machine S P M D Q)
      → m.run.plc_run ≡ 0
      → m.run.plc_initialized ≡ 0
      → get_plc_status k.sem k.program (load k filename found m).0.run
        ≡ (if (load k filename found m).1 == 0 then stopped else empty)
  unfolding load get_plc_status plc_get_state plc_get_loader_state
  load-status filename found m off none_loaded =
      let before = record m.loader { plc_initialized = m.run.plc_initialized } in
      let l = load_plc_module k.linker k.crc32_ieee k.sign filename found.file found.flash before in
      let tells =
        load_plc_module-Tells k.linker k.crc32_ieee k.sign filename found.file found.flash before in
      elim (Bool-cases (l.1 == 0)) [
        | inl good ↦ ground (arith, good, off, tells.0 ((==_iff l.1 0).0 good))
        | inr bad ↦ ground (arith, bad, off, none_loaded, tells.1 (λ e. ground (arith, bad, e)))
      ]

  reload-run :
      (found : Found) (m : Machine S P M D Q)
      → m.run.plc_run ≡ 0
      → m.uploads.reload_plc_file ≡ 1
      → ((reload k found m).uploads.reload_plc_file ≡ 0)
        × ((reload k found m).run
            ≡ (load k k.paths.plc_bin_file found
                (record m { run = unload_plc_module k.sem k.program m.run })).0.run)
  unfolding reload
  reload-run found m off asked = rw (off, asked) (refl, refl)

  -- A pass that is asked to reload with the PLC off answers the request, and the status is then
  -- `Stopped` where the load answered 0 and `Empty` elsewhere.
  pub reload-status :
      (found : Found) (m : Machine S P M D Q)
      → m.run.plc_run ≡ 0
      → m.run.plc_initialized ≤ 1
      → m.uploads.reload_plc_file ≡ 1
      → ((reload k found m).uploads.reload_plc_file ≡ 0)
        × (get_plc_status k.sem k.program (reload k found m).run ≡ (
            if (load k k.paths.plc_bin_file found
                (record m { run = unload_plc_module k.sem k.program m.run })).1
              == 0
            then stopped
            else empty))
  reload-status found m off flag asked =
      let unloaded = record m { run = unload_plc_module k.sem k.program m.run } in
      let kept = unload-keeps m.run in
      let ran = reload-run found m off asked in
      (
        ran.0,
        ap (get_plc_status k.sem k.program) ran.1
            ∙ load-status k.paths.plc_bin_file found unloaded (kept.0 ∙ off) (kept.2 off flag),
      )
