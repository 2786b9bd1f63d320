-- ===== src/Device.antt =====
-- The thread of app/src/plc_loader.c that loads the program, the erasure of the program, and the calls
-- of app/src/plc_rpc.c that pass on to them, over the parts that they bring together.
pub mod Tells
pub mod Loads
pub mod Boot
pub mod Commands
pub mod Checks
use beremiz4u_c.Common.{
  ℕ, ◌≡◌, Bool, true, false, List, [], ◌∷◌, Option, none, some, ltb, ◌==◌, ◌&&◌, if◌then◌else◌, ℤ,
  pos, minus, enoent, codes,
}
use beremiz4u_c.Settings.{Memory}
use beremiz4u_c.Settings.Access.{get_plc_autostart_setting}
use beremiz4u_c.Control.{
  Semaphore, Program, PlcStatus, System, plc_set_start, plc_set_stop, unload_plc_module,
  get_plc_status,
}
use beremiz4u_c.Uploads.{Bytes, Disk, Uploads}
use beremiz4u_c.Uploads.Install.{Paths, ExtraFile, new_plc}
use beremiz4u_c.Loader.{File, Flash, Linker, Loader, load_plc_module, eagain}
use beremiz4u_c.Loader.Flashing.{FlashArea}
use beremiz4u_c.Log.Calls.{Log, Files, reset_log_count}

-- The run control, the loader, the uploads, the partition and the log. `plc_run` and
-- `plc_initialized` are those of the run control; the copies in the loader and the uploads are set
-- from them at each call.
pub record Machine (S P M D Q : Type 0) : Type 0 where
  pub run : System S P
  pub loader : Loader M
  pub uploads : Uploads D
  pub partition : Q
  pub log : Log

-- What the functions stand on. `instance_of` is the program that a linked module holds, and
-- `after_failed` what a load that fails leaves of the program in the memory, by the module that it
-- leaves.
pub record Parts (S P M D Q : Type 0) : Type 0 where
  pub sem : Semaphore S
  pub program : Program P
  pub linker : Linker M
  pub instance_of : M → P
  pub after_failed : M → P → P
  pub crc32_ieee : List ℕ → ℕ
  pub sign : ℕ
  pub disk : Disk D
  pub area : FlashArea Q
  pub paths : Paths
  pub plc_startup_file : Bytes

-- What a load meets in the file system and the partition.
pub record Found : Type 0 where
  pub file : File
  pub flash : Flash

module _ {S P M D Q : Type 0} (k : Parts S P M D Q) where
  loaded : Loader M × ℕ → Machine S P M D Q → Machine S P M D Q × ℕ
  loaded (l, answer) m = (
    record m {
      loader = l;
      run = record m.run {
        plc_initialized = l.plc_initialized;
        program =
            if answer == 0
            then k.instance_of l.linked_module
            else k.after_failed l.linked_module m.run.program;
      };
    },
    answer,
  )

  -- `load_plc_module` on the state as a whole.
  unfoldable pub load : Bytes → Found → Machine S P M D Q → Machine S P M D Q × ℕ
  unfolding loaded
  load filename found m =
      loaded
        (load_plc_module k.linker k.crc32_ieee k.sign filename found.file found.flash
          (record m.loader { plc_initialized = m.run.plc_initialized }))
        m

  unfoldable pub start_loaded : Machine S P M D Q × ℕ → Machine S P M D Q
  start_loaded (m, answer) =
      if answer == 0 then record m { run = plc_set_start k.sem k.program m.run } else m

  -- `plc_loader_task` up to its loop.
  unfoldable pub autostart : Memory → Found → Machine S P M D Q → Machine S P M D Q
  unfolding start_loaded
  autostart memory found m =
      if get_plc_autostart_setting memory
      then start_loaded (load k.paths.plc_bin_file found m)
      else m

  -- A pass of its loop.
  unfoldable pub reload : Found → Machine S P M D Q → Machine S P M D Q
  reload found m =
      let unloaded = record m { run = unload_plc_module k.sem k.program m.run } in
      let done = if m.run.plc_run == 0 then (load k.paths.plc_bin_file found unloaded).0 else m in
      if m.uploads.reload_plc_file == 1
      then record done { uploads = record done.uploads { reload_plc_file = 0 } }
      else m

  -- `erase_plc_programm_flash` up to the wait of `plc_set_stop`, where it stops the PLC.
  unfoldable pub erase_begin : Machine S P M D Q → Machine S P M D Q
  erase_begin m =
      if ltb 0 m.run.plc_initialized && ltb 0 m.run.plc_run
      then record m { run = plc_set_stop k.sem k.program m.run }
      else m

  or_else : D → Option D → D
  or_else d none = d
  or_else d (some e) = e

  unfoldable pub removed : Bytes → D → D
  unfolding or_else
  removed path d = if k.disk.fs_stat path d then or_else d (k.disk.fs_unlink path d) else d

  -- The files and the log, and the answer: that of the last `fs_stat`.
  unfoldable pub erase_files : Files → Bool → Bool → Machine S P M D Q → Machine S P M D Q × ℤ
  unfolding removed
  erase_files files log_deleted state_deleted m =
      let d = removed k.paths.plc_bin_file (removed k.paths.plc_md5_file m.uploads.disk) in
      (
        record m {
          uploads = record m.uploads { disk = removed k.plc_startup_file d };
          log = reset_log_count files log_deleted state_deleted m.log;
        },
        if k.disk.fs_stat k.plc_startup_file d then pos 0 else minus enoent,
      )

  -- What follows the wait: whether a module was loaded, and what the deletion of the log meets.
  unfoldable pub erase_rest :
      Bool → ℕ → Files → Bool → Bool → Machine S P M D Q → Machine S P M D Q × ℤ
  unfolding erase_files
  erase_rest was_loaded state files log_deleted state_deleted m =
      let unloaded =
        if was_loaded then record m { run = record m.run { plc_initialized = 0 } } else m in
      if k.area.opens m.partition
      then elim (k.area.erase m.partition) [
        | none ↦ (unloaded, minus eagain)
        | some q ↦
            if state == 1
            then erase_files files log_deleted state_deleted (record unloaded { partition = q })
            else (record unloaded { partition = q }, pos 0)
      ]
      else (unloaded, minus eagain)

  -- `NewPLC`, which reads and clears the one `plc_run`.
  unfoldable pub new_plc_call :
      (Bytes → Bytes)
      → Bytes
      → Bytes
      → List ExtraFile
      → Machine S P M D Q
      → Machine S P M D Q × Bool
  new_plc_call md5 md5sum blob_id extra_files m =
      let done =
        new_plc k.disk k.paths md5 md5sum blob_id extra_files
          (record m.uploads { plc_run = m.run.plc_run }) in
      (record m { uploads = done.0; run = record m.run { plc_run = done.0.plc_run } }, done.1)

  -- `StartPLC`, and `StopPLC` and `RepairPLC` up to their waits. `StopPLC` sets `success` always.
  unfoldable pub start_plc : Machine S P M D Q → Machine S P M D Q × ℕ
  start_plc m = (record m { run = plc_set_start k.sem k.program m.run }, 0)

  unfoldable pub stop_plc : Machine S P M D Q → Machine S P M D Q × Bool
  stop_plc m = (record m { run = plc_set_stop k.sem k.program m.run }, true)

  unfoldable pub repair_plc : Machine S P M D Q → Machine S P M D Q
  unfolding erase_begin
  repair_plc m = erase_begin m

  -- `GetPLCstatus`: the counts of the log and the status.
  unfoldable pub get_plcstatus : Machine S P M D Q → List ℕ × PlcStatus
  get_plcstatus m = (m.log.plc_log_counts, get_plc_status k.sem k.program m.run)
