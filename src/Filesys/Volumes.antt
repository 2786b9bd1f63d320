-- ===== src/Filesys/Volumes.antt =====
-- app/src/plc_filesys.c: mounting the SD card, and the start of the file system.
-- Printing the sizes of the volumes is left out.
use beremiz4u_c.Common.{ℕ, Bool, not, codes, ◌==◌, if◌then◌else◌, ℤ, is_negative, is_zero}
use beremiz4u_c.Filesys.{Bytes}

-- The volumes of the kernel: the calls with the code that they answer, and the pin of the card slot.
pub record Volumes (V : Type 0) : Type 0 where
  pub disk_access_init : V → V × ℤ
  pub fs_mount : Bytes → V → V × ℤ
  pub fs_unmount : Bytes → V → V × ℤ
  pub fs_mkfs : V → V × ℤ
  pub device_is_ready : V → Bool
  pub gpio_pin_get : V → ℕ

abbrev pub disk_mount_pt : Bytes
disk_mount_pt = codes "/SD:"

abbrev pub lfs_mount_pt : Bytes
lfs_mount_pt = codes "/lfs:"

module _ {V : Type 0} (k : Volumes V) where
  unfoldable pub unmount_sd_fatfs : V → V
  unmount_sd_fatfs v = (k.fs_unmount disk_mount_pt v).0

  unfoldable pub mount_sd_fatfs : V → V
  mount_sd_fatfs v =
      let ready = k.disk_access_init v in
      if is_zero ready.1 then (k.fs_mount disk_mount_pt ready.0).0 else ready.0

  -- Behind its two waits; the pin is read between them.
  unfoldable pub sd_card_detect_callback : V → V
  unfolding mount_sd_fatfs unmount_sd_fatfs
  sd_card_detect_callback v = if k.gpio_pin_get v == 1 then mount_sd_fatfs v else unmount_sd_fatfs v

  -- The end of the start: the card, where the slot is ready and holds one.
  unfoldable pub detect_at_startup : V → V
  unfolding mount_sd_fatfs
  detect_at_startup v =
      if k.device_is_ready v then (if k.gpio_pin_get v == 1 then mount_sd_fatfs v else v) else v

  -- `init_plc_filesys`, with the two options of the build.
  unfoldable pub init_plc_filesys : Bool → Bool → V → V
  unfolding detect_at_startup
  init_plc_filesys storage_flash_littlefs wipe_storage v =
      let wiped = k.fs_mkfs v in
      if not storage_flash_littlefs
      then (k.fs_unmount lfs_mount_pt v).0
      else if wipe_storage
      then (if is_negative wiped.1 then wiped.0 else detect_at_startup wiped.0)
      else detect_at_startup v
