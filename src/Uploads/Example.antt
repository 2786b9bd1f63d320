-- ===== src/Uploads/Example.antt =====
-- A disk in memory, with a digest that tells the length only.
use beremiz4u_c.Common.{
  ℕ, ◌+◌, ◌≡◌, ap, sym, ◌∙◌, take_all, true, [], ◌∷◌, ◌++◌, Option, none, some, ◌==◌, if◌then◌else◌,
  arith, length, take, replicate, codes,
}
use beremiz4u_c.Uploads.{Bytes, Disk, Uploads, init_file_upload}
use beremiz4u_c.Uploads.Install.{Paths}

-- The number of streams, and what was written to each.
abbrev pub Streams : Type 0
Streams = ℕ × (ℕ → Bytes)

abbrev pub opened : Streams → ℕ × Streams
opened d = (d.0, (d.0 + 1, λ i. if i == d.0 then [] else d.1 i))

abbrev pub contents : Option (ℕ × Streams) → Bytes
contents none = []
contents (some (h, e)) = e.1 h

pub written_fopen :
    (d e : Streams) (h : ℕ) → some (opened d) ≡ some (h, e) → contents (some (h, e)) ≡ []
written_fopen d e h open_now =
    let empty : contents (some (opened d)) ≡ [] = ground arith in sym (ap contents open_now) ∙ empty

pub written_fwrite :
    (h : ℕ) (bytes : Bytes) (d : Streams)
    → (if h == h then d.1 h ++ bytes else d.1 h) ≡ d.1 h ++ take (length bytes) bytes
written_fwrite h bytes d = ground (arith, take_all bytes)

unfoldable pub memory : Disk Streams
memory = record {
  fopen = λ name d. some (opened d);
  fwrite = λ h bytes d. ((d.0, λ i. if i == h then d.1 i ++ bytes else d.1 i), length bytes);
  fclose = λ h d. d;
  fs_stat = λ name d. true;
  fs_unlink = λ name d. some d;
  fs_rename = λ from to d. some d;
  finished_ctx = λ b. b ++ 128 ∷ [];
  entries = λ name d. some ((codes "a.tmp", true) ∷ []);
  written = λ d h. d.1 h;
  written-fopen = λ name d e h open_now. written_fopen d e h open_now;
  written-fwrite = written_fwrite;
}

-- A digest: the length, in sixteen bytes.
abbrev pub md5 : Bytes → Bytes
md5 b = length b ∷ replicate 15 0

abbrev pub none_yet : Uploads Streams
none_yet = record {
  file_uploads = replicate 20 init_file_upload;
  num_uploads = 0;
  complete_ctx = [];
  disk = (0, λ i. []);
  plc_run = 1;
  reload_plc_file = 0;
}

abbrev pub paths : Paths
paths = record {
  tmp_file_path = codes "/tmp/";
  plc_md5_file = codes "/plc/md5.txt";
  plc_bin_file = codes "/plc/plc.bin";
  plc_root_path = codes "/plc/";
  http_root = codes "/www/";
}
