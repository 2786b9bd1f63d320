-- ===== src/Filesys/Checks.antt =====
-- The creation of directories in a file system at work.
use beremiz4u_c.Common.{◌≡◌, refl, true, [], none, codes, pos, minus, einval}
use beremiz4u_c.Filesys.{
  directory, check_directory, made, along, last_made, finish_path, create_directories,
  check_and_create_path, check_and_create_file,
}
use beremiz4u_c.Filesys.Example.{listed}

null_path : (check_and_create_path listed directory none []).1 ≡ minus einval
unfolding listed check_and_create_path
null_path = refl

new_file : (check_and_create_file listed directory true (codes "/a/f") []).1 ≡ pos 1
unfolding listed check_and_create_file create_directories finish_path along check_directory made
    last_made
new_file = refl
