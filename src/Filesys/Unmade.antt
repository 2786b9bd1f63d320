-- ===== src/Filesys/Unmade.antt =====
-- app/src/plc_filesys.c, `create_directories`: a path that ends in no slash.
