-- ===== src/Config.antt =====
-- The constants of ViOS64Bit/src/config.h and ViOS64Bit/src/status.h that the modules use.
use vi_os.Prelude.{ℕ, ◌-◌}

abbrev pub heap_block_size : ℕ
heap_block_size = 4096

abbrev pub e_io : ℕ
e_io = 1

abbrev pub e_invarg : ℕ
e_invarg = 2

abbrev pub e_nomem : ℕ
e_nomem = 3

abbrev pub e_badpath : ℕ
e_badpath = 4

abbrev pub max_path : ℕ
max_path = 108

abbrev pub e_outofrange : ℕ
e_outofrange = 10

abbrev pub max_filesystems : ℕ
max_filesystems = 12

abbrev pub max_file_descriptors : ℕ
max_file_descriptors = 512

abbrev pub e_notfound : ℕ
e_notfound = 11

abbrev pub stack_start : ℕ
stack_start = 0x3FF000

abbrev pub stack_size : ℕ
stack_size = 16384

abbrev pub stack_end : ℕ
stack_end = stack_start - stack_size

abbrev pub e_fsnotus : ℕ
e_fsnotus = 5

abbrev pub e_rdonly : ℕ
e_rdonly = 6

abbrev pub e_unimp : ℕ
e_unimp = 7

abbrev pub e_informat : ℕ
e_informat = 9
