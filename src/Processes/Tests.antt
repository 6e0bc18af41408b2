-- ===== src/Processes/Tests.antt =====
-- The theorems about processes at two processes with a small driver, a page tree and heaps that count addresses.
use vi_os.Prelude.{
  ℕ, ◌+◌, ◌≤◌, ◌≡◌, refl, true, false, List, [], ◌∷◌, Option, none, some, inr, arith, ◌==◌, leb,
  if◌then◌else◌, replicate, ok, pos, neg,
}
use vi_os.Config.{e_io, e_invarg}
use vi_os.PathParser.{PathRoot, parse}
use vi_os.Paging.{PageTables, null, null_entry}
use vi_os.Paging.Frames.{Places, Placed, Free}
use vi_os.Paging.Map.{IsTree}
use vi_os.Paging.Range.{RangeMapped}
use vi_os.Files.{
  Files, FileDescriptor, Filesystem, mode_read, pointer, is_error, disk_get,
  file_get_mode_by_string, fs_init, fopen,
}
use vi_os.Files.Table.{IsTable}
use vi_os.Files.Open.{IsOpening}
use vi_os.Files.Reach.{here, next, opens, Reachable-IsTable}
use vi_os.Tasks.{TaskList, task_init}
use vi_os.Tasks.Removal.{Freed}
use vi_os.Processes.{
  Allocation, no_allocation, KernelHeap, Space, user_flags, process_is_stack_memory, process_malloc,
  process_realloc, process_free, validate,
}
use vi_os.Processes.Memory.{pages, process_malloc-RangeMapped}
use vi_os.Processes.Release.{process_free-RangeMapped}
use vi_os.Processes.Bounds.{process_realloc-null, validate-found}
use vi_os.Processes.Table.{FileHandle, Process, Kernel, process_terminate}
use vi_os.Processes.Handles.{process_file_handle_get, process_fopen, process_fclose, process_fread}
use vi_os.Processes.Ending.{Closed}
use vi_os.Processes.Terminate.{ClosedAll, Ends, InSlot, process_terminate-Freed}
use vi_os.Processes.Sessions.{process_fopen-process_fclose, process_fread-Outside}

-- Heaps that give one page after the other.
abbrev counting_heap : KernelHeap ℕ
counting_heap = record {
  kzalloc = λ h size. (h, h + 4096);
  krealloc = λ h old size. (h, h + 4096);
  grows = λ h. (true, h);
}

-- An empty table in frame 5, and the frames 6 to 11 for new tables.
abbrev empty : PageTables
empty = record { memory = λ g j. null; frames = 6 ∷ 7 ∷ 8 ∷ 9 ∷ 10 ∷ 11 ∷ []; invalidated = [] }

abbrev roots : Places
roots = record { depth = λ g. if g == 5 then 0 else 4; owner = λ g. 0; slot = λ g. 0 }

empty-Placed : Placed roots empty.memory
unfolding null_entry
empty-Placed = record {
  child_depth = λ g j lt used. absurd (unused used);
  child_owner = λ g j lt used. absurd (unused used);
  child_slot = λ g j lt used. absurd (unused used);
}
  where
    unused : null_entry null ≡ false → ⊥
    unused h = cc

empty-Free : Free roots empty.frames
empty-Free = (
  refl,
  omega arith,
  (refl, (refl, (refl, (refl, (refl, tt))))),
  (
    refl,
    omega arith,
    (refl, (refl, (refl, (refl, tt)))),
    (
      refl,
      omega arith,
      (refl, (refl, (refl, tt))),
      (
        refl,
        omega arith,
        (refl, (refl, tt)),
        (refl, omega arith, (refl, tt), (refl, omega arith, tt, tt)),
      ),
    ),
  ),
)

empty-IsTree : (n : ℕ) → n ≤ 6 → IsTree empty 5 n
empty-IsTree n le = record {
  places = roots;
  placed = empty-Placed;
  free = empty-Free;
  root = refl;
  enough = le;
}

-- One page that is allocated.
abbrev page : Allocation
page = record { ptr = 0x800000; end = 0x801000; size = 4096 }

abbrev one_page : Space ℕ
one_page = record { heap = 0x900000; tables = empty; pml = 5; allocations = some (page ∷ []) }

process_malloc-RangeMapped_example :
    (space' : Space ℕ) × (process_malloc counting_heap one_page 4096 ≡ ok (0x900000, space'))
    × (space'.allocations
        ≡ some (page ∷ record { ptr = 0x900000; end = 0x901000; size = 4096 } ∷ []))
    × RangeMapped empty space'.tables 5 0x900000 0x900000 (pages 4096) user_flags
    × IsTree space'.tables 5 3
process_malloc-RangeMapped_example =
    process_malloc-RangeMapped counting_heap one_page (page ∷ []) (page ∷ []) [] 4096 0x900000 3
      0x901000 0x901000 refl (omega arith) refl (omega arith) refl (omega arith, tt)
      (inr (refl, refl, refl)) (empty-IsTree 6 (omega arith))

process_free-RangeMapped_example :
    (space' : Space ℕ) × (process_free counting_heap one_page 0x800000 ≡ ok space')
    × (space'.allocations ≡ some (no_allocation ∷ []))
    × RangeMapped empty space'.tables 5 0x800000 0x800000 (pages 4096) 0
    × IsTree space'.tables 5 3
process_free-RangeMapped_example =
    process_free-RangeMapped counting_heap one_page [] [] 0x800000 4096 3 refl tt tt refl
      (omega arith) (empty-IsTree 6 (omega arith))

process_realloc-null_example :
    (space' : Space ℕ) × (process_realloc counting_heap one_page 0 4096 ≡ ok (0x900000, space'))
    × (space'.allocations ≡ some (record { ptr = 0x900000; end = 0x901000; size = 4096 } ∷ []))
process_realloc-null_example =
    process_realloc-null counting_heap one_page page [] 4096 0x900000 3 0x901000 refl
      (omega arith, tt) refl (omega arith) refl (omega arith) (empty-IsTree 6 (omega arith))

-- A megabyte behind an address in one page.
validate-found_example :
    validate (some (page ∷ [])) 0x800010 0x100000
    ≡ ok (if leb 0x100000 0x800ff0 then pos 0 else neg e_invarg)
unfolding process_is_stack_memory
validate-found_example =
    validate-found [] [] 0x800000 4096 16 0x100000 tt (omega arith) (omega arith) refl

-- A driver that keeps the number of files it has opened.
abbrev counting : Filesystem ℕ ℕ
counting = record {
  resolve = λ disk n. (pos 0, n);
  address = λ p. p + 4096;
  open_path = λ disk path mode n. (pointer n, n + 1);
  read = λ disk p size nmemb n. ((pos nmemb, []), n);
  seek = λ p offset whence n. (pos 0, n);
  stat = λ disk p n. ((pos 0, 0, 0), n);
  close = λ p n. (pos 0, n);
  write = λ disk p bytes size nmemb n. (pos nmemb, n);
}

abbrev no_files : List (Option (FileDescriptor ℕ ℕ)) → Files ℕ ℕ
no_files slots = record {
  filesystems = some counting ∷ replicate 11 none;
  descriptors = slots;
  disks = some counting ∷ [];
  primary = none;
  left = 9;
  world = 0;
}

abbrev start : Files ℕ ℕ
start = no_files (replicate 512 none)

-- "0:/a" and "r".
abbrev name : List ℕ
name = 48 ∷ 58 ∷ 47 ∷ 97 ∷ 0 ∷ []

abbrev reading : List ℕ
reading = 114 ∷ 0 ∷ []

abbrev root : PathRoot
root = record { drive_no = pos 0; first = (97 ∷ replicate 107 0) ∷ [] }

opening : IsOpening start name reading counting root mode_read 5
unfolding parse disk_get file_get_mode_by_string
opening = record {
  parsed = refl;
  some_part = refl;
  on_disk = refl;
  mode_found = refl;
  mode_valid = refl;
}

abbrev one_open : Files ℕ ℕ
one_open = record start {
  descriptors =
      some (record { index = 1; filesystem = counting; private = pointer 0; disk = 0 })
      ∷ replicate 511 none;
  left = 4;
  world = 1;
}

initialised : fs_init (no_files []) counting ≡ ok start
unfolding fs_init
initialised = refl

opened_one : fopen start name reading ≡ ok (pos 1, one_open)
unfolding fopen
opened_one = refl

one_open-IsTable : IsTable one_open
one_open-IsTable =
    Reachable-IsTable (no_files []) counting start one_open initialised
      (next here (opens name reading (pos 1) opened_one))

-- The tasks of the processes 0 and 1; the first runs.
abbrev two_tasks : TaskList
unfolding task_init
two_tasks = record {
  tasks =
      record (task_init 0 none) { next = some 1 }
      ∷ record (task_init 1 none) { prev = some 0 }
      ∷ [];
  current_task = some 0;
  task_head = some 0;
  task_tail = some 1;
  paged = none;
}

abbrev file : FileHandle
file = record { address = 0x700000; fd = pos 1 }

abbrev running_process : Process
running_process = record {
  id = 0;
  task = some 0;
  pml = 5;
  allocations = some (page ∷ []);
  file_handles = some (file ∷ []);
}

abbrev other_process : Process
other_process = record {
  id = 1;
  task = some 1;
  pml = 12;
  allocations = some [];
  file_handles = some [];
}

abbrev two_processes : Kernel ℕ ℕ ℕ
two_processes = record {
  heap = 0x900000;
  tables = empty;
  files = one_open;
  tasks = two_tasks;
  processes = some (some running_process ∷ some other_process ∷ []);
  current_process = some 0;
}

in_slot :
    InSlot two_processes running_process other_process [] (some other_process ∷ []) (none ∷ []) []
in_slot = record { slots = refl; id = refl; others = refl; null = tt }

ends : Ends two_processes running_process (page ∷ []) (file ∷ []) [] 0 (1 ∷ []) 3
unfolding task_init
ends = record {
  given = refl;
  whole = (refl, omega arith, tt);
  tree = empty-IsTree 6 (omega arith);
  opened = refl;
  table = one_open-IsTable;
  has_task = refl;
  linked = (
    (record (task_init 0 none) { next = some 1 }, refl, refl, refl),
    ((record (task_init 1 none) { prev = some 0 }, refl, refl, refl), tt),
  );
  distinct = ((refl, tt), (tt, tt));
  head = refl;
}

process_terminate-Freed_example :
    (kernel' : Kernel ℕ ℕ ℕ) × (process_terminate counting_heap two_processes running_process
      ≡ ok (pos 0, kernel'))
    × (kernel'.processes ≡ some (none ∷ some other_process ∷ []))
    × (kernel'.current_process ≡ some 1)
    × IsTree kernel'.tables 5 3
    × IsTable kernel'.files
    × Closed 5 empty (page ∷ []) kernel'.tables
    × ClosedAll one_open (file ∷ []) kernel'.files
    × Freed two_tasks kernel'.tasks [] 0 (1 ∷ [])
process_terminate-Freed_example =
    process_terminate-Freed counting_heap two_processes running_process other_process []
      (some other_process ∷ []) (none ∷ []) [] (page ∷ []) (file ∷ []) [] 0 (1 ∷ []) 3 in_slot ends

found_file : process_file_handle_get (file ∷ []) (pos 1) ≡ some file
unfolding process_file_handle_get
found_file = refl

off_stack : process_is_stack_memory 0x100000 ≡ false
unfolding process_is_stack_memory
off_stack = refl

process_fread-Outside_example :
    (kernel' : Kernel ℕ ℕ ℕ) × (process_fread counting_heap two_processes running_process 0x100000 1
        512
        (pos 1)
      ≡ ok ((neg e_io, none), kernel'))
    × (kernel'.processes ≡ some (none ∷ some other_process ∷ []))
    × (kernel'.current_process ≡ some 1)
    × Freed two_tasks kernel'.tasks [] 0 (1 ∷ [])
process_fread-Outside_example =
    process_fread-Outside counting_heap two_processes running_process other_process []
      (some other_process ∷ []) (none ∷ []) [] (page ∷ []) (file ∷ []) [] 0 (1 ∷ []) 3 file 0x100000
      1 512 (pos 1) in_slot ends found_file off_stack (refl, tt)

abbrev none_open : Kernel ℕ ℕ ℕ
none_open = record two_processes { files = start }

process_fopen-process_fclose_example :
    (kernel' kernel'' : Kernel ℕ ℕ ℕ) × (process' process'' : Process) × (process_fopen
        counting_heap none_open other_process name reading
      ≡ ok (pos 1, kernel', process'))
    × (process'.file_handles ≡ some (record { address = 0x900000; fd = pos 1 } ∷ []))
    × (process_fclose counting_heap kernel' process' (pos 1) ≡ ok (pos 0, kernel'', process''))
    × (kernel''.files.descriptors ≡ replicate 512 none)
    × (process''.file_handles ≡ some [])
process_fopen-process_fclose_example =
    process_fopen-process_fclose counting_heap none_open other_process name reading counting root
      mode_read 4 [] (replicate 511 none) 0 1 1 [] 0x900000 0x901000 0x902000 0x901000 opening refl
      tt (omega arith) refl (unfold is_error in refl) refl refl tt
      (record {
        middle = 0x901000;
        handle = refl;
        handle_given = omega arith;
        place = refl;
        compared = refl;
        compared_given = omega arith;
      })
      (record {
        chars = 48 ∷ 58 ∷ 47 ∷ 97 ∷ [];
        rest = [];
        split = refl;
        no_nul = (refl, (refl, (refl, (refl, tt))));
        short = omega arith;
      })
      (record {
        chars = 114 ∷ [];
        rest = [];
        split = refl;
        no_nul = (refl, tt);
        short = omega arith;
      })
