-- ===== src/Process/Sample.antt =====
-- A small kernel on which the theorems are tried.
use liebe_os.Prelude.{some, none, Status, ok, err, ◌==◌, if◌then◌else◌}
use liebe_os.Memory.{Memory}
use liebe_os.Paging.Sample.{words}
use liebe_os.File.{Filesystem}
use liebe_os.Task.{no_registers}
use liebe_os.Process.Program.{Program, Kernel, process_init, filetype_binary}

-- A kernel with one process, at 0x500000 in the slot 3, on a filesystem without files.
abbrev pub no_files : Filesystem Memory
no_files = record {
  resolve = λ w disk. (err Status.eio, w);
  open_fn = λ w disk path mode. (err Status.eio, w);
  read_fn = λ w disk pvt size nmemb out. (err Status.eio, w);
  seek_fn = λ w pvt offset whence. (err Status.eio, w);
  stat_fn = λ w disk pvt. (err Status.eio, w);
  close_fn = λ w pvt. (ok tt, w);
}

abbrev pub shell : Program
shell = record process_init {
  id = 3;
  filetype = filetype_binary;
  ptr = 0x1001000;
  size = 6000;
  stack = 0x1008000;
}

abbrev pub kernel : Kernel Memory
kernel = record {
  loader = record {
    heap = record { saddr = 0x1000000; total = 8; entries = λ j. 0; below = λ n. 0 };
    files = record {
      filesystems = λ i. none;
      descriptors = λ i. none;
      disk_filesystem = some no_files;
      world = λ a. 0;
    };
  };
  words = words;
  tasks = record {
    task = λ a. record {
      page_directory = 0;
      registers = no_registers;
      process = 0;
      next = 0;
      prev = 0;
    };
    head = 0;
    tail = 0;
    current = 0;
    loaded = 0;
  };
  program = λ a. if a == 0x500000 then shell else process_init;
  slots = λ i. if i == 3 then 0x500000 else 0;
  current_process = 0;
}
