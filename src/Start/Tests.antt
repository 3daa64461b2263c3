-- ===== src/Start/Tests.antt =====
-- A kernel started on a disk without a filesystem.
use liebe_os.Prelude.{◌+◌, ◌*◌, ◌≡◌, refl, none, some, false, []}
use liebe_os.Memory.{Memory}
use liebe_os.Heap.Kernel.{kheap_init}
use liebe_os.Interrupts.{returns}
use liebe_os.Process.Sample.{no_files, kernel}
use liebe_os.Start.{System, Image, set_up}
use liebe_os.Start.Setup.{IsUp, kheap_init-HasPages, set_up-IsUp}

abbrev image : Image Memory
image = record {
  tss_address = 0x10a000;
  interrupt_pointer_table = λ i. 0x110000 + 16 * i;
  int_0_handler = 0x105000;
  isr80h_wrapper = 0x106000;
  heap_table = λ j. 0xff;
  buffers = record { buf = 0x5ff000; filename = 0x5fe000; path = 0x5fd000; reach = 2000 };
  fat16 = no_files;
  resolve_heap = λ heap w. some heap;
  keyboard_handler = λ frame c. returns tt c;
}

abbrev system : System Memory
system = record {
  computer = record { kernel = kernel; terminal = record { video = λ i. 7; row = 9; col = 9 } };
  gdt = [];
  tss = record { esp0 = 0; ss0 = 0 };
  descriptors = λ i. record { offset_1 = 0; selector = 0; zero_ = 0; type_attr = 0; offset_2 = 0 };
  callbacks = λ i. none;
  commands = λ i. none;
  keyboards = [];
  page_directory = 0;
  paging_enabled = false;
}

set_up-IsUp_example :
    (s' : System Memory) × (set_up (λ w. w) (λ w m. m) 0x464c457f image system ≡ some s')
    × IsUp (λ w. w) (λ w m. m) 0x464c457f image system s'
set_up-IsUp_example =
    set_up-IsUp (λ w. w) (λ w m. m) 0x464c457f image system
      (kheap_init system.computer.kernel.loader.heap image.heap_table).1 refl refl
      (kheap_init-HasPages system.computer.kernel.loader.heap image.heap_table)
