-- ===== src/Paging/Tests.antt =====
-- A page directory with its tables behind it.
use liebe_os.Prelude.{◌≡◌, refl, arith, some}
use liebe_os.Heap.{Heap, is_taken}
use liebe_os.Heap.Alloc.{IsSound}
use liebe_os.Paging.{create_new_page_directory, paging_free_4gb}
use liebe_os.Paging.Release.{paging_free_4gb-create_new_page_directory}
use liebe_os.Paging.Identity.{IsIdentity, create_new_page_directory-IsIdentity}

abbrev fresh_heap : Heap
fresh_heap = record { saddr = 0x1000000; total = 2000; entries = λ j. 0; below = λ n. 0 }

fresh_heap-IsSound : IsSound fresh_heap
fresh_heap-IsSound = record {
  starts = omega arith;
  fits = omega arith;
  small = omega arith;
  clean = λ j lt open_. refl;
}

create_new_page_directory-IsIdentity_example :
    IsIdentity
      (create_new_page_directory fresh_heap (λ a. 7) 7).1
      (create_new_page_directory fresh_heap (λ a. 7) 7).2
      (create_new_page_directory fresh_heap (λ a. 7) 7).0
      7
unfolding is_taken
create_new_page_directory-IsIdentity_example =
    create_new_page_directory-IsIdentity fresh_heap (λ a. 7) 7 fresh_heap-IsSound refl (omega arith)
      (3, omega arith, λ j lo hi. refl)

paging_free_4gb-create_new_page_directory_example :
    paging_free_4gb
      (create_new_page_directory fresh_heap (λ a. 7) 7).1
      (create_new_page_directory fresh_heap (λ a. 7) 7).2
      (create_new_page_directory fresh_heap (λ a. 7) 7).0
    ≡ some fresh_heap
unfolding is_taken
paging_free_4gb-create_new_page_directory_example =
    paging_free_4gb-create_new_page_directory fresh_heap (λ a. 7) 7 fresh_heap-IsSound refl
      (omega arith) (3, omega arith, λ j lo hi. refl)
