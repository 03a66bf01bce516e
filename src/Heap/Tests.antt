-- ===== src/Heap/Tests.antt =====
-- The heap at concrete requests.
use myria.Base.{◌+◌, List, [], ◌∷◌}
use myria.Heap.{Heap, kernel_heap_start, kmalloc}
use myria.Heap.Layout.{Block, Layout}

abbrev start : Heap
start = record { simple_heap_ptr = 0 }

abbrev one : Heap
one = (kmalloc start 100).1

abbrev two : Heap
two = (kmalloc one 8192).1

abbrev blocks : List Block
blocks =
    record { addr = kernel_heap_start + 104; size = 8192 }
    ∷ record { addr = kernel_heap_start; size = 100 }
    ∷ []
