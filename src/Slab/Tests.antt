-- ===== src/Slab/Tests.antt =====
-- The allocator at concrete states.
use prismio.Base.{◌+◌, ◌<◌, ◌≤◌, ◌≡◌, ◌==◌, refl, false, some, [], ◌∷◌, arith, if◌then◌else◌}
use prismio.Base.Count.{one_if}
use prismio.Slab.{
  Bin, Shared, unused, ready, Slab, Os, copy, pop, base_alloc, base_realloc, free, thread_flush,
  carve, classes, class_of, block_size,
}
use prismio.Slab.Stock.{IsWindow, in_stock}
use prismio.Slab.Laws.{
  in_cache, pop-takes_stock, free-adds_block, thread_flush-gives_back, free-base_alloc,
}
use prismio.Slab.Window.{class_of-fits, Fresh, carve-Fresh}

abbrev os : Os
os = record { switched_off = false; mmap = some 1048576; malloc = 77; realloc = 78 }

abbrev no_bin : Bin
no_bin = record { head = []; count = 0; cur = 0; stop = 0 }

abbrev no_shared : Shared
no_shared = record { batches = []; loose = []; loose_n = 0; bump = 0; limit = 0 }

abbrev unborn : Slab
unborn = record {
  base = 0;
  span = 0;
  status = unused;
  threads = false;
  bins = λ cache c. no_bin;
  shared = λ c. no_shared;
  span_class = λ i. 0;
  span_next = 0;
  tls_used = λ cache. false;
}

-- Two blocks of 40 bytes from a fresh reservation: class 2 of 48 bytes, 2176 bytes into the span.
first_block : (base_alloc os unborn 0 40).0 ≡ 1050752
unfolding base_alloc
first_block = refl

second_block : (base_alloc os (base_alloc os unborn 0 40).1 0 48).0 ≡ 1050800
unfolding base_alloc
second_block = refl

too_large : (base_alloc os unborn 0 513).0 ≡ 77
unfolding base_alloc
too_large = refl

-- Class 1, 32 bytes: a block freed, two in the window, a batch and a leftover on the shared list.
abbrev slab : Slab
slab = record {
  base = 1048576;
  span = 68719476736;
  status = ready;
  threads = false;
  bins = λ cache c.
      if c == 1
      then record { head = 1050688 ∷ []; count = 1; cur = 1050720; stop = 1050784 }
      else no_bin;
  shared = λ c. record {
    batches = (1049664, 1049696 ∷ []) ∷ [];
    loose = 1049728 ∷ [];
    loose_n = 1;
    bump = 1057856;
    limit = 1114112;
  };
  span_class = λ i. 1;
  span_next = 1114112;
  tls_used = λ cache. false;
}

slab-IsWindow : IsWindow 1 (slab.bins 0 1)
slab-IsWindow = record { left = 2; stop_eq = refl }

moves : (base_realloc os slab 0 1049760 100).1 ≡ copy 1049760 (base_alloc os slab 0 100).0 32 ∷ []
unfolding base_realloc
moves = refl

stays : (base_realloc os slab 0 1049760 30).0 ≡ 1049760
unfolding base_realloc
stays = refl

pop-takes_stock_example :
    one_if (pop os slab 0 1).0 1050688 + in_stock 1050688 (pop os slab 0 1).1 0 1
    ≡ in_stock 1050688 slab 0 1
pop-takes_stock_example = pop-takes_stock os slab 0 1 1050688 refl slab-IsWindow refl

free-adds_block_example :
    in_stock 1049760 (free slab 0 1049760).1 0 1
    ≡ one_if 1049760 1049760 + in_stock 1049760 slab 0 1
free-adds_block_example = free-adds_block slab 0 1049760 1049760 (omega arith) refl

thread_flush-gives_back_example :
    (in_cache 1050720 (thread_flush slab 3) 3 1 ≡ 0)
    × (in_stock 1050720 (thread_flush slab 3) 3 1 ≡ in_stock 1050720 slab 3 1)
thread_flush-gives_back_example = thread_flush-gives_back 1050720 slab 3 1 (omega arith)

free-base_alloc_example : (base_alloc os (free slab 0 1049760).1 0 25).0 ≡ 1049760
free-base_alloc_example =
    free-base_alloc os slab 0 1049760 25 (omega arith) refl refl (omega arith) (omega arith) refl

carve-Fresh_example : Fresh 1057856 slab 0 5 (carve os slab 0 5)
carve-Fresh_example = carve-Fresh os slab 0 5 1057856 (omega arith) (omega arith)

class_of-fits_example :
    (class_of 33 < classes) × (33 ≤ block_size (class_of 33)) × (block_size (class_of 33) < 33 + 16)
class_of-fits_example = class_of-fits 33 (omega arith) (omega arith)
