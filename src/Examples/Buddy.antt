-- ===== src/Examples/Buddy.antt =====
-- The buddy allocator on a block of two pages.
use os_projet.Common.{◌≡◌, refl, false, arith}
use os_projet.Mem.Buddy.{
  fresh, total_size, rank, no_room, mark_used, is_range_free, get_range, mmap, push_free, set_rank,
}
use os_projet.Mem.Buddy.View.{fresh-IsExact}
use os_projet.Mem.Buddy.Mark.{Takes, mark_used-Takes}
use os_projet.Mem.Buddy.Alloc.{Found, get_range-Found}
use os_projet.Mem.Buddy.Mmap.{Allocates, mmap-Allocates}

-- The second of two requests for a page gets the second page.
two_requests : (mmap 1 8192 4096 (mmap 1 8192 4096 (fresh 1)).1).0 ≡ 4096
unfolding mmap fresh get_range is_range_free mark_used push_free set_rank no_room rank total_size
two_requests = refl

mark_used-Takes_example : Takes (fresh 1) (mark_used 1 5000 3000 (fresh 1)) 5000 3000
mark_used-Takes_example =
    mark_used-Takes 1 5000 3000 (fresh 1) (omega arith) (fresh-IsExact 1) (omega arith)

room : no_room (rank (fresh 1)) 4096 ≡ false
unfolding no_room rank fresh total_size
room = refl

get_range-Found_example : Found (fresh 1) 4096 (get_range 1 4096 (fresh 1))
get_range-Found_example =
    get_range-Found 1 4096 (fresh 1) (omega arith) (fresh-IsExact 1) (omega arith) room

mmap-Allocates_example : Allocates (fresh 1) 4096 (mmap 1 4096 4096 (fresh 1))
mmap-Allocates_example =
    mmap-Allocates 1 4096 4096 (fresh 1) (omega arith) (fresh-IsExact 1) (omega arith) (omega arith)
      room
