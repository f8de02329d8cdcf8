-- ===== src/Examples/PhTree.antt =====
-- The page allocator on a tree of 256 pages.
use os_projet.Common.{ℕ, ◌*◌, ◌≡◌, refl, arith}
use os_projet.Mem.PhTree.{
  Tree, fresh, get_page, release_page, mark_used, isfull, child_size, child_span,
}
use os_projet.Mem.PhTree.View.{pages, fresh-IsCoherent}
use os_projet.Mem.PhTree.Get.{Gets, get_page-Gets}
use os_projet.Mem.PhTree.Release.{Releases, release_page-Releases}
use os_projet.Mem.PhTree.Mark.{Marks, mark_used-Marks}

small : Tree 1
unfolding fresh
small = fresh 1

-- After the kernel image and the first pages are marked, the next page is handed out.
get_page_after_mark : (get_page (mark_used 0 300000 small)).0 ≡ 74 * 4096
unfolding small get_page mark_used child_size child_span
get_page_after_mark = refl

get_page-Gets_example : (k : ℕ) × Gets (fresh 1) (get_page (fresh 1)) k
unfolding fresh isfull
get_page-Gets_example = get_page-Gets (fresh 1) (omega arith) (fresh-IsCoherent 1) refl

release_page-Releases_example : Releases (fresh 1) (release_page 8192 (fresh 1)) 2
unfolding pages
release_page-Releases_example =
    release_page-Releases 8192 (fresh 1) (fresh-IsCoherent 1) (omega arith)

mark_used-Marks_example : Marks (fresh 1) (mark_used 5000 300000 (fresh 1)) 1 73
mark_used-Marks_example = mark_used-Marks 5000 300000 (fresh 1) (fresh-IsCoherent 1) (omega arith)
