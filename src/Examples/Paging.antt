-- ===== src/Examples/Paging.antt =====
-- The walk of kernel/mem/utils.cc with a table of each level down to a large page.
use os_projet.Common.{ℕ, ◌≡◌, refl, true, ◌+◌, ◌*◌, ◌%◌, ◌^◌, ◌==◌, if◌then◌else◌, ap, arith}
use os_projet.Paging.{resolve_to_phmem, ok}
use os_projet.Paging.Walk.{IsWindow, IsPlain, resolve_to_phmem-walk, resolve_to_phmem-offset}

-- A table of each level from 4096 on, and a page of 2 MiB at the third place.
abbrev memory : ℕ → ℕ
memory p = if p == 12288 then 3 * 2097152 + 131 else p + 4096 + 3

abbrev tables : ℕ → ℕ
tables a = memory ((a + 2 ^ 39) % 2 ^ 64)

tables-IsWindow : IsWindow memory tables
tables-IsWindow p lt = ap memory (omega (arith, lt))

tables-IsPlain : IsPlain memory 4096 (74565 % 2 ^ 48)
tables-IsPlain = record { only_table = refl; no_giant = refl; no_kind = λ large. refl }

resolve_to_phmem-walk_example :
    resolve_to_phmem tables 4096 74565
    ≡ record { status = ok; is_rw = true; resolved = 3 * 2097152 + 74565 }
resolve_to_phmem-walk_example =
    resolve_to_phmem-walk memory tables 4096 74565 tables-IsWindow refl tables-IsPlain

is_mapped : (resolve_to_phmem tables 4096 74565).status ≡ ok
unfolding resolve_to_phmem
is_mapped = refl

resolve_to_phmem-offset_example : (resolve_to_phmem tables 4096 74565).resolved % 4096 ≡ 837
resolve_to_phmem-offset_example = resolve_to_phmem-offset tables 4096 74565 is_mapped
