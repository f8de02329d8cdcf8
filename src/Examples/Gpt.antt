-- ===== src/Examples/Gpt.antt =====
-- A partition of two blocks.
use os_projet.Common.{◌≡◌, inl, arith, [], ◌∷◌}
use os_projet.Cstring.Memory.{Bytes}
use os_projet.Gpt.{Partition, back, limit, seek_start, seek_cur, seek_end, write_all}
use os_projet.Gpt.Window.{Inside, write_all-inside, seek-Inside}

abbrev part : Partition
part = record { start_lba = 10; end_lba = 11; blk_size = 512; offset = 1022 }

abbrev blank : Bytes
blank x = 0

write_all-inside_example : write_all (7 ∷ 8 ∷ 9 ∷ []) part blank 100 ≡ blank 100
write_all-inside_example =
    write_all-inside (7 ∷ 8 ∷ 9 ∷ []) part blank 100 (omega arith) (omega arith) (omega arith)
      (unfold limit in omega arith) (omega arith) (inl (omega arith))

seek-Inside_example :
    Inside part (seek_start (back 3) part)
    × Inside part (seek_cur (back 3) part)
    × Inside part (seek_end (back 3) part)
seek-Inside_example = seek-Inside (back 3) part (unfold limit in omega arith)
