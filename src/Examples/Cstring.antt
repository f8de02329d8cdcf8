-- ===== src/Examples/Cstring.antt =====
-- The string functions on a memory that holds "ab" at 10 and "b" at 20.
use os_projet.Common.{◌+◌, ◌-◌, ◌≡◌, refl, if◌then◌else◌, ◌==◌, arith, inl, inr, some}
use os_projet.Cstring.{memcpy, memmove, strlen, strstr}
use os_projet.Cstring.Memory.{Bytes, IsBytes, IsString}
use os_projet.Cstring.Block.{inside, memcpy_lem, memmove_lem}
use os_projet.Cstring.Text.{strlen_lem, Stops}
use os_projet.Cstring.Search.{First, strstr-First}

abbrev text : Bytes
text x =
    if x == 10
    then 97
    else if x == 11
    then 98
    else if x == 20
    then 98
    else if x == 30
    then 225
    else 0

text-IsBytes : IsBytes text
text-IsBytes x = ground arith

ab : IsString text 10 2
ab = record { body = λ i hi. ground arith; ended = refl }

b : IsString text 20 1
b = record { body = λ i hi. ground arith; ended = refl }

apart : Stops text 11 20 1
apart = record { before = λ j hj. ground arith; here = inr (refl, refl) }

memcpy_lem_example :
    memcpy 2 text 20 10 21 ≡ (if inside 20 2 21 then text (10 + (21 - 20)) else text 21)
memcpy_lem_example = memcpy_lem 2 text 20 10 21 (inr (omega arith))

memmove_lem_example :
    memmove 2 text 11 10 12 ≡ (if inside 11 2 12 then text (10 + (12 - 11)) else text 12)
memmove_lem_example =
    memmove_lem 2 text 11 10 12 (omega arith) (omega arith) (inl (omega arith, omega arith))

strlen_lem_example : strlen 5 text 10 ≡ some 2
strlen_lem_example = strlen_lem 5 2 text 10 ab (omega arith)

strstr-First_example : First text 1 10 20 2 (strstr 5 text 10 20)
strstr-First_example = strstr-First 5 2 1 text 10 20 text-IsBytes ab b (omega arith) (omega arith)
