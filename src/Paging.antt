-- ===== src/Paging.antt =====
-- kernel/mem/utils.cc: the walk of the page tables that turns a linear address into a physical one. Physical
-- memory stands at the linear addresses from -512 GiB on; `read` gives the 8 bytes at a linear address, and cr3
-- the contents of that register. The texts that the code prints are left out.
pub mod BitOr
pub mod Walk
use os_projet.Common.{
  ℕ, zero, suc, ◌+◌, ◌-◌, ◌*◌, ◌/◌, ◌%◌, ◌^◌, max, Bool, true, false, not, ◌&&◌, ◌||◌, leb, ◌==◌,
  if◌then◌else◌,
}

pub data Status : Type 0 where
  ok : Status
  not_mapped : Status
  not_canonical : Status

-- `phmem_resolvant`.
pub record Resolvant : Type 0 where
  pub status : Status
  pub is_rw : Bool
  pub resolved : ℕ

-- The attributes of an entry.
abbrev pub is_present : ℕ → Bool
is_present content = content % 2 == 1

abbrev pub is_writable : ℕ → Bool
is_writable content = content / 2 % 2 == 1

abbrev pub is_large : ℕ → Bool
is_large content = content / 128 % 2 == 1

-- `content & address_mask`: the bits 12 to 51.
abbrev pub frame : ℕ → ℕ
frame content = content % 2 ^ 52 / 4096 * 4096

-- `a | b` on w bits.
abbrev pub bit_or : ℕ → ℕ → ℕ → ℕ
bit_or zero a b = 0
bit_or (suc w) a b = max (a % 2) (b % 2) + 2 * bit_or w (a / 2) (b / 2)

-- `((hl_page_table*)(table - 512 GiB))->entry[i]`.
abbrev pub entry : (ℕ → ℕ) → ℕ → ℕ → ℕ
entry read table i = read (((table + (2 ^ 64 - 2 ^ 39)) % 2 ^ 64 + 8 * i) % 2 ^ 64)

-- The comparisons of the address as a signed number with -2 ^ 48 and 2 ^ 48.
abbrev pub is_refused : ℕ → Bool
is_refused a =
    (leb (2 ^ 63) a && leb a (2 ^ 64 - 2 ^ 48)) || (not (leb (2 ^ 63) a) && leb (2 ^ 48) a)

unfoldable pub resolve_to_phmem : (ℕ → ℕ) → ℕ → ℕ → Resolvant
resolve_to_phmem read cr3 address =
    if is_refused address
    then record { status = not_canonical; is_rw = true; resolved = 2 ^ 64 - 1 }
    else let to_resolve = address % 2 ^ 48 in
      let val4 = entry read cr3 (to_resolve / 2 ^ 39 % 512) in
      let rw4 = is_writable val4 in
      if not (is_present val4)
      then record { status = not_mapped; is_rw = rw4; resolved = 2 ^ 64 - 1 }
      else let val3 = entry read (frame val4) (to_resolve / 2 ^ 30 % 512) in
        let rw3 = rw4 && is_writable val3 in
        if not (is_present val3)
        then record { status = not_mapped; is_rw = rw3; resolved = 2 ^ 64 - 1 }
        else let val2 = entry read (frame val3) (to_resolve / 2 ^ 21 % 512) in
          let rw2 = rw3 && is_writable val2 in
          if not (is_present val2)
          then record { status = not_mapped; is_rw = rw2; resolved = 2 ^ 64 - 1 }
          else if is_large val2
          then record {
            status = ok;
            is_rw = rw2;
            resolved = bit_or 64 (frame val2) (to_resolve % 2 ^ 21);
          }
          else let pt_entry = entry read (frame val2) (to_resolve / 2 ^ 12 % 512) in
            let rw1 = rw2 && is_writable pt_entry in
            if not (is_present pt_entry)
            then record { status = not_mapped; is_rw = rw1; resolved = 2 ^ 64 - 1 }
            else record {
              status = ok;
              is_rw = rw1;
              resolved = bit_or 64 (frame pt_entry) (to_resolve % 2 ^ 12);
            }
