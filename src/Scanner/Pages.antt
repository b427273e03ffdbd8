-- ===== src/Scanner/Pages.antt =====
-- The protection of memory pages around a patch, in src/utils/plat_unix.cpp: `parse_prot`,
-- `get_prot` and `Plat_WriteMemory`. The lines are those of /proc/self/maps as `fgets` reads them.
use multi_addon_rss.Base.{
  Bool, Bytes, List, Option, [], false, guard, if◌then◌else◌, leb, length, ltb, none, some, true, ℕ,
  ◌%◌, ◌&&◌, ◌*◌, ◌+◌, ◌-◌, ◌/◌, ◌==◌, ◌>>=◌, ◌>>◌, ◌||◌, ◌∷◌,
}

-- The bits `PROT_READ`, `PROT_WRITE` and `PROT_EXEC`.
pub record Prot : Type 0 where
  pub readable : Bool
  pub writable : Bool
  pub executable : Bool

abbrev pub prot_none : Prot
prot_none = record { readable = false; writable = false; executable = false }

-- One character of `parse_prot`.
abbrev pub add_prot : ℕ → Prot → Prot
add_prot c prot =
    if c == 114
    then record prot { readable = true }
    else if c == 119
    then record prot { writable = true }
    else if c == 120
    then record prot { executable = true }
    else prot

-- `parse_prot`, from the bits so far.
unfoldable pub parse_prot_from : Prot → Bytes → Prot
parse_prot_from prot [] = prot
parse_prot_from prot (c ∷ s) = parse_prot_from (add_prot c prot) s

abbrev pub parse_prot : Bytes → Prot
parse_prot s = parse_prot_from prot_none s

-- `isspace`
abbrev pub is_space : ℕ → Bool
is_space c = c == 32 || (leb 9 c && leb c 13)

abbrev pub is_dash : ℕ → Bool
is_dash c = c == 45

-- A loop that copies up to a character, and the step over it: what is copied, and what is left. The
-- loop would run over the end of a text that has none.
unfoldable pub copy_until : (ℕ → Bool) → Bytes → Option (Bytes × Bytes)
copy_until stop [] = none
copy_until stop (c ∷ s) =
    let rest = copy_until stop s in
    if stop c then some ([], s) else (rest >>= λ (text, left). some (c ∷ text, left))

-- A text that fits a buffer of 16 bytes with its terminator.
abbrev pub in_buffer : Bytes → Option (Unit {0})
in_buffer text = guard (ltb (length text) 16)

-- The fields of a line of the map: `none` where the code would leave the line or a buffer.
unfoldable pub map_fields : Bytes → Option (Bytes × Bytes × Bytes)
map_fields line = copy_until is_dash line >>= λ (start, behind_start).
    in_buffer start
    >> (copy_until is_space behind_start >>= λ (end_text, behind_end).
        in_buffer end_text
        >> (copy_until is_space behind_end >>= λ (prot, behind_prot).
            in_buffer prot >> some (start, end_text, prot)))

-- A hexadecimal digit, and `strtoul` in base 16 of a text of at most 15 digits.
unfoldable pub hex_digit : ℕ → Option ℕ
hex_digit c =
    if leb 48 c && leb c 57
    then some (c - 48)
    else if leb 97 c && leb c 102
    then some (c - 87)
    else if leb 65 c && leb c 70
    then some (c - 55)
    else none

unfoldable pub hex_value_from : ℕ → Bytes → ℕ
hex_value_from n [] = n
hex_value_from n (c ∷ s) = elim (hex_digit c) [ none ↦ n | some d ↦ hex_value_from (n * 16 + d) s ]

abbrev pub hex_value : Bytes → ℕ
hex_value s = hex_value_from 0 s

-- `get_prot`: the bits of the first mapping that lies around the range, and no bits without one.
unfoldable pub get_prot : List Bytes → ℕ → ℕ → Option Prot
get_prot [] addr size = some prot_none
get_prot (line ∷ lines) addr size =
    let rest = get_prot lines addr size in
    map_fields line >>= λ (start, end_text, prot).
    if ltb (hex_value start) addr && ltb (addr + size) (hex_value end_text)
    then some (parse_prot prot)
    else rest

-- The memory of the process: its bytes, and the protection of each page.
pub record Process : Type 0 where
  pub bytes : ℕ → ℕ
  pub pages : ℕ → Prot

-- `mprotect` on the pages, for an address, a size and the protection.
abbrev pub Protect : Type 0
Protect = ℕ → ℕ → Prot → (ℕ → Prot) → ℕ → Prot

-- `memcpy` to an address, which faults where a byte is in a page that is not writable.
unfoldable pub copy_bytes : ℕ → ℕ → Bytes → Process → Option Process
copy_bytes page_size addr [] proc = some proc
copy_bytes page_size addr (b ∷ bs) proc =
    guard (proc.pages (addr / page_size)).writable
    >> copy_bytes page_size (addr + 1) bs
        (record proc { bytes = λ x. if x == addr then b else proc.bytes x })

-- `Plat_WriteMemory` on Linux. The page size is a power of 2, so that the mask cuts the remainder.
unfoldable pub plat_write_memory : Protect → ℕ → List Bytes → ℕ → Bytes → Process → Option Process
plat_write_memory protect page_size lines addr patch proc =
    let align_addr = addr - addr % page_size in
    let align_size = addr + length patch - align_addr in
    let read_write : Prot = record { readable = true; writable = true; executable = false } in
    get_prot lines addr (length patch) >>= λ old_prot.
    copy_bytes page_size addr patch
      (record proc { pages = protect align_addr align_size read_write proc.pages })
    >>= λ copied.
        some (record copied { pages = protect align_addr align_size old_prot copied.pages })
