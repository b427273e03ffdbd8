-- ===== src/Scanner.antt =====
-- The scans of a loaded module's memory, in src/utils/module.h: a byte string in the window of a
-- section, and a section by its name. Memory is a byte for each address.
pub mod Search
pub mod Ends
pub mod Tables
pub mod UnixTables
pub mod WindowsTables
pub mod Unix
pub mod Windows
pub mod Modules
pub mod Pages
pub mod Patches
pub mod Sections
pub mod Protections
mod Tests
use multi_addon_rss.Base.{
  Bool, Bytes, List, Option, [], equal, false, if◌then◌else◌, none, some, suc, true, zero, ℕ, ◌%◌,
  ◌&&◌, ◌+◌, ◌-◌, ◌/◌, ◌==◌, ◌^◌, ◌||◌, ◌∷◌,
}

abbrev pub Memory : Type 0
Memory = ℕ → ℕ

-- `Section`
pub record Section : Type 0 where
  pub name : Bytes
  pub section_base : ℕ
  pub section_size : ℕ

-- `SignatureIterator`. Every signature of the program has at least one byte.
pub record SignatureIterator : Type 0 where
  pub base : ℕ
  pub size : ℕ
  pub signature : Bytes
  pub current : ℕ

abbrev pub new_iterator : ℕ → ℕ → Bytes → SignatureIterator
new_iterator base size signature = record {
  base = base;
  size = size;
  signature = signature;
  current = base;
}

-- The inner loop of `FindNext`: the bytes from an address on against what is left of the signature,
-- in which `*` stands for any byte where wildcards are allowed.
unfoldable pub matches_at : Memory → Bool → ℕ → Bytes → Bool
matches_at mem wild p [] = true
matches_at mem wild p (b ∷ bs) =
    ((mem p == b) || (wild && (b == 42))) && matches_at mem wild (p + 1) bs

-- The outer loop, for `n` addresses from `p` on.
unfoldable pub scan : Memory → Bool → Bytes → ℕ → ℕ → Option ℕ
scan mem wild bs p zero = none
scan mem wild bs p (suc n) =
    let rest = scan mem wild bs (p + 1) n in if matches_at mem wild p bs then some p else rest

-- What `FindNext` returns, and where it goes on.
abbrev pub advance : SignatureIterator → Option ℕ → Option ℕ × SignatureIterator
advance it none = (none, it)
advance it (some p) = (some p, record it { current = p + 1 })

-- `FindNext`
unfoldable pub find_next : Memory → Bool → SignatureIterator → Option ℕ × SignatureIterator
find_next mem wild it = advance it (scan mem wild it.signature it.current it.size)

-- `GetSection`
unfoldable pub get_section : List Section → Bytes → Option Section
get_section [] name = none
get_section (s ∷ ss) name =
    let rest = get_section ss name in if equal s.name name then some s else rest

-- The first match of a signature in a section.
abbrev pub find_first : Memory → Section → Bytes → Option ℕ
find_first mem s bs = (find_next mem false (new_iterator s.section_base s.section_size bs)).0

-- The bytes of a word in memory, the low one first.
abbrev pub word_bytes : ℕ → ℕ → Bytes
word_bytes zero n = []
word_bytes (suc k) n = n % 256 ∷ word_bytes k (n / 256)

-- `*(int64_t *)p == n` and `*(int32_t *)p == n`, for a word of `k` bytes.
abbrev pub holds_word : Memory → ℕ → ℕ → ℕ → Bool
holds_word mem k p n = matches_at mem false p (word_bytes k n)

-- Addresses are 64 bits wide.
abbrev pub back : ℕ → ℕ → ℕ
back p k = (p + 2 ^ 64 - k) % 2 ^ 64

abbrev pub forward : ℕ → ℕ → ℕ
forward p k = (p + k) % 2 ^ 64

-- A search on a fuel: `none` where the fuel runs out, and `some none` where nothing is found. It
-- fails where a part is missing, and goes on with what is found.
abbrev pub if_found {ℓ} : {A : Type ℓ} → Option A → (A → Option (Option ℕ)) → Option (Option ℕ)
if_found none f = some none
if_found (some a) f = f a

-- A search that is followed by another where it finds nothing.
abbrev pub or_else : Option (Option ℕ) → Option (Option ℕ) → Option (Option ℕ)
or_else none rest = none
or_else (some none) rest = rest
or_else (some (some p)) rest = some (some p)
