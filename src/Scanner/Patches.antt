-- ===== src/Scanner/Patches.antt =====
-- `Plat_WriteMemory` writes the patch and nothing else, and leaves the protection as it was.
use multi_addon_rss.Base.{
  Bool, Bool-cases, Bytes, List, Option, [], ap, arith, false, get_elem?, guard, if◌then◌else◌, inl,
  inr, length, ltb, none, refl, some, suc, sym, true, ℕ, ◌%◌, ◌&&◌, ◌*◌, ◌+◌, ◌-◌, ◌/◌, ◌<◌, ◌==◌,
  ◌>>=◌, ◌>>◌, ◌∙◌, ◌∷◌, ◌≡◌, ◌≤◌,
}
use multi_addon_rss.Scanner.Pages.{Process, Prot, Protect, copy_bytes, get_prot, plat_write_memory}

abbrev byte_or : ℕ → Option ℕ → ℕ
byte_or n none = n
byte_or n (some b) = b

-- The bytes with those of a patch from an address on.
abbrev pub patched : (ℕ → ℕ) → ℕ → Bytes → ℕ → ℕ
patched mem addr patch x =
    if ltb x addr then mem x else byte_or (mem x) (get_elem? patch (x - addr))

-- Whether a page has a byte of a range.
abbrev pub overlaps : ℕ → ℕ → ℕ → ℕ → Bool
overlaps page_size a n q = ltb a ((q + 1) * page_size) && ltb (q * page_size) (a + n)

-- `mprotect` sets the protection of the pages that have a byte of the range, which starts at a page.
abbrev pub ProtectsPages : Protect → ℕ → Type 0
ProtectsPages protect page_size =
    (a n : ℕ) (p : Prot) (pages : ℕ → Prot) (q : ℕ)
    → a % page_size ≡ 0
    → protect a n p pages q ≡ (if overlaps page_size a n q then p else pages q)

patched_cons :
    (mem : ℕ → ℕ) (addr b : ℕ) (bs : Bytes) (x : ℕ)
    → patched (λ x. if x == addr then b else mem x) (addr + 1) bs x ≡ patched mem addr (b ∷ bs) x
patched_cons mem addr b bs x = elim (Bool-cases (ltb x addr)) [
  | inl e ↦ ground arith
  | inr e ↦ elim (Bool-cases (x == addr)) [
    | inl k ↦
        let here : x - addr ≡ 0 = ground arith in
        let first : byte_or (mem x) (get_elem? (b ∷ bs) (x - addr)) ≡ b =
          ap (λ i. byte_or (mem x) (get_elem? (b ∷ bs) i)) here in
        ground (arith, first)
    | inr k ↦
        let behind : x - addr ≡ suc (x - (addr + 1)) = ground arith in
        let more : byte_or (mem x) (get_elem? (b ∷ bs) (x - addr))
            ≡ byte_or (mem x) (get_elem? bs (x - (addr + 1))) =
          ap (λ i. byte_or (mem x) (get_elem? (b ∷ bs) i)) behind in
        ground (arith, more)
  ]
]

page_low : (x n : ℕ) → 0 < n → x / n * n ≤ x
page_low x n h = grind arith

page_high : (x n : ℕ) → 0 < n → x < (x / n + 1) * n
page_high x n h = grind arith

aligned : (x n : ℕ) → 0 < n → (x - x % n) % n ≡ 0
aligned x n h = grind arith

-- Every byte of a range lies in a page that is writable.
abbrev IsWritable : ℕ → (ℕ → Prot) → ℕ → ℕ → Type 0
IsWritable page_size pages addr n =
    (x : ℕ) → addr ≤ x → x < addr + n → (pages (x / page_size)).writable ≡ true

copy_bytes_lem :
    (page_size addr : ℕ) (patch : Bytes) (proc : Process)
    → IsWritable page_size proc.pages addr (length patch)
    → (copied : Process) × (copy_bytes page_size addr patch proc ≡ some copied)
      × (copied.pages ≡ proc.pages)
      × ((x : ℕ) → copied.bytes x ≡ patched proc.bytes addr patch x)
unfolding copy_bytes
copy_bytes_lem page_size addr [] proc w = (proc, refl, refl, λ x. ground arith)
copy_bytes_lem page_size addr (b ∷ bs) proc w =
    let next = record proc { bytes = λ x. if x == addr then b else proc.bytes x } in
    let (copied, e, p, q) =
      copy_bytes_lem page_size (addr + 1) bs next
        (λ x l h. w x (omega (arith, l)) (omega (arith, h))) in
    (
      copied,
      ap (λ k. guard k >> copy_bytes page_size (addr + 1) bs next)
            (w addr (omega arith) (omega arith))
          ∙ e,
      p,
      λ x. q x ∙ patched_cons proc.bytes addr b bs x,
    )

inside_page :
    (a addr n first behind x : ℕ)
    → a ≤ addr
    → addr ≤ x
    → x < addr + n
    → first ≤ x
    → x < behind
    → (ltb a behind && ltb first (a + (addr + n - a))) ≡ true
inside_page a addr n first behind x p q r s t = ground arith

module _ (protect : Protect) (page_size : ℕ) where
  protected-IsWritable :
      (p : Prot) (pages : ℕ → Prot) (addr n : ℕ)
      → ProtectsPages protect page_size
      → 0 < page_size
      → p.writable ≡ true
      → IsWritable page_size
          (protect (addr - addr % page_size) (addr + n - (addr - addr % page_size)) p pages)
          addr
          n
  protected-IsWritable p pages addr n law pos w x low high =
      let a = addr - addr % page_size in
      let e = law a (addr + n - a) p pages (x / page_size) (aligned addr page_size pos) in
      let l = page_low x page_size pos in
      let h = page_high x page_size pos in
      let inside : overlaps page_size a (addr + n - a) (x / page_size) ≡ true =
        inside_page a addr n _ _ x (omega arith) low high l h in
      ap (λ (p : Prot). p.writable) (e ∙ ap (λ b. if b then p else pages (x / page_size)) inside)
      ∙ w

  -- Where `mprotect` sets the pages of its range, and all pages that a patch touches have the
  -- protection that `get_prot` reads, `Plat_WriteMemory` succeeds, writes the bytes of the patch and
  -- no other, and leaves the protection of every page as it was.
  pub plat_write_memory_restores :
      (lines : List Bytes) (addr : ℕ) (patch : Bytes) (proc : Process) (old_prot : Prot)
      → ProtectsPages protect page_size
      → 0 < page_size
      → get_prot lines addr (length patch) ≡ some old_prot
      → ((q : ℕ)
          → overlaps page_size
              (addr - addr % page_size)
              (addr + length patch - (addr - addr % page_size))
              q
            ≡ true
          → proc.pages q ≡ old_prot)
      → (after : Process) × (plat_write_memory protect page_size lines addr patch proc ≡ some after)
        × ((x : ℕ) → after.bytes x ≡ patched proc.bytes addr patch x)
        × ((q : ℕ) → after.pages q ≡ proc.pages q)
  unfolding plat_write_memory
  plat_write_memory_restores lines addr patch proc old_prot law pos e same =
      let a = addr - addr % page_size in
      let n = addr + length patch - a in
      let read_write : Prot = record { readable = true; writable = true; executable = false } in
      let opened = record proc { pages = protect a n read_write proc.pages } in
      let (copied, k, p, q) =
        copy_bytes_lem page_size addr patch opened
          (protected-IsWritable read_write proc.pages addr (length patch) law pos refl) in
      let after = record copied { pages = protect a n old_prot copied.pages } in
      (
        after,
        ap
              (λ o. o >>= λ old. copy_bytes page_size addr patch opened >>= λ c.
                some (record c { pages = protect a n old c.pages }))
              e
            ∙ ap
                (λ (o : Option Process).
                  o >>= λ c. some (record c { pages = protect a n old_prot c.pages }))
                k,
        q,
        λ page.
            let first = law a n read_write proc.pages page (aligned addr page_size pos) in
            let last = law a n old_prot copied.pages page (aligned addr page_size pos) in
            elim (Bool-cases (overlaps page_size a n page)) [
              | inl o ↦
                  last ∙ ap (λ b. if b then old_prot else copied.pages page) o ∙ sym (same page o)
              | inr o ↦
                  last
                  ∙ ap (λ b. if b then old_prot else copied.pages page) o
                  ∙ ap (λ (f : ℕ → Prot). f page) p
                  ∙ first
                  ∙ ap (λ b. if b then read_write else proc.pages page) o
            ],
      )
