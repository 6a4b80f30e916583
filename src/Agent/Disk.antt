-- ===== src/Agent/Disk.antt =====
-- Where `imageAction.do` of pkg/agent/action/image.go puts the partition for cloud-init. The partition
-- tables are those of go-diskfs, of which an entry is used or not; `size` is the size of the disk in
-- bytes and `sector` that of a sector.
use kube_baremetal.Prelude.{
  any, ap, false, ℕ, ◌+◌, ◌-◌, ◌/◌, ◌%◌, ◌^◌, ◌≡◌, refl, Bool, true, List, [], ◌∷◌, length, leb,
  keep_if, if◌then◌else◌, arith, ◌++◌, ◌∙◌,
}
use kube_baremetal.Client.{Exec, failure, completed, panicked, pure, fail, panic}

-- 64 MB
abbrev pub cloud_init_size : ℕ
cloud_init_size = 67108864

-- `a - b` on unsigned integers of `w` bits.
abbrev sub_wrap : ℕ → ℕ → ℕ → ℕ
sub_wrap w a b = (a + 2 ^ w - b) % 2 ^ w

-- The sectors of the partition.
abbrev pub cloud_init_sectors : ℕ → ℕ
cloud_init_sectors sector = cloud_init_size / sector

-- `cloudInitStart` of a GPT: 33 sectors are left for the table at the end of the disk.
unfoldable pub gpt_start : ℕ → ℕ → ℕ
gpt_start size sector =
    sub_wrap 64 (sub_wrap 64 (size / sector % 2 ^ 64) (cloud_init_sectors sector)) 33

-- `cloudInitStart` of an MBR, in 32 bits.
unfoldable pub mbr_start : ℕ → ℕ → ℕ
mbr_start size sector = sub_wrap 32 (size / sector % 2 ^ 32) (cloud_init_sectors sector)

-- `lastUsedParition + 1`, from the index `i` on; an entry is true where it is used.
unfoldable pub after_last : ℕ → ℕ → List Bool → ℕ
after_last i last [] = last
after_last i last (used ∷ rest) = after_last (i + 1) (if used then i + 1 else last) rest

-- The index of the new partition: the test for a full table, and the index out of range.
unfoldable pub gpt_index : List Bool → Exec ℕ
unfolding after_last
gpt_index entries =
    let next = after_last 0 0 entries in
    if leb (length entries + 1) next
    then fail (failure "gpt partition table is full")
    else if leb (length entries) next
    then panic
    else pure next

-- The used entries of an MBR and the new one, unless there are four.
unfoldable pub mbr_count : List Bool → Exec ℕ
mbr_count entries =
    let kept = length (keep_if (λ used. used) entries) in
    if leb 4 kept
    then fail (failure "mbr partition table already has 4 partitions")
    else pure (kept + 1)

after_last-append :
    (entries : List Bool) (i last : ℕ)
    → after_last i last (entries ++ true ∷ []) ≡ i + length entries + 1
unfolding after_last
after_last-append [] i last = omega arith
after_last-append (used ∷ rest) i last =
    after_last-append rest (i + 1) (if used then i + 1 else last) ∙ omega arith

length-append : (entries : List Bool) → length (entries ++ true ∷ []) ≡ length entries + 1
length-append [] = refl
length-append (used ∷ rest) = omega (arith, length-append rest)

-- Where the last entry of a GPT is used, the action panics with an index out of range, and does not
-- return the error that the table is full.
pub gpt_index-full : (entries : List Bool) → (gpt_index (entries ++ true ∷ [])).0 ≡ panicked
unfolding gpt_index
gpt_index-full entries = ground (arith, after_last-append entries 0 0, length-append entries)

after_last-split :
    (front back : List Bool) (i last : ℕ)
    → after_last i last (front ++ back)
      ≡ after_last (i + length front) (after_last i last front) back
unfolding after_last
after_last-split [] back i last = ap (λ j. after_last j last back) (omega arith)
after_last-split (used ∷ front) back i last =
    after_last-split front back (i + 1) (if used then i + 1 else last)
    ∙ ap (λ j. after_last j (after_last (i + 1) (if used then i + 1 else last) front) back)
        (omega arith)

after_last-unused :
    (rest : List Bool) (i last : ℕ)
    → any (λ used. used) rest ≡ false
    → after_last i last rest ≡ last
unfolding after_last
after_last-unused [] i last unused = refl
after_last-unused (true ∷ rest) i last unused = absurd cc
after_last-unused (false ∷ rest) i last unused = after_last-unused rest (i + 1) last unused

length-split : (front back : List Bool) → length (front ++ back) ≡ length front + length back
length-split [] back = omega arith
length-split (used ∷ front) back = omega (arith, length-split front back)

-- Where entries follow the last one that is used, the partition for cloud-init takes the first of
-- them.
pub gpt_index-unused :
    (front rest : List Bool)
    → any (λ used. used) rest ≡ false
    → (gpt_index ((front ++ true ∷ []) ++ false ∷ rest)).0 ≡ completed (length front + 1)
unfolding gpt_index
gpt_index-unused front rest unused =
    let next : after_last 0 0 ((front ++ true ∷ []) ++ false ∷ rest) ≡ length front + 1 =
      after_last-split (front ++ true ∷ []) (false ∷ rest) 0 0
      ∙ after_last-unused (false ∷ rest) _ _ unused
      ∙ after_last-append front 0 0
      ∙ omega arith in
    ground (arith, next, length-split (front ++ true ∷ []) (false ∷ rest), length-append front)
