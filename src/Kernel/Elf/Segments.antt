-- ===== src/Kernel/Elf/Segments.antt =====
-- What the memory holds when a program has been loaded.
use os_shell.Common.{
  ℕ, ◌+◌, ◌-◌, ◌≤◌, ◌≡◌, ◌⊎◌, refl, some, List, [], ◌∷◌, ◌++◌, arith, ap, ap₂, take_all, sym, ◌∙◌,
  length, length-replicate, replicate, min, le→ltb, ◌==◌, Bool-cases, inl, inr, All,
}
use os_shell.Common.Text.{bytes_at, store}
use os_shell.Common.Memory.{bytes_at-store_self, bytes_at-store_apart, bytes_at-append}
use os_shell.Kernel.BlockIo.{BlockIo, IsDevice}
use os_shell.Kernel.BlockIo.Blocks.{slice, length-slice}
use os_shell.Kernel.BlockIo.Ranges.{read_all_lem}
use os_shell.Kernel.BlockIo.Objects.{read_object_lem}
use os_shell.Kernel.Elf.{
  ElfHeader, ProgramHeader, elf_header, program_header, load_segment, load_loop, load,
}
use os_shell.Kernel.Node.{wrap}

-- What a segment is to be in the memory.
abbrev pub image : BlockIo → ProgramHeader → List ℕ
image file phdr = slice file phdr.offset phdr.filesz ++ replicate (phdr.memsz - phdr.filesz) 0

-- The bytes of a segment of type 1 are in the file, and it is no smaller in the memory.
abbrev pub IsSegment : BlockIo → ProgramHeader → Type 0
IsSegment file phdr =
    (phdr.kind ≡ 1) → (phdr.offset + phdr.filesz ≤ file.size_in_bytes) × (phdr.filesz ≤ phdr.memsz)

-- A range that a segment does not meet.
abbrev pub IsApart : ℕ → ℕ → ProgramHeader → Type 0
IsApart a n phdr = (phdr.kind ≡ 1) → (a + n ≤ phdr.vaddr) ⊎ (phdr.vaddr + phdr.memsz ≤ a)

-- The program headers that stand in the file from `hoff` on, `step` bytes apart.
abbrev pub HeadersAt : BlockIo → ℕ → ℕ → List ProgramHeader → Type 0
HeadersAt file hoff step [] = Unit
HeadersAt file hoff step (phdr ∷ phdrs) =
    (hoff + 32 ≤ file.size_in_bytes)
    × (program_header (slice file hoff 32) ≡ phdr)
    × HeadersAt file (hoff + step) step phdrs

-- No segment meets one that is loaded behind it.
abbrev pub AreApart : List ProgramHeader → Type 0
AreApart [] = Unit
AreApart (phdr ∷ phdrs) =
    ((phdr.kind ≡ 1) → All (IsApart phdr.vaddr phdr.memsz) phdrs) × AreApart phdrs

-- Apart from the whole is apart from both of its parts.
both_apart :
    (phdr : ProgramHeader) (a n : ℕ)
    → phdr.filesz ≤ phdr.memsz
    → (a + n ≤ phdr.vaddr) ⊎ (phdr.vaddr + phdr.memsz ≤ a)
    → ((a + n ≤ phdr.vaddr) ⊎ (phdr.vaddr + phdr.filesz ≤ a))
      × ((a + n ≤ phdr.vaddr + phdr.filesz)
          ⊎ (phdr.vaddr + phdr.filesz + (phdr.memsz - phdr.filesz) ≤ a))
both_apart phdr a n larger (inl l) = (inl l, inl (omega arith))
both_apart phdr a n larger (inr l) = (inr (omega arith), inr (omega arith))

module _ (file : BlockIo) (dev : IsDevice file) where
  -- A place where a header stands is a 32-bit number.
  load_loop-wrap :
      (phdrs : List ProgramHeader) (hoff step : ℕ) (m : ℕ → ℕ)
      → HeadersAt file hoff step phdrs
      → load_loop file (length phdrs) (wrap hoff) step m ≡ load_loop file (length phdrs) hoff step m
  unfolding load_loop
  load_loop-wrap [] hoff step m at = refl
  load_loop-wrap (phdr ∷ phdrs) hoff step m at =
      let here = at.0 in
      let fits = dev.fits in ap (λ h. load_loop file (length (phdr ∷ phdrs)) h step m) (omega arith)

  load_segment_lem :
      (phdr : ProgramHeader) (m : ℕ → ℕ)
      → IsSegment file phdr
      → (m' : ℕ → ℕ) × (load_segment file phdr m ≡ some m')
        × ((phdr.kind ≡ 1) → bytes_at m' phdr.vaddr phdr.memsz ≡ image file phdr)
        × ((a n : ℕ) → IsApart a n phdr → bytes_at m' a n ≡ bytes_at m a n)
  unfolding load_segment
  load_segment_lem phdr m ok = elim (Bool-cases (phdr.kind == 1)) [
    | inr other ↦ (m, rw (other, load_segment), λ e. absurd (ground arith), λ a n h. refl)
    | inl kind ↦
        let one : phdr.kind ≡ 1 = ground arith in
        let inside = (ok one).0 in
        let larger = (ok one).1 in
        let got = slice file phdr.offset phdr.filesz in
        let len = length-slice file phdr.offset phdr.filesz in
        let all : min phdr.filesz (file.size_in_bytes - phdr.offset) ≡ phdr.filesz = omega arith in
        let zeros : List ℕ = replicate (phdr.memsz - phdr.filesz) 0 in
        let m1 : ℕ → ℕ = store m phdr.vaddr got in
        let m2 : ℕ → ℕ = store m1 (phdr.vaddr + phdr.filesz) zeros in
        let z = phdr.memsz - phdr.filesz in
        let split : phdr.memsz ≡ phdr.filesz + z = omega arith in
        let len0 : length zeros ≡ phdr.memsz - phdr.filesz = length-replicate _ 0 in
        (
          m2,
          rw (kind, load_segment)
              (rw (read_all_lem file dev phdr.offset phdr.filesz (omega arith))
                (rw (all, le→ltb _ _ larger))),
          λ e.
              ap (bytes_at m2 phdr.vaddr) split
              ∙ sym (bytes_at-append m2 phdr.vaddr phdr.filesz z)
              ∙ ap₂ ◌++◌
                  (bytes_at-store_apart m1 (phdr.vaddr + phdr.filesz) zeros phdr.vaddr phdr.filesz
                      (inl (omega arith))
                    ∙ bytes_at-store_self m phdr.vaddr got phdr.filesz (omega arith)
                    ∙ take_all phdr.filesz got (omega arith))
                  (bytes_at-store_self m1 (phdr.vaddr + phdr.filesz) zeros z (omega arith)
                    ∙ take_all z zeros (omega arith)),
          λ a n h.
              let (far0, far1) = both_apart phdr a n larger (h one) in
              bytes_at-store_apart m1 (phdr.vaddr + phdr.filesz) zeros a n (rw len0 far1)
              ∙ bytes_at-store_apart m phdr.vaddr got a n (rw len far0),
        )
  ]

  -- Each segment of type 1 stands in the memory.
  abbrev pub AreLoaded : List ProgramHeader → (ℕ → ℕ) → Type 0
  AreLoaded phdrs m =
      All (λ phdr. (phdr.kind ≡ 1) → bytes_at m phdr.vaddr phdr.memsz ≡ image file phdr) phdrs

  load_loop_lem :
      (phdrs : List ProgramHeader) (hoff step : ℕ) (m : ℕ → ℕ)
      → HeadersAt file hoff step phdrs
      → All (IsSegment file) phdrs
      → AreApart phdrs
      → (m' : ℕ → ℕ) × (load_loop file (length phdrs) hoff step m ≡ some m')
        × AreLoaded phdrs m'
        × ((a n : ℕ) → All (IsApart a n) phdrs → bytes_at m' a n ≡ bytes_at m a n)
  unfolding load_loop
  load_loop_lem [] hoff step m at ok apart = (m, refl, tt, λ a n h. refl)
  load_loop_lem (phdr ∷ phdrs) hoff step m at ok apart =
      let (m1, e1, here, kept) = load_segment_lem phdr m ok.0 in
      let (m2, e2, rest, kept') = load_loop_lem phdrs (hoff + step) step m1 at.2 ok.1 apart.1 in
      (
        m2,
        rw (read_object_lem file dev hoff 32 at.0)
            (rw at.1 (rw e1 (load_loop-wrap phdrs (hoff + step) step m1 at.2 ∙ e2))),
        (λ e. kept' phdr.vaddr phdr.memsz (apart.0 e) ∙ here e, rest),
        λ a n h. kept' a n h.1 ∙ kept a n h.0,
      )

  -- A program on the disk: its header and its program headers are in the file, each segment of type
  -- 1 lies in the file and is no larger there than in the memory, and none meets another. Then `load`
  -- gives its entry point and a memory in which each of these segments stands, its bytes from the file
  -- first and zeros behind them, and in which all ranges that no segment meets are as they were.
  pub load_lem :
      (m : ℕ → ℕ) (hdr : ElfHeader) (phdrs : List ProgramHeader)
      → 52 ≤ file.size_in_bytes
      → elf_header (slice file 0 52) ≡ hdr
      → length phdrs ≡ hdr.phnum
      → HeadersAt file hdr.phoff hdr.phentsize phdrs
      → All (IsSegment file) phdrs
      → AreApart phdrs
      → (m' : ℕ → ℕ) × (load file m ≡ some (hdr.entry, m'))
        × AreLoaded phdrs m'
        × ((a n : ℕ) → All (IsApart a n) phdrs → bytes_at m' a n ≡ bytes_at m a n)
  unfolding load
  load_lem m hdr phdrs inside at num headers ok apart =
      let (m', e, loaded, kept) = load_loop_lem phdrs hdr.phoff hdr.phentsize m headers ok apart in
      let e' = ap (λ n. load_loop file n hdr.phoff hdr.phentsize m) (sym num) ∙ e in
      (m', rw (read_object_lem file dev 0 52 inside) (rw at (rw e' refl)), loaded, kept)
