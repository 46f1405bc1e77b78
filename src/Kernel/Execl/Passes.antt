-- ===== src/Kernel/Execl/Passes.antt =====
-- The arguments of execl and execvp reach the new program.
use os_shell.Common.{
  ℕ, zero, suc, ◌+◌, ◌-◌, ◌*◌, ◌<◌, ◌≡◌, ◌≢◌, refl, some, List, [], ◌∷◌, ◌++◌, length, arith, map,
  true, ==_ne, ◌∙◌, ap, sym, subst, append_assoc,
}
use os_shell.Common.Text.{IsText, cstr}
use os_shell.Kernel.Elf.{ElfHeader, ProgramHeader}
use os_shell.Kernel.Elf.Segments.{AreLoaded}
use os_shell.Kernel.Exec.{stack_top, switch_to_user}
use os_shell.Kernel.Exec.Runs.{Runnable, exec_lem}
use os_shell.Kernel.Exec.Strings.{Argument, arg_bytes}
use os_shell.Kernel.Exec.Stack.{Built, stack_size, length-map}
use os_shell.Kernel.Execl.{word_at, copy_args, get_args, exec_from}
use os_shell.Kernel.Ext2.Parts.{walk, parts_of}
use os_shell.Kernel.Node.{Node, node_io, is_file}
use os_shell.Kernel.Sys.{System, user_text}

-- Pointers to the texts of the arguments stand from `a` on, with a null pointer behind them.
abbrev pub ArgsAt : System → ℕ → List ℕ → List Argument → Type 0
ArgsAt s a behind [] = word_at s.memory a ≡ 0
ArgsAt s a behind (arg ∷ args) =
    (word_at s.memory a ≢ 0)
    × (user_text s (word_at s.memory a) ≡ some (cstr arg.text))
    × (arg.rest ≡ behind)
    × ArgsAt s (a + 4) behind args

module _ (clear : (ℕ → ℕ) → ℕ → ℕ) (behind : List ℕ) (s : System) where
  copy_args_lem :
      (rounds a : ℕ) (args : List Argument)
      → ArgsAt s a behind args
      → length args < rounds
      → copy_args clear behind rounds a s ≡ some (map arg_bytes args)
  unfolding copy_args
  copy_args_lem zero a args at h = absurd (omega arith)
  copy_args_lem (suc rounds) a [] at h = rw at refl
  copy_args_lem (suc rounds) a (arg ∷ args) (there, text, rest, more) h =
      rw (==_ne (word_at s.memory a) 0 there, text)
        (rw (copy_args_lem rounds (a + 4) args more (omega arith)) (
          ap (λ l. some (l ∷ map arg_bytes args))
            (append_assoc arg.text (0 ∷ []) behind ∙ ap (λ l. arg.text ++ 0 ∷ l) (sym rest))))

  -- The word before the null pointer.
  last_ne :
      (a : ℕ) (args : List Argument)
      → ArgsAt s (a + 4) behind args
      → word_at s.memory a ≢ 0
      → word_at s.memory (a + 4 + 4 * length args - 4) ≢ 0
  last_ne a [] at ne = subst (λ b. word_at s.memory b ≢ 0) (omega arith) ne
  last_ne a (arg ∷ args) (there, text, rest, more) ne =
      subst (λ b. word_at s.memory b ≢ 0) (omega arith) (last_ne (a + 4) args more there)

  -- A call at `esp` whose path leads to `file`, with the arguments from userEsp[first] on.
  pub record Calls (first esp : ℕ) (path : List ℕ) (args : List Argument) (file : Node)
      : Type 0 where
    pub is_text : IsText path
    pub path_at : user_text s (word_at s.memory (esp + 4)) ≡ some (cstr path)
    pub args_at : ArgsAt s (esp + 4 * first) behind args
    pub before : word_at s.memory (esp + 4 * first - 4) ≢ 0
    pub there : walk s.fs (some s.root) (parts_of path) ≡ some (some file)
    pub is : is_file file.info ≡ true

  -- A call of execl (`first` is 2) or execvp (`first` is 5) with a path to a program that is in order,
  -- with the pointers to texts in the words from userEsp[first] on up to a null pointer (for execvp
  -- this is not the array at userEsp[2] that its documentation names), and a word before them that is
  -- not null: with more rounds than arguments, the call does not return but goes to the program's entry point, and the texts that these pointers lead to stand on
  -- the new program's stack, with their number and their addresses before them, and all segments of
  -- the program in the memory.
  pub exec_from_lem :
      (rounds first esp : ℕ) (path : List ℕ) (args : List Argument) (file : Node) (hdr : ElfHeader)
      (phdrs : List ProgramHeader)
      → 0 < first
      → length args < rounds
      → Calls first esp path args file
      → (ok : Runnable (node_io s.fs.ide s.fs.block_size file) args hdr phdrs)
      → (memory' : ℕ → ℕ) × (exec_from clear behind rounds first esp s
          ≡ switch_to_user hdr.entry (stack_top - stack_size args) memory')
        × Built args (stack_top - stack_size args) memory'
        × AreLoaded (node_io s.fs.ide s.fs.block_size file) ok.device phdrs memory'
  unfolding exec_from get_args
  exec_from_lem rounds first esp path args file hdr phdrs pos more call ok =
      let (memory', e, built, loaded) =
        exec_lem s.fs s.root file args hdr phdrs ok path [] (clear s.memory) call.is_text call.there
          call.is in
      let base = esp + 4 * first in
      let next : base - 4 + 4 ≡ base = omega arith in
      let last : word_at s.memory (base + 4 * length args - 4) ≢ 0 =
        subst (λ b. word_at s.memory (b + 4 * length args - 4) ≢ 0) next
          (last_ne (base - 4) args (subst (λ b. ArgsAt s b behind args) (sym next) call.args_at)
            call.before) in
      let copied = copy_args_lem rounds base args call.args_at more in
      (
        memory',
        rw (exec_from, get_args, copied)
            (rw (length-map arg_bytes args) (
              rw (==_ne (word_at s.memory (base + 4 * length args - 4)) 0 last)
                (rw call.path_at e))),
        built,
        loaded,
      )
