-- ===== src/Kernel/Process/Fork.antt =====
-- `fork` of kernel/process.cc, less the copy of the address space: what becomes of the tables.
pub mod Child
use os_shell.Common.{ℕ, Option, none, some, List, [], ◌∷◌, is_some, if◌then◌else◌, set, replicate}
use os_shell.Kernel.Process.{
  Process, Table, n_file, n_sem, n_child, minus_one, proc, id_of, free_slot,
}

-- A process that `Shared<Process>::make(false)` makes, with a fresh future.
abbrev pub new_process : ℕ → Process
new_process output = record {
  files = replicate n_file none;
  sems = replicate n_sem none;
  children = replicate n_child none;
  output = output;
}

-- The loop over the semaphores copies the references that are not null.
unfoldable pub copy_some : Table → Table → Table
copy_some [] to = to
copy_some (s ∷ from) [] = []
copy_some (s ∷ from) (t ∷ to) = (if is_some s then s else t) ∷ copy_some from to

-- The loop over the files copies every reference.
unfoldable pub copy_all : Table → Table → Table
copy_all [] to = to
copy_all (s ∷ from) [] = []
copy_all (s ∷ from) (t ∷ to) = s ∷ copy_all from to

-- The id, the child and the parent; `output` is the child's future.
unfoldable pub fork : ℕ → Process → ℕ × Option Process × Process
fork output p = elim (free_slot 0 p.children) [
  | none ↦ (minus_one, none, p)
  | some index ↦
      let child = new_process output in
      (
        id_of proc index,
        some (record child {
          sems = copy_some p.sems child.sems;
          files = copy_all p.files child.files;
        }),
        record p { children = set p.children index (some child.output) },
      )
]
