-- ===== src/Kernel/SysExamples.antt =====
-- The theorems on system calls at a small system, over the disk of the other examples.
use os_shell.Common.{
  ℕ, ◌+◌, ◌^◌, ◌≡◌, refl, none, some, [], ◌∷◌, ◌∙◌, arith, ◌==◌, if◌then◌else◌, replicate,
  length-replicate,
}
use os_shell.Common.Text.{cstr, text_at}
use os_shell.Kernel.BlockIo.{read, read_all_loop, read_all, read_object}
use os_shell.Kernel.DiskExamples.{
  small_fs, root_node, file_node, link_node, file-IsDevice, no_devices,
}
use os_shell.Kernel.Ext2.{find, find_part, get_node}
use os_shell.Kernel.Ext2.Parts.{walk, parts_of}
use os_shell.Kernel.Ext2.Paths.{find_lem}
use os_shell.Kernel.File.{pipe_file, read_mode, write_mode}
use os_shell.Kernel.Libk.{streq}
use os_shell.Kernel.Node.{
  node_data, words_at, block_index, read_block, entries_loop, entries, find_work, find_entry,
  bytes_of_words, get_symbol,
}
use os_shell.Kernel.Pipe
use os_shell.Kernel.Pipe.{Pipe}
use os_shell.Kernel.Pipe.Valid.{make-IsValid}
use os_shell.Kernel.Process
use os_shell.Kernel.Process.{Process, get_file, minus_one}
use os_shell.Kernel.Process.Tables
use os_shell.Kernel.Sys.{System, returns, sys_open, sys_dup2}
use os_shell.Kernel.Sys.Opens.{Leads, here, link, LeadsTo, Delivered, sys_open-read}
use os_shell.Kernel.Sys.Ends.{Ends, Transferred, pipe_transfer}
use os_shell.Kernel.Sys.Dups.{AreShared, sys_dup2-AreShared}

abbrev pub idle_process : Process
idle_process = record {
  files = some 0 ∷ none ∷ none ∷ some 1 ∷ replicate 6 none;
  sems = replicate 10 none;
  children = replicate 10 none;
  output = 0;
}

idle_process-IsValid : Process.Tables.IsValid idle_process
idle_process-IsValid = omega arith

-- A text "/l" at the start of user space; descriptors 0 and 3 are the ends of a pipe.
abbrev small_system : System
small_system = record {
  fs = small_fs;
  root = root_node;
  process = idle_process;
  files = pipe_file 0 read_mode ∷ pipe_file 0 write_mode ∷ [];
  sems = [];
  devices = record no_devices { pipes = Pipe.make (replicate 1024 0) ∷ [] };
  memory = λ a. if a == 2 ^ 31 then b'/' else if a == 2 ^ 31 + 1 then b'l' else 0;
  ready = [];
}

find_a : find small_fs (some root_node) (cstr (b'a' ∷ [])) ≡ some (some file_node)
unfolding walk parts_of find_part find_entry entries entries_loop find_work streq get_node node_data
    words_at read_block block_index read_object read_all read_all_loop read
find_a = find_lem small_fs (some root_node) (b'a' ∷ []) [] (omega arith) ∙ refl

link-Leads : Leads small_fs root_node file_node link_node 1
unfolding node_data words_at get_symbol bytes_of_words
link-Leads = link refl refl find_a (here refl)

link-LeadsTo : LeadsTo small_system (2 ^ 31) b'/' (b'l' ∷ []) file_node 1
unfolding walk parts_of find_part find_entry entries entries_loop find_work streq get_node node_data
    words_at read_block block_index read_object read_all read_all_loop read text_at
link-LeadsTo = record {
  text = refl;
  is_text = omega arith;
  node = link_node;
  there = refl;
  links = link-Leads;
}

sys_open-read_example :
    Delivered small_system
      (2 ^ 31)
      b'/'
      (b'l' ∷ [])
      7
      file_node
      (2 ^ 31 + 64)
      3
      (sys_open 9 (2 ^ 31) small_system)
sys_open-read_example =
    sys_open-read small_system (2 ^ 31) b'/' (b'l' ∷ []) 7 file_node 1 9 (2 ^ 31 + 64) 3
      link-LeadsTo (omega arith) file-IsDevice idle_process-IsValid refl

small_ends : Ends small_system 0 3 0 (Pipe.make (replicate 1024 0))
unfolding get_file
small_ends = record {
  read_ref = 0;
  write_ref = 1;
  reads = refl;
  writes = refl;
  read_end = refl;
  write_end = refl;
  there = refl;
  valid = make-IsValid (replicate 1024 0) (length-replicate {A = ℕ} 1024 0);
}

pipe_transfer_example :
    Transferred 7 small_system 0 3 0
      (Pipe.make (replicate 1024 0))
      small_ends
      (2 ^ 31)
      2
      (2 ^ 31 + 64)
      5
pipe_transfer_example =
    pipe_transfer 7 small_system 0 3 0 (Pipe.make (replicate 1024 0)) small_ends (2 ^ 31) 2
      (2 ^ 31 + 64) 5 refl refl (omega arith) (omega arith) (omega arith)

sys_dup2-AreShared_example :
    (s' : System) × (sys_dup2 3 5 small_system ≡ returns 5 s')
    × (get_file 5 s'.process ≡ some 1)
    × (get_file 3 s'.process ≡ some 1)
    × AreShared 5 3 s'
unfolding get_file
sys_dup2-AreShared_example =
    sys_dup2-AreShared 3 5 small_system 1 idle_process-IsValid refl (omega arith)
