-- ===== src/Kernel/Sys.antt =====
-- The system calls on files, semaphores and processes: `sysHandler` of kernel/sys.cc. `userEsp[i]`
-- are the arguments.
pub mod NewFile
pub mod Ends
pub mod Pipes
pub mod Opens
pub mod Dups
use os_shell.Common.{
  ℕ, zero, suc, ◌+◌, ◌-◌, ◌^◌, Bool, true, false, not, ◌||◌, Option, none, some, List, [], ◌∷◌,
  ◌++◌, ltb, leb, ◌==◌, if◌then◌else◌, get_elem?, get_or, set, length, ◌>>=◌,
}
use os_shell.Common.Text.{bytes32, cstr, store, text_at}
use os_shell.Kernel.Ext2.{Ext2, find}
use os_shell.Kernel.File
use os_shell.Kernel.File.{
  File, Devices, open_file, pipe_file, read_mode, write_mode, user_space, seek, size,
}
use os_shell.Kernel.Node.{Node, get_symbol, is_symlink}
use os_shell.Kernel.Pipe
use os_shell.Kernel.Process
use os_shell.Kernel.Process.{
  Process, minus_one, get_file, set_file, get_semaphore, new_semaphore, is_negative,
}
use os_shell.Kernel.Semaphore
use os_shell.Kernel.Semaphore.{Semaphore, acquired, blocked}

-- Files and semaphores are known by their places in the lists; `ready` is the ready queue.
pub record System : Type 0 where
  pub fs : Ext2
  pub root : Node
  pub process : Process
  pub files : List File
  pub sems : List Semaphore
  pub devices : Devices
  pub memory : ℕ → ℕ
  pub ready : List ℕ

-- `fault` is a panic, a read through a null pointer, or a device or pipe that blocks.
pub data Outcome : Type 0 where
  returns : ℕ → System → Outcome
  waits : System → Outcome
  fault : Outcome

abbrev pub returned : Option (ℕ × System) → Outcome
returned none = fault
returned (some (r, s)) = returns r s

-- What the handlers of read and write refuse: kernel space, and the pages of two devices.
abbrev pub bad_buffer : ℕ → Bool
bad_buffer a = ltb a user_space || a == 0xFEC00000 || a == 0xFEE00000

-- `setFile(Shared<File>(f))` of a new file.
pub new_file : File → System → ℕ × System
new_file f s =
    let (r, p) = set_file (length s.files) s.process in
    (r, record s { process = p; files = s.files ++ f ∷ [] })

-- The text at a user's pointer.
abbrev pub user_text : System → ℕ → Option (List ℕ)
user_text s a = text_at (2 ^ 32 - a) s.memory a

module _ (me : ℕ) where
  pub sys_write : ℕ → ℕ → ℕ → System → Outcome
  sys_write fd buf nbyte s =
      if bad_buffer buf then returns minus_one s else elim (get_file fd s.process) [
        | none ↦ returns minus_one s
        | some ref ↦ returned (do
          file ← get_elem? s.files ref
          done ← File.write me (λ i. s.memory (buf + i)) nbyte file s.devices
          some (done.0, record s { devices = done.1 }))
      ]

  pub sys_read : ℕ → ℕ → ℕ → System → Outcome
  sys_read fd buf nbyte s =
      if bad_buffer buf
      then returns minus_one s
      else if fd == 1
      then returns minus_one s
      else elim (get_file fd s.process) [
        | none ↦ returns minus_one s
        | some ref ↦ returned (do
          file ← get_elem? s.files ref
          got ← File.read me s.fs.ide s.fs.block_size buf nbyte file s.devices
          some (
            got.0,
            record s {
              memory = store s.memory buf got.1;
              files = set s.files ref got.2;
              devices = got.3;
            },
          ))
      ]

  -- The null pointer is not tested. `read` gets the bytes of the directory.
  pub sys_readdir : ℕ → ℕ → ℕ → System → Outcome
  sys_readdir fd buf offset s = returned (do
    ref ← get_file fd s.process
    file ← get_elem? s.files ref
    let moved = seek offset file
    got ← File.read me s.fs.ide s.fs.block_size buf 1024 moved.1 s.devices
    let s' = record s {
      memory = store s.memory buf got.1;
      files = set s.files ref got.2;
      devices = got.3;
    }
    some (if got.0 == 0 || is_negative got.0 then 0 else buf, s'))

  pub sys_down : ℕ → System → Outcome
  sys_down id s = elim (get_semaphore id s.process) [
    | none ↦ returns minus_one s
    | some ref ↦ elim (get_elem? s.sems ref) [
      | none ↦ fault
      | some sem ↦ elim (Semaphore.down me sem) [
        | acquired sem' ↦ returns 0 (record s { sems = set s.sems ref sem' })
        | blocked sem' ↦ waits (record s { sems = set s.sems ref sem' })
      ]
    ]
  ]

-- The null pointer is not tested.
pub sys_seek : ℕ → ℕ → System → Outcome
sys_seek fd offset s =
    if fd == 1
    then returns minus_one s
    else returned (do
      ref ← get_file fd s.process
      file ← get_elem? s.files ref
      let moved = seek offset file
      some (moved.0, record s { files = set s.files ref moved.1 }))

pub sys_len : ℕ → System → Outcome
sys_len fd s = elim (get_file fd s.process) [
  | none ↦ returns minus_one s
  | some ref ↦ returned (do file ← get_elem? s.files ref; some (size file, s))
]

-- `storage` is what stood in the memory of the new buffer.
pub sys_pipe : List ℕ → ℕ → System → Outcome
unfolding new_file
sys_pipe storage fds s =
    let d = record s.devices { pipes = s.devices.pipes ++ Pipe.make storage ∷ [] } in
    let pipe = length s.devices.pipes in
    let (read_fd, s1) = new_file (pipe_file pipe read_mode) (record s { devices = d }) in
    let (write_fd, s2) = new_file (pipe_file pipe write_mode) s1 in
    if is_negative read_fd || is_negative write_fd
    then returns minus_one s2
    else returns 0
        (record s2 { memory = store s2.memory fds (bytes32 read_fd ++ bytes32 write_fd) })

pub sys_sem : ℕ → System → Outcome
sys_sem init s =
    let (r, p) = new_semaphore (length s.sems) s.process in
    returns r (record s { process = p; sems = s.sems ++ Semaphore.make init ∷ [] })

pub sys_up : ℕ → System → Outcome
sys_up id s = elim (get_semaphore id s.process) [
  | none ↦ returns minus_one s
  | some ref ↦ returned (do
    sem ← get_elem? s.sems ref
    let raised = Semaphore.up sem
    let queue : List ℕ = elim raised.0 [ none ↦ s.ready | some t ↦ s.ready ++ t ∷ [] ]
    some (0, record s { sems = set s.sems ref raised.1; ready = queue }))
]

pub sys_close : ℕ → System → Outcome
sys_close id s = let (r, p) = Process.close id s.process in returns r (record s { process = p })

pub sys_dup2 : ℕ → ℕ → System → Outcome
sys_dup2 oldfd newfd s =
    let (r, p) = Process.dup2 oldfd newfd s.process in returns r (record s { process = p })

-- `output` reads a future.
pub sys_wait : (ℕ → Option ℕ) → ℕ → ℕ → System → Outcome
sys_wait output id ptr s =
    if ltb ptr user_space then returns minus_one s else elim (Process.wait output id s.process) [
      | none ↦ waits s
      | some (r, none, p) ↦ returns r (record s { process = p })
      | some (r, some v, p) ↦
          returns r (record s { process = p; memory = store s.memory ptr (bytes32 v) })
    ]

-- `while (file->is_symlink())`: `none` is a panic, a null pointer, or that the rounds ran out.
pub follow : Ext2 → Node → ℕ → Node → Option Node
follow fs root zero file = none
follow fs root (suc rounds) file = elim (is_symlink file.info) [
  | false ↦ some file
  | true ↦ do
    p ← get_symbol fs.ide fs.block_size file
    found ← find fs (some root) (cstr p)
    next ← found
    follow fs root rounds next
]

-- `rounds` bounds the symbolic links that are followed, which the source does not.
pub sys_open : ℕ → ℕ → System → Outcome
unfolding new_file
sys_open rounds path s = returned (do
  text ← user_text s path
  found ← find s.fs (some s.root) text
  elim found [
    | none ↦ some (minus_one, s)
    | some node ↦
        if get_or text 0 0 == 0
        then some (minus_one, s)
        else (do file ← follow s.fs s.root rounds node; some (new_file (open_file file) s))
  ])

-- `file->is_dir()` reads through the pointer before it is tested; a file that is no directory is
-- reported, and opened all the same.
pub sys_opendir : ℕ → System → Outcome
unfolding new_file
sys_opendir path s = returned (do
  text ← user_text s path
  found ← find s.fs (some s.root) text
  node ← found
  if get_or text 0 0 == 0 then some (minus_one, s) else some (new_file (open_file node) s))
