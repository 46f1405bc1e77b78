-- ===== src/Kernel/Sys/Opens.antt =====
-- Opening files by their paths, through symbolic links, and reading them.
use os_shell.Common.{
  ℕ, zero, suc, ◌+◌, ◌-◌, ◌<◌, ◌≤◌, ◌≡◌, ◌≢◌, ◌⊎◌, inl, inr, refl, some, List, [], ◌∷◌, arith, ap,
  ◌∙◌, length, min, set, get_elem?, ==_ne, true, false,
}
use os_shell.Common.Text.{IsText, cstr, store}
use os_shell.Kernel.BlockIo.{IsDevice}
use os_shell.Kernel.BlockIo.Blocks.{slice}
use os_shell.Kernel.Ext2.{Ext2, find}
use os_shell.Kernel.Ext2.Parts.{walk, parts_of}
use os_shell.Kernel.Ext2.Paths.{find_lem}
use os_shell.Kernel.File.{open_file, actual_file, user_space}
use os_shell.Kernel.File.Reads.{read-actual_file}
use os_shell.Kernel.Node.{Node, node_io, get_symbol, is_symlink}
use os_shell.Kernel.Process
use os_shell.Kernel.Process.{minus_one, get_file}
use os_shell.Kernel.Process.Tables
use os_shell.Kernel.Sys.NewFile.{Opened, IsFull, new_file_lem}
use os_shell.Kernel.Sys.{
  System, Outcome, returns, bad_buffer, user_text, new_file, sys_read, sys_open, follow,
}

-- A chain of symbolic links that ends at a node that is none, with the number of the links.
pub data Leads (fs : Ext2) (root : Node) (to : Node) : Node → ℕ → Type 0 where
  here : is_symlink to.info ≡ false → Leads fs root to to 0
  link :
      {node next : Node} {name : List ℕ} {k : ℕ}
      → is_symlink node.info ≡ true
      → get_symbol fs.ide fs.block_size node ≡ some name
      → find fs (some root) (cstr name) ≡ some (some next)
      → Leads fs root to next k
      → Leads fs root to node (suc k)

module _ (fs : Ext2) (root : Node) where
  follow-Leads :
      {to node : Node} {k : ℕ}
      → Leads fs root to node k
      → (rounds : ℕ) → k < rounds
      → follow fs root rounds node ≡ some to
  unfolding follow
  follow-Leads (here e) zero h = absurd (omega arith)
  follow-Leads (here e) (suc rounds) h = rw (e, follow)
  follow-Leads (link e name found rest) zero h = absurd (omega arith)
  follow-Leads (link e name found rest) (suc rounds) h =
      rw (e, follow) (rw (name, found) (follow-Leads rest rounds (omega arith)))

module _ (s : System) (path : ℕ) (c : ℕ) (name : List ℕ) where
  -- The path leads to `file`, by way of `k` symbolic links from where its parts lead.
  pub record LeadsTo (file : Node) (k : ℕ) : Type 0 where
    pub text : user_text s path ≡ some (cstr (c ∷ name))
    pub is_text : IsText (c ∷ name)
    pub node : Node
    pub there : walk s.fs (some s.root) (parts_of (c ∷ name)) ≡ some (some node)
    pub links : Leads s.fs s.root file node k

  sys_open-new_file :
      (file : Node) (k rounds : ℕ)
      → LeadsTo file k
      → k < rounds
      → sys_open rounds path s
        ≡ returns (new_file (open_file file) s).0 (new_file (open_file file) s).1
  unfolding sys_open
  sys_open-new_file file k rounds l h =
      let found = find_lem s.fs (some s.root) (c ∷ name) [] l.is_text ∙ l.there in
      rw (l.text, sys_open)
        (rw (found, ==_ne c 0 l.is_text.0) (rw (follow-Leads s.fs s.root l.links rounds h)))

  -- A read from the front of a file that is open in `t`, whose file system is that of `s`.
  module _ (me : ℕ) (file : Node) (buf n : ℕ)
      (dev : IsDevice (node_io s.fs.ide s.fs.block_size file)) (t : System) (ref : ℕ) where
    abbrev amount : ℕ
    amount = min n file.info.size_low

    abbrev read_state : System
    read_state = record t {
      memory = store t.memory buf (slice (node_io s.fs.ide s.fs.block_size file) 0 amount);
      files = set t.files ref (actual_file file amount);
    }

    sys_read-front :
        (fd : ℕ)
        → fd ≢ 1
        → bad_buffer buf ≡ false
        → get_file fd t.process ≡ some ref
        → get_elem? t.files ref ≡ some (open_file file)
        → t.fs ≡ s.fs
        → sys_read me fd buf n t ≡ returns amount read_state
    unfolding sys_read
    sys_read-front fd ne good open_fd there same =
        let user : user_space ≤ buf = ground arith in
        let e0 : min n (file.info.size_low - 0) ≡ amount = omega arith in
        let e1 : 0 + amount ≡ amount = omega arith in
        let got = read-actual_file me s.fs.ide s.fs.block_size file dev buf n 0 t.devices user in
        rw (good, ==_ne fd 1 ne, open_fd, there) (rw same (rw (got, e0, e1)))

  -- What `open` and then a `read` of `n` bytes to `buf` come to, for a file that is `file`.
  abbrev pub Delivered : ℕ → Node → ℕ → ℕ → Outcome → Type 0
  Delivered me file buf n outcome =
      let size = file.info.size_low in
      ((s' : System) × (outcome ≡ returns minus_one s') × IsFull s × (s'.process ≡ s.process))
      ⊎ ((fd : ℕ) × (s1 s2 : System) × (outcome ≡ returns fd s1)
          × Opened (open_file file) s fd s1
          × ((fd ≢ 1)
              → (sys_read me fd buf n s1 ≡ returns (min n size) s2)
                × (s2.memory
                    ≡ store s.memory buf
                        (slice (node_io s.fs.ide s.fs.block_size file) 0 (min n size)))))

  -- A path that leads to a file, in a process whose tables are valid: `open` returns -1 and leaves
  -- the descriptors as they are, and then all of them were in use; or it returns a descriptor that
  -- was free, which is opened, and where that is not 1, a read of it to user space then puts the
  -- first bytes of the file into the user's memory, as many as are asked for or as there are. The
  -- blocks of the file are on the disk.
  pub sys_open-read :
      (me : ℕ) (file : Node) (k rounds buf n : ℕ)
      → LeadsTo file k
      → k < rounds
      → IsDevice (node_io s.fs.ide s.fs.block_size file)
      → Process.Tables.IsValid s.process
      → bad_buffer buf ≡ false
      → Delivered me file buf n (sys_open rounds path s)
  unfolding new_file
  sys_open-read me file k rounds buf n l h dev valid good =
      let f = open_file file in
      let opened = sys_open-new_file file k rounds l h in
      elim (new_file_lem f s valid) [
        | inl (e, full, same) ↦
            inl ((new_file f s).1, opened ∙ ap (λ r. returns r (new_file f s).1) e, full, same)
        | inr o ↦ inr (
          (new_file f s).0,
          (new_file f s).1,
          read_state me file buf n dev (new_file f s).1 (length s.files),
          opened,
          o,
          λ ne. (
            sys_read-front me file buf n dev (new_file f s).1 (length s.files) (new_file f s).0 ne
                good o.ref o.file refl,
            refl,
          ),
        )
      ]
