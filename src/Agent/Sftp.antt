-- ===== src/Agent/Sftp.antt =====
-- agent/pkg/agent/sftp.go, NewSFTPServer: the process that serves files as the user who logged in. The
-- environment and what the kernel answers to each call are parameters.
use mini_shellhub.Prelude.{
  ℕ, ◌+◌, ◌-◌, ◌*◌, ◌^◌, Text, List, [], ◌∷◌, ◌≡◌, Bool, true, false, ◌&&◌, ltb, leb, ◌==◌, Option,
  none, some, if◌then◌else◌, arith, Option-cases, inl, inr,
}
use mini_shellhub.Agent.Config.{ℤ, pos, negsuc}

-- The number that decimal digits denote behind a number that was read before.
read_digits : ℕ → Text → Option ℕ
read_digits n [] = some n
read_digits n (c ∷ s) =
    let rest = read_digits (n * 10 + (c - 48)) s in if leb 48 c && leb c 57 then rest else none

read_natural : Text → Option ℕ
unfolding read_digits
read_natural [] = none
read_natural (c ∷ s) = read_digits 0 (c ∷ s)

positive : Option ℕ → Option ℤ
positive none = none
positive (some n) = if ltb n (2 ^ 63) then some (pos n) else none

negative : Option ℕ → Option ℤ
negative none = none
negative (some n) =
    if n == 0 then some (pos 0) else if leb n (2 ^ 63) then some (negsuc (n - 1)) else none

-- strconv.Atoi, to an int of 64 bits.
unfoldable pub atoi : Text → Option ℤ
unfolding read_natural positive negative
atoi [] = none
atoi (c ∷ s) =
    if c == b'-'
    then negative (read_natural s)
    else if c == b'+'
    then positive (read_natural s)
    else positive (read_natural (c ∷ s))

pub record Environment : Type 0 where
  pub home : Option Text
  pub gid : Option Text
  pub uid : Option Text

pub record Kernel : Type 0 where
  pub chdir : Text → Bool
  pub setgid : ℤ → Bool
  pub setuid : ℤ → Bool
  pub new_server : Bool

-- The calls that the process makes, in order, those that fail included.
pub data Syscall : Type 0 where
  chdir_call : Text → Syscall
  setgid_call setuid_call : ℤ → Syscall
  serve_call : Syscall

-- `toInt(os.LookupEnv(…))`: a variable that is not set reads as the empty text.
unfoldable pub to_int : Option Text → Option ℤ
unfolding atoi
to_int none = atoi []
to_int (some s) = atoi s

serving : Kernel → List Syscall
serving k = if k.new_server then serve_call ∷ [] else []

changes : Kernel → Text → ℤ → ℤ → List Syscall
unfolding serving
changes k home gid uid =
    let as_user = setuid_call uid ∷ (if k.setuid uid then serving k else []) in
    let as_group = setgid_call gid ∷ (if k.setgid gid then as_user else []) in
    chdir_call home ∷ (if k.chdir home then as_group else [])

with_ids : Kernel → Text → Option ℤ → Option ℤ → List Syscall
unfolding changes
with_ids k home none uid = []
with_ids k home (some gid) none = []
with_ids k home (some gid) (some uid) = changes k home gid uid

with_home : Kernel → Environment → Option Text → List Syscall
unfolding with_ids to_int
with_home k e none = []
with_home k e (some home) = with_ids k home (to_int e.gid) (to_int e.uid)

unfoldable pub new_sftp_server : Environment → Kernel → List Syscall
unfolding with_home
new_sftp_server e k = with_home k e e.home

abbrev pub serves : List Syscall → Bool
serves [] = false
serves (serve_call ∷ cs) = true
serves (_ ∷ cs) = serves cs

-- Files are served only after the process has changed, in this order and with success, to the home
-- directory, the group and the user of its environment.
pub serves-new_sftp_server :
    (e : Environment) (k : Kernel)
    → serves (new_sftp_server e k) ≡ true
    → (home : Text) × (gid : ℤ) × (uid : ℤ) × (e.home ≡ some home)
      × (to_int e.gid ≡ some gid)
      × (to_int e.uid ≡ some uid)
      × (k.chdir home ≡ true)
      × (k.setgid gid ≡ true)
      × (k.setuid uid ≡ true)
      × (new_sftp_server e k
          ≡ chdir_call home ∷ setgid_call gid ∷ setuid_call uid ∷ serve_call ∷ [])
unfolding new_sftp_server
serves-new_sftp_server e k h = elim (Option-cases e.home) [
  | inl p ↦ absurd (ground arith)
  | inr (home, p) ↦ elim (Option-cases (to_int e.gid)) [
    | inl q ↦ absurd (ground arith)
    | inr (gid, q) ↦ elim (Option-cases (to_int e.uid)) [
      | inl r ↦ absurd (ground arith)
      | inr (uid, r) ↦
          (home, gid, uid, p, q, r, ground arith, ground arith, ground arith, ground arith)
    ]
  ]
]
