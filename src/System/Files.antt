-- ===== src/System/Files.antt =====
-- The calls of `std::fs` and `tokio::fs`, on the file system of a world. A call may be refused by a
-- fault, and then changes nothing, but for what `write_all` had written.
pub mod Laws
use nyanpasu_utils.Prelude.{
  ℕ, zero, suc, ◌+◌, ◌≡◌, refl, Bool, true, false, not, ◌&&◌, ◌||◌, Option, none, some, List, [],
  ◌∷◌, ◌++◌, Bytes, take, bytes_eq, if◌then◌else◌,
}
use nyanpasu_utils.Io.{Io, IoError, Result, ok, err, ErrorKind, io_error}
use nyanpasu_utils.Text.Utf8.{is_utf8}
use nyanpasu_utils.System.World.{World, Node, file, dir, symlink, special, Files, put_node, Fault}
use nyanpasu_utils.System.Act.{Sys, tick}

-- The result and the effect of a call that no fault refuses; after a fault the effect is another.
abbrev pub faulted :
    {A : Type 0} → Option Fault → World → Files → (Fault → Files) → Io A → Io A × World
faulted none w after broken r = (r, record (tick w) { files = after })
faulted (some f) w after broken r = (err f.error, record (tick w) { files = broken f })

abbrev pub call : {A : Type 0} → World → Files → Io A → Io A × World
call w after r = faulted (w.faults w.clock) w after (λ _. w.files) r

-- Linux follows 40 links at most.
unfoldable pub resolve : ℕ → Files → Bytes → Io Bytes
resolve zero fs p = err (io_error ErrorKind.other)
resolve (suc n) fs p = elim (fs p) [
  | none ↦ ok p
  | some node ↦ elim node [ symlink t ↦ resolve n fs t | _ ↦ ok p ]
]

abbrev pub max_links : ℕ
max_links = 41

abbrev pub node_or_missing : Option Node → Io Node
node_or_missing none = err (io_error ErrorKind.not_found)
node_or_missing (some n) = ok n

-- `symlink_metadata(path)`: the node itself.
unfoldable pub symlink_metadata : Bytes → Sys Node
symlink_metadata p w = call w w.files (node_or_missing (w.files p))

abbrev pub text_of : Bytes → Io Bytes
text_of s = if is_utf8 s then ok s else err (io_error ErrorKind.invalid_data)

abbrev pub read_node : Option Node → Io Bytes
read_node none = err (io_error ErrorKind.not_found)
read_node (some (file s)) = text_of s
read_node (some _) = err (io_error ErrorKind.other)

abbrev pub read_at : Files → Io Bytes → Io Bytes
read_at fs (ok p) = read_node (fs p)
read_at fs (err e) = err e

-- `read_to_string(path)`
unfoldable pub read_to_string : Bytes → Sys Bytes
unfolding resolve
read_to_string p w = call w w.files (read_at w.files (resolve max_links w.files p))

abbrev exists_at : Files → Io Bytes → Io Bool
exists_at fs (ok p) = ok (elim (fs p) [ none ↦ false | some _ ↦ true ])
exists_at fs (err e) = err e

-- `try_exists(path)`: links are followed.
unfoldable pub try_exists : Bytes → Sys Bool
unfolding resolve
try_exists p w = call w w.files (exists_at w.files (resolve max_links w.files p))

-- `remove_file(path)`: the node itself, unless it is a directory.
unfoldable pub remove_file : Bytes → Sys (Unit {0})
remove_file p w = elim (w.files p) [
  | none ↦ call w w.files (err (io_error ErrorKind.not_found))
  | some node ↦ elim node [
    | dir ↦ call w w.files (err (io_error ErrorKind.other))
    | _ ↦ call w (put_node w.files p none) (ok tt)
  ]
]

-- `OpenOptions::new().create_new(true).write(true).open(path)`
unfoldable pub create_new : Bytes → Sys (Unit {0})
create_new p w = elim (w.files p) [
  | none ↦ call w (put_node w.files p (some (file []))) (ok tt)
  | some _ ↦ call w w.files (err (io_error ErrorKind.already_exists))
]

abbrev open_at : Bytes → World → Io Bytes → Io Bytes × World
open_at p w (err e) = call w w.files (err e)
open_at p w (ok q) = elim (w.files q) [
  | none ↦ call w (put_node w.files q (some (file []))) (ok q)
  | some node ↦ elim node [
    | file s ↦ call w (put_node w.files q (some (file []))) (ok q)
    | special ↦ call w w.files (ok q)
    | _ ↦ call w w.files (err (io_error ErrorKind.other))
  ]
]

-- `OpenOptions::new().write(true).create(true).truncate(true).open(path)`, with the file's own path.
unfoldable pub open_truncated : Bytes → Sys Bytes
unfolding resolve
open_truncated p w = open_at p w (resolve max_links w.files p)

abbrev pub is_special_node : Option Node → Bool
is_special_node none = false
is_special_node (some n) = elim n [ special ↦ true | _ ↦ false ]

abbrev open_existing_at : Bytes → World → Io Bytes → Io Bytes × World
open_existing_at p w (err e) = call w w.files (err e)
open_existing_at p w (ok q) = elim (w.files q) [
  | none ↦ call w (put_node w.files q (some (file []))) (ok q)
  | some node ↦ elim node [
    | dir ↦ call w w.files (err (io_error ErrorKind.other))
    | _ ↦ call w w.files (ok q)
  ]
]

-- `OpenOptions::new().create(true).read(true).write(true).open(path)`, with the file's own path.
unfoldable pub open_or_create : Bytes → Sys Bytes
unfolding resolve
open_or_create p w = open_existing_at p w (resolve max_links w.files p)

abbrev lock_at : Bytes → World → Bool → Io (Unit {0}) × World
lock_at p w true = call w w.files (err (io_error ErrorKind.would_block))
lock_at p w false = elim (w.faults w.clock) [
  | none ↦ (ok tt, record (tick w) { locks = λ q. if bytes_eq p q then true else w.locks q })
  | some f ↦ (err f.error, tick w)
]

-- `Flock::lock(file, LockExclusiveNonblock)`: an exclusive lock that another open file holds makes
-- the call fail with `EWOULDBLOCK`.
unfoldable pub flock : Bytes → Sys (Unit {0})
flock p w = lock_at p w (w.locks p)

-- The lock of a file is given up when the file is dropped.
unfoldable pub unlock : Bytes → World → World
unlock p w = record w { locks = λ q. if bytes_eq p q then false else w.locks q }

-- `file.write_all(data)` on a file that was opened empty.
unfoldable pub write_all : Bytes → Bytes → Sys (Unit {0})
write_all p content w =
    if is_special_node (w.files p)
    then call w w.files (ok tt)
    else faulted (w.faults w.clock) w (put_node w.files p (some (file content)))
        (λ f. put_node w.files p (some (file (take f.written content)))) (ok tt)

-- `file.flush()`, `file.sync_all()` and a directory's `sync_all()`: no change that a read shows.
unfoldable pub sync : Sys (Unit {0})
sync w = call w w.files (ok tt)

-- `hard_link(source, target)`
unfoldable pub hard_link : Bytes → Bytes → Sys (Unit {0})
hard_link source target w = elim (w.files source) [
  | none ↦ call w w.files (err (io_error ErrorKind.not_found))
  | some node ↦ elim (w.files target) [
    | some _ ↦ call w w.files (err (io_error ErrorKind.already_exists))
    | none ↦ elim node [
      | dir ↦ call w w.files (err (io_error ErrorKind.permission_denied))
      | n ↦ call w (put_node w.files target (some n)) (ok tt)
    ]
  ]
]

abbrev is_dir_node : Node → Bool
is_dir_node dir = true
is_dir_node _ = false

abbrev fits_over : Node → Node → Bool → Bool
fits_over node old empty =
    if is_dir_node node then is_dir_node old && empty else not (is_dir_node old)

-- What stands where a rename wants to put its source: nothing is done if both are links of one file; a
-- directory takes the place of an empty directory only, and what is none that of what is none.
abbrev rename_over : Bytes → Bytes → Node → Node → Sys (Unit {0})
rename_over source target node old w =
    if bytes_eq source target || w.same_file w.clock source target
    then call w w.files (ok tt)
    else if fits_over node old (w.is_empty_dir w.clock target)
    then call w (put_node (put_node w.files source none) target (some node)) (ok tt)
    else call w w.files (err (io_error ErrorKind.other))

-- `rename(source, target)`
unfoldable pub rename : Bytes → Bytes → Sys (Unit {0})
rename source target w = elim (w.files source) [
  | none ↦ call w w.files (err (io_error ErrorKind.not_found))
  | some node ↦ elim (w.files target) [
    | none ↦ call w (put_node (put_node w.files source none) target (some node)) (ok tt)
    | some old ↦ rename_over source target node old w
  ]
]

-- The node behind a path, links followed.
abbrev pub node_at : Files → Io Bytes → Option Node
node_at fs (ok p) = fs p
node_at fs (err e) = none

unfoldable pub metadata : Files → Bytes → Option Node
unfolding resolve
metadata fs p = node_at fs (resolve max_links fs p)

-- `path.exists()`, `path.is_dir()` and `path.is_file()`
abbrev pub exists_node : Option Node → Bool
exists_node none = false
exists_node (some n) = true

abbrev pub is_dir_found : Option Node → Bool
is_dir_found none = false
is_dir_found (some n) = is_dir_node n

abbrev pub is_file_found : Option Node → Bool
is_file_found none = false
is_file_found (some n) = elim n [ file s ↦ true | _ ↦ false ]

unfoldable pub path_exists : Files → Bytes → Bool
unfolding metadata
path_exists fs p = exists_node (metadata fs p)

unfoldable pub is_dir : Files → Bytes → Bool
unfolding metadata
is_dir fs p = is_dir_found (metadata fs p)

unfoldable pub is_file : Files → Bytes → Bool
unfolding metadata
is_file fs p = is_file_found (metadata fs p)

-- What is a directory or a file exists.
pub no_dir_missing : (fs : Files) (p : Bytes) → (not (path_exists fs p) && is_dir fs p) ≡ false
unfolding path_exists is_dir
no_dir_missing fs p = missing_dir (metadata fs p)
  where
    missing_dir : (n : Option Node) → (not (exists_node n) && is_dir_found n) ≡ false
    missing_dir none = refl
    missing_dir (some n) = refl

pub no_file_missing : (fs : Files) (p : Bytes) → (not (path_exists fs p) && is_file fs p) ≡ false
unfolding path_exists is_file
no_file_missing fs p = missing_file (metadata fs p)
  where
    missing_file : (n : Option Node) → (not (exists_node n) && is_file_found n) ≡ false
    missing_file none = refl
    missing_file (some n) = refl
