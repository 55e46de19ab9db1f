-- ===== src/System/Files/Laws.antt =====
-- What the calls on files leave alone, and what they leave behind.
use nyanpasu_utils.Prelude.{
  ◌≡◌, ◌≢◌, Option, none, some, [], Bytes, bytes_eq_iff, bytes_eq_refl, arith,
}
use nyanpasu_utils.Io.{IoError, err}
use nyanpasu_utils.System.World.{World, Node, file}
use nyanpasu_utils.System.Triple.{Triple, Triple_of, Keeps, Keeps-of}
use nyanpasu_utils.System.Files.{
  symlink_metadata, read_to_string, try_exists, remove_file, create_new, write_all, sync, hard_link,
}

-- The node under a path.
abbrev pub At : Bytes → Option Node → World → Type 0
At q n w = w.files q ≡ n

abbrev pub Anything : {A : Type 0} → A → World → Type 0
Anything a w = Unit {0}

module _ (q : Bytes) (n : Option Node) where
  pub symlink_metadata-Keeps : (p : Bytes) → Keeps (At q n) (symlink_metadata p)
  unfolding symlink_metadata
  symlink_metadata-Keeps p = Keeps-of _ (λ w h. ground arith)

  pub read_to_string-Keeps : (p : Bytes) → Keeps (At q n) (read_to_string p)
  unfolding read_to_string
  read_to_string-Keeps p = Keeps-of _ (λ w h. ground arith)

  pub try_exists-Keeps : (p : Bytes) → Keeps (At q n) (try_exists p)
  unfolding try_exists
  try_exists-Keeps p = Keeps-of _ (λ w h. ground arith)

  pub sync-Keeps : Keeps (At q n) sync
  unfolding sync
  sync-Keeps = Keeps-of _ (λ w h. ground arith)

  pub remove_file-Keeps : (p : Bytes) → p ≢ q → Keeps (At q n) (remove_file p)
  unfolding remove_file
  remove_file-Keeps p ne = Keeps-of _ (λ w h. ground (arith, bytes_eq_iff p q, ne))

  pub create_new-Keeps : (p : Bytes) → p ≢ q → Keeps (At q n) (create_new p)
  unfolding create_new
  create_new-Keeps p ne = Keeps-of _ (λ w h. ground (arith, bytes_eq_iff p q, ne))

  pub write_all-Keeps : (p content : Bytes) → p ≢ q → Keeps (At q n) (write_all p content)
  unfolding write_all
  write_all-Keeps p content ne = Keeps-of _ (λ w h. ground (arith, bytes_eq_iff p q, ne))

  pub hard_link-Keeps : (s t : Bytes) → t ≢ q → Keeps (At q n) (hard_link s t)
  unfolding hard_link
  hard_link-Keeps s t ne = Keeps-of _ (λ w h. ground (arith, bytes_eq_iff t q, ne))

-- A link is never made over what is there.
pub hard_link-Keeps_target : (s t : Bytes) (n : Node) → Keeps (At t (some n)) (hard_link s t)
unfolding hard_link
hard_link-Keeps_target s t n = Keeps-of _ (λ w h. ground (arith, bytes_eq_refl t))

pub create_new_lem :
    (p : Bytes) → Triple (Anything p) (create_new p) (λ _. At p (some (file []))) Anything
unfolding create_new
create_new_lem p =
    Triple_of _ (λ _. At p (some (file []))) Anything (λ w a h e. ground (arith, bytes_eq_refl p))
      (λ w a h e. tt)

pub write_all_lem :
    (p content old : Bytes)
    → Triple
        (At p (some (file old)))
        (write_all p content)
        (λ _. At p (some (file content)))
        Anything
unfolding write_all
write_all_lem p content old =
    Triple_of _ (λ _. At p (some (file content))) Anything
      (λ w a h e. ground (arith, bytes_eq_refl p)) (λ w a h e. tt)

pub hard_link_lem :
    (s t : Bytes) (n : Node) → Triple (At s (some n)) (hard_link s t) (λ _. At t (some n)) Anything
unfolding hard_link
hard_link_lem s t n =
    Triple_of _ (λ _. At t (some n)) Anything (λ w a h e. ground (arith, bytes_eq_refl t))
      (λ w a h e. tt)

pub remove_file_lem : (p : Bytes) → Triple (Anything p) (remove_file p) (λ _. At p none) Anything
unfolding remove_file
remove_file_lem p =
    Triple_of _ (λ _. At p none) Anything (λ w a h e. ground (arith, bytes_eq_refl p))
      (λ w a h e. tt)

-- A link that fails changes nothing.
pub hard_link_fails :
    (s t : Bytes) (w : World) (e : IoError)
    → (hard_link s t w).0 ≡ err e
    → (hard_link s t w).1.files t ≡ w.files t
unfolding hard_link
hard_link_fails s t w e h = ground (arith, bytes_eq_refl t)
