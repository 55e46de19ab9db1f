-- ===== src/PidFile/Store/Publish.antt =====
-- `write_epoch_record` and `remove_record_if_matches` as a whole, with faults anywhere.
use nyanpasu_utils.Prelude.{ℕ, ◌≡◌, refl, ◌≢◌, ◌⊎◌, inl, inr, sym, ◌∙◌, Option, none, some, Bytes}
use mathlib.Core.Path.{subst}
use nyanpasu_utils.Io.{Io, ok, err, ErrorKind, io_error}
use nyanpasu_utils.System.World.{World, Node}
use nyanpasu_utils.System.Act.{Sys}
use nyanpasu_utils.System.Triple.{
  Keeps, Keeps-of, Keeps_at, Keeps-bind, Keeps-lift, Keeps-attempt, Triple, Triple_of, Triple-bind,
  Triple-if, Triple-weaken, Triple_result, Triple_error, Triple-lift, Outcome,
}
use nyanpasu_utils.System.Files.{hard_link}
use nyanpasu_utils.System.Files.Laws.{
  At, symlink_metadata-Keeps, try_exists-Keeps, hard_link-Keeps, hard_link-Keeps_target,
}
use nyanpasu_utils.PidFile.Record.{EpochPidRecord}
use nyanpasu_utils.PidFile.Store.{
  pid_target_result, validate_pid_target, fetch_add, current_pid, temp_path, write_and_clean,
  write_epoch_record,
}
use nyanpasu_utils.PidFile.Store.Laws.{
  Whole, Published, write_temp-Published, write_and_clean-Keeps, clean-frame, clean-result,
}

-- No temporary name of the record is its own name.
abbrev pub HasTemps : Bytes → Type 0
HasTemps path = (own_pid counter : ℕ) → temp_path path own_pid counter ≢ path

validate-Keeps :
    (q : Bytes) (n : Option Node) (path : Bytes) → Keeps (At q n) (validate_pid_target path)
unfolding validate_pid_target
validate-Keeps q n path =
    Keeps-bind (Keeps-attempt (symlink_metadata-Keeps q n path))
      λ found. Keeps-lift (pid_target_result found)

counter-Keeps : (q : Bytes) (n : Option Node) → Keeps (At q n) fetch_add
counter-Keeps q n = Keeps-of fetch_add (λ w h. h)

pid-Keeps : (q : Bytes) (n : Option Node) → Keeps (At q n) current_pid
pid-Keeps q n = Keeps-of current_pid (λ w h. h)

module _ (path : Bytes) (r : EpochPidRecord) (temps : HasTemps path) where
  clean-Published :
      (temp : Bytes)
      → temp ≢ path
      → Triple
          (At path none)
          (write_and_clean temp path r)
          (λ _ w. Whole r (w.files path))
          (λ _. Published path r)
  clean-Published temp ne =
      Triple_of (write_and_clean temp path r) (λ _ w. Whole r (w.files path))
        (λ _. Published path r)
        (λ w a h e.
          subst (Whole r) (sym (clean-frame temp path r ne w))
            (Triple_result _ (write_temp-Published temp path r ne) w a
              (sym (clean-result temp path r ne w) ∙ e) h).0)
        (λ w x h e.
          subst (λ n. (n ≡ none) ⊎ Whole r n) (sym (clean-frame temp path r ne w))
            (Triple_error _ (write_temp-Published temp path r ne) w x
              (sym (clean-result temp path r ne w) ∙ e) h))

  write-Published :
      Triple
        (At path none)
        (write_epoch_record path r)
        (λ _ w. Whole r (w.files path))
        (λ _. Published path r)
  unfolding write_epoch_record
  write-Published =
      Triple-bind (λ _. At path none) (early (validate-Keeps path none path))
        λ _.
          Triple-bind (λ _. At path none) (early (try_exists-Keeps path none path))
            λ found.
              Triple-if found _ _
                (λ e.
                  Triple-lift (err (io_error ErrorKind.already_exists)) (λ a w k h. cc)
                    (λ x w k h. inl h))
                λ e.
                  Triple-bind (λ _. At path none) (early (counter-Keeps path none))
                    λ counter.
                      Triple-bind (λ _. At path none) (early (pid-Keeps path none))
                        λ own_pid.
                          clean-Published (temp_path path own_pid counter) (temps own_pid counter)
    where
      early :
          {A : Type 0} {m : Sys A}
          → Keeps (At path none) m
          → Triple (At path none) m (λ _. At path none) (λ _. Published path r)
      early t = Triple-weaken {R = λ _. At path none} (λ w h. h) (λ a w h. h) (λ e w h. inl h) t

  -- Whatever call fails on the way: a record file that was not there is afterwards absent or holds
  -- the whole record, never a part of it. It is assumed that no temporary name of the record is its
  -- own name.
  pub write_atomic :
      (w : World) → w.files path ≡ none → Published path r (write_epoch_record path r w).1
  write_atomic w h =
      outcome_either (write_epoch_record path r w).0 (write_epoch_record path r w).1
        (write-Published.at w h)
    where
      outcome_either :
          (o : Io (Unit {0})) (v : World)
          → Outcome (λ _ u. Whole r (u.files path)) (λ _. Published path r) o v
          → Published path r v
      outcome_either (ok a) v t = inr t
      outcome_either (err e) v t = t

  -- A write that reports success has put the whole record into a file that was not there. It is
  -- assumed that no temporary name of the record is its own name.
  pub write_lem :
      (w : World)
      → w.files path ≡ none
      → (write_epoch_record path r w).0 ≡ ok tt
      → Whole r ((write_epoch_record path r w).1.files path)
  write_lem w h e = Triple_result _ write-Published w tt e h

  write-Keeps :
      (q : Bytes) (n : Option Node)
      → ((own_pid counter : ℕ) → temp_path path own_pid counter ≢ q)
      → ((temp : Bytes) → Keeps (At q n) (hard_link temp path))
      → Keeps (At q n) (write_epoch_record path r)
  unfolding write_epoch_record
  write-Keeps q n free link = Keeps-bind (validate-Keeps q n path) λ _.
      Keeps-bind (try_exists-Keeps q n path) λ found.
        Triple-if found _ _ (λ e. Keeps-lift (err (io_error ErrorKind.already_exists)))
          λ e. Keeps-bind (counter-Keeps q n) λ counter. Keeps-bind (pid-Keeps q n) λ own_pid.
            write_and_clean-Keeps (temp_path path own_pid counter) path r q n (free own_pid counter)
              (link (temp_path path own_pid counter))

  -- A file that stands under the record's name is never replaced by a write, whatever it holds. It
  -- is assumed that no temporary name of the record is its own name.
  pub write-keeps_existing :
      (n : Node) (w : World)
      → w.files path ≡ some n
      → (write_epoch_record path r w).1.files path ≡ some n
  write-keeps_existing n w h =
      Keeps_at (write-Keeps path (some n) temps (λ temp. hard_link-Keeps_target temp path n)) w h

  -- A write leaves every file but the record's, and those that have one of its temporary names, as
  -- it was. It is assumed that no temporary name of the record is its own name.
  pub write-frame :
      (q : Bytes) (w : World)
      → path ≢ q
      → ((own_pid counter : ℕ) → temp_path path own_pid counter ≢ q)
      → (write_epoch_record path r w).1.files q ≡ w.files q
  write-frame q w ne free =
      Keeps_at (write-Keeps q (w.files q) free (λ temp. hard_link-Keeps q (w.files q) temp path ne))
        w refl
