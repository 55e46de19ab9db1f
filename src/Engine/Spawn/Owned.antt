-- ===== src/Engine/Spawn/Owned.antt =====
-- `spawn` of process/engine.rs: what stands behind a child that is spawned, or is not.
use mathlib.Core.Path.{subst}
use nyanpasu_utils.Prelude.{
  ℕ, ◌≡◌, refl, sym, ap, Bool, true, false, Option, none, some, List, [], ◌∷◌, Bytes, arith,
  Bool-cases, inl, inr, if◌then◌else◌,
}
use nyanpasu_utils.Io.{IoError, Result, ok, err, ok_inj}
use nyanpasu_utils.System.World.{World}
use nyanpasu_utils.Process.{ProcessError}
use nyanpasu_utils.PidFile.Record.{EpochPidFile}
use nyanpasu_utils.PidFile.Guard.{PidFileGuard, write}
use nyanpasu_utils.PidFile.Guard
use nyanpasu_utils.PidFile.Guard.Publish.{Recorded, guard_write_lem}
use nyanpasu_utils.PidFile.Store.Publish.{HasTemps}
use nyanpasu_utils.Engine.Command.{Command, epoch}
use nyanpasu_utils.Engine.Spawn.{
  Launch, EngineAct, child_started, kill_all_called, run_finished, pump_started, SpawnParts,
  Spawned, prepare_guard, is_epoch, start_pumping, after_write, record_child, with_pid, start_child,
  after_prepare, spawn,
}

-- Whether a child was started, and the kill of its group not called since.
pub leaves_child : List EngineAct → Bool
leaves_child [] = false
leaves_child (child_started pk ∷ acts) = true
leaves_child (kill_all_called ∷ acts) = false
leaves_child (run_finished ∷ acts) = leaves_child acts
leaves_child (pump_started parts ∷ acts) = leaves_child acts

abbrev NoIo : Spawned → Type 0
NoIo o = (e : IoError) → o.result ≡ err (ProcessError.io e) → leaves_child o.acts ≡ false

start_pumping-NoIo :
    (cmd : Command) (a : Launch) (acts : List EngineAct) (pid : ℕ) (g : Option PidFileGuard)
    (w : World)
    → NoIo (start_pumping cmd a acts pid g w)
unfolding start_pumping
start_pumping-NoIo cmd a acts pid g w e h = ground arith

after_write-NoIo :
    (cmd : Command) (a : Launch) (acts : List EngineAct) (pid : ℕ) (g : PidFileGuard)
    (written : Result IoError PidFileGuard × World)
    → NoIo (after_write cmd a acts pid g written)
unfolding after_write leaves_child
after_write-NoIo cmd a acts pid g (ok g', w) e h = start_pumping-NoIo cmd a acts pid (some g') w e h
after_write-NoIo cmd a acts pid g (err x, w) e h = elim (Bool-cases (is_epoch cmd.pid_file)) [
  | inl q ↦ rw q refl
  | inr q ↦ rw q (start_pumping-NoIo cmd a acts pid (some g) w e (rw q at h))
]

record_child-NoIo :
    (cmd : Command) (a : Launch) (acts : List EngineAct) (pid : ℕ) (g : Option PidFileGuard)
    (w : World)
    → NoIo (record_child cmd a acts pid g w)
unfolding record_child
record_child-NoIo cmd a acts pid none w e h = start_pumping-NoIo cmd a acts pid none w e h
record_child-NoIo cmd a acts pid (some g) w e h =
    after_write-NoIo cmd a acts pid g (write g pid w) e h

either : (P : Spawned → Type 0) (b : Bool) (x y : Spawned) → P x → P y → P (if b then x else y)
either P true x y p q = p
either P false x y p q = q

with_pid-NoIo :
    (cmd : Command) (a : Launch) (acts : List EngineAct) (g : Option PidFileGuard) (w : World)
    (pid : Option ℕ)
    → NoIo (with_pid cmd a acts g w pid)
unfolding with_pid
with_pid-NoIo cmd a acts g w none e h = cc
with_pid-NoIo cmd a acts g w (some pid) e h = record_child-NoIo cmd a acts pid g w e h

start_child-NoIo :
    (cmd : Command) (a : Launch) (g : Option PidFileGuard) (w : World)
    → NoIo (start_child cmd a g w)
unfolding start_child
start_child-NoIo cmd a g w =
    either NoIo a.group_made _ _
      (either NoIo a.starts _ _ (with_pid-NoIo cmd a _ g w a.pid) (λ e h. cc)) (λ e h. cc)

prepared-NoIo :
    (cmd : Command) (a : Launch) (p : Result IoError (Option PidFileGuard) × World)
    → NoIo (after_prepare cmd a p)
unfolding after_prepare leaves_child
prepared-NoIo cmd a (ok g, w) e h = start_child-NoIo cmd a g w e h
prepared-NoIo cmd a (err x, w) e h = refl

-- A spawn that fails with an error of the operating system, as of a pid file, leaves
-- no child: none was started, or the kill of its group was called after it was.
pub spawn_io_error :
    (cmd : Command) (a : Launch) (w : World) (e : IoError)
    → (spawn cmd a w).result ≡ err (ProcessError.io e)
    → leaves_child (spawn cmd a w).acts ≡ false
unfolding spawn
spawn_io_error cmd a w e h = prepared-NoIo cmd a (prepare_guard cmd w) e h

module _ (before : World) (spec : EpochPidFile) (exe : Bytes) where
  -- The child that is spawned is recorded by the guard.
  abbrev Owned : Spawned → Type 0
  Owned o =
      (parts : SpawnParts)
      → o.result ≡ ok parts
      → (g : PidFileGuard) × (o.guard ≡ some g) × Recorded before spec exe parts.pid g o.world

  pumping-Owned :
      (cmd : Command) (a : Launch) (acts : List EngineAct) (pid : ℕ) (g : PidFileGuard) (w : World)
      → Recorded before spec exe pid g w
      → Owned (start_pumping cmd a acts pid (some g) w)
  unfolding start_pumping
  pumping-Owned cmd a acts pid g w r =
      either Owned a.has_events _ _
        (λ parts h. (
          g,
          refl,
          subst (λ n. Recorded before spec exe n g w) (ap (λ (p : SpawnParts). p.pid) (ok_inj h)) r,
        ))
        (λ parts h. cc)

  written-Owned :
      (cmd : Command) (a : Launch) (acts : List EngineAct) (pid : ℕ) (g : PidFileGuard)
      (written : Result IoError PidFileGuard × World)
      → is_epoch cmd.pid_file ≡ true
      → ((g' : PidFileGuard) → written.0 ≡ ok g' → Recorded before spec exe pid g' written.1)
      → Owned (after_write cmd a acts pid g written)
  unfolding after_write
  written-Owned cmd a acts pid g (ok g', w) q r = pumping-Owned cmd a acts pid g' w (r g' refl)
  written-Owned cmd a acts pid g (err e, w) q r = rw q (λ parts h. cc)

  with_pid-Owned :
      (cmd : Command) (a : Launch) (acts : List EngineAct) (g : PidFileGuard) (w : World)
      (pid : Option ℕ)
      → is_epoch cmd.pid_file ≡ true
      → ((pid : ℕ) (g' : PidFileGuard)
          → (write g pid w).0 ≡ ok g'
          → Recorded before spec exe pid g' (write g pid w).1)
      → Owned (with_pid cmd a acts (some g) w pid)
  unfolding with_pid record_child
  with_pid-Owned cmd a acts g w none q r = λ parts h. cc
  with_pid-Owned cmd a acts g w (some pid) q r =
      written-Owned cmd a acts pid g (write g pid w) q (r pid)

-- A spawn with an epoch pid file that succeeds, and whose record's name was free when its guard was
-- prepared, has recorded its child: the guard and the file hold the record of the pid that is
-- returned, whose identity is what the process table showed for that pid at one call since the guard
-- was prepared, with the expected executable. It is assumed that no temporary name of the record is its
-- own name.
pub spawn_owned :
    (cmd : Command) (a : Launch) (w w' : World) (given spec : EpochPidFile) (exe : Bytes)
    (parts : SpawnParts)
    → cmd.pid_file ≡ some (epoch given)
    → prepare_guard cmd w ≡ (ok (some (Guard.epoch spec exe none)), w')
    → HasTemps spec.path
    → w'.files spec.path ≡ none
    → (spawn cmd a w).result ≡ ok parts
    → (g : PidFileGuard) × ((spawn cmd a w).guard ≡ some g)
      × Recorded w' spec exe parts.pid g (spawn cmd a w).world
unfolding spawn
spawn_owned cmd a w w' given spec exe parts file prepared temps free h =
    subst (λ p. Owned w' spec exe (after_prepare cmd a p)) (sym prepared) owned parts h
  where
    owned : Owned w' spec exe (after_prepare cmd a (ok (some (Guard.epoch spec exe none)), w'))
    owned =
        unfold after_prepare start_child in
        either (Owned w' spec exe) a.group_made _ _
          (either (Owned w' spec exe) a.starts _ _
            (with_pid-Owned w' spec exe cmd a _ (Guard.epoch spec exe none) w' a.pid
              (ap is_epoch file) (λ pid g' k. guard_write_lem spec exe none pid g' w' temps free k))
            (λ parts h. cc))
          (λ parts h. cc)
