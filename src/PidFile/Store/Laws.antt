-- ===== src/PidFile/Store/Laws.antt =====
-- The record on disk of process/pid_file.rs: publication, reading and removal.
use nyanpasu_utils.Prelude.{◌≡◌, refl, ◌≢◌, ◌⊎◌, inl, inr, ◌∙◌, Option, none, some, [], Bytes}
use nyanpasu_utils.Io.{ok}
use nyanpasu_utils.System.World.{World, Node, file}
use nyanpasu_utils.System.Files.{create_new, write_all, sync, hard_link}
use nyanpasu_utils.System.Triple.{
  Keeps, Keeps_at, Keeps-bind, Keeps-lift, Keeps-attempt, Keeps-map_err, Triple, Triple_of,
  Triple-bind, Triple-map_err, Triple-both, Triple-weaken, Triple_result, Triple-assume,
  Triple-lift,
}
use nyanpasu_utils.System.Files.Laws.{
  At, sync-Keeps, remove_file-Keeps, create_new-Keeps, write_all-Keeps, create_new_lem,
  write_all_lem, hard_link_lem, hard_link_fails, remove_file_lem,
}
use nyanpasu_utils.AtomicFs.{atomic_move_new, io}
use nyanpasu_utils.PidFile.Record.{EpochPidRecord}
use nyanpasu_utils.PidFile.Format.{serialize_epoch_record}
use nyanpasu_utils.PidFile.Store.{publish_error, write_temp, write_and_clean}

-- The serialization of the record, whole.
abbrev pub Whole : EpochPidRecord → Option Node → Type 0
Whole r n = (s : Bytes) × (serialize_epoch_record r ≡ ok s) × (n ≡ some (file s))

module _ (temp path : Bytes) (r : EpochPidRecord) where
  -- What the temporary file is not, and the publication does not touch, stays.
  write_temp-Keeps :
      (q : Bytes) (n : Option Node)
      → temp ≢ q
      → Keeps (At q n) (hard_link temp path)
      → Keeps (At q n) (write_temp temp path r)
  unfolding write_temp atomic_move_new
  write_temp-Keeps q n tq link = Keeps-bind (create_new-Keeps q n temp tq) λ _.
      Keeps-bind (Keeps-lift (serialize_epoch_record r)) λ content.
        Keeps-bind (write_all-Keeps q n temp content tq) λ _. Keeps-bind (sync-Keeps q n) λ _.
          Keeps-bind (sync-Keeps q n) λ _. Keeps-map_err publish_error (
            Keeps-bind (Keeps-map_err io link)
              λ _. Keeps-map_err io (remove_file-Keeps q n temp tq))

  pub write_and_clean-Keeps :
      (q : Bytes) (n : Option Node)
      → temp ≢ q
      → Keeps (At q n) (hard_link temp path)
      → Keeps (At q n) (write_and_clean temp path r)
  unfolding write_and_clean
  write_and_clean-Keeps q n tq link =
      Keeps-bind (Keeps-attempt (write_temp-Keeps q n tq link))
        λ result. Keeps-bind (Keeps-attempt (remove_file-Keeps q n temp tq)) λ _. Keeps-lift result

-- The record's name holds nothing or the whole record.
abbrev pub Published : Bytes → EpochPidRecord → World → Type 0
Published path r w = At path none w ⊎ Whole r (w.files path)

module _ (temp path : Bytes) (r : EpochPidRecord) (ne : temp ≢ path) where
  -- The move: the name was free, and the temporary file holds the text.
  move-Published :
      (s : Bytes)
      → serialize_epoch_record r ≡ ok s
      → Triple
          (λ w. At path none w × At temp (some (file s)) w)
          (atomic_move_new temp path)
          (λ _ w. Whole r (w.files path) × At temp none w)
          (λ _. Published path r)
  unfolding atomic_move_new
  move-Published s e =
      Triple-bind (λ _. At path (some (file s)))
        (Triple-map_err io (λ e w h. h)
          (Triple_of (hard_link temp path) (λ _. At path (some (file s))) (λ _. Published path r)
            (λ w a h k. Triple_result _ (hard_link_lem temp path (file s)) w a k h.1)
            (λ w x h k. inl (hard_link_fails temp path w x k ∙ h.0))))
        λ _.
          Triple-weaken {R = λ _ w. At path (some (file s)) w × Unit {0}} (λ w h. (h, tt))
            (λ a w h. ((s, e, h.0), h.1)) (λ e' w h. inr (s, e, h.0))
            (Triple-map_err io (λ e' w h. h)
              (Triple-both (remove_file-Keeps path (some (file s)) temp ne) (remove_file_lem temp)))

  -- The file is free and the temporary file holds `t`.
  abbrev Ready : Bytes → World → Type 0
  Ready t w = At path none w × At temp (some (file t)) w

  Ready-sync : (t : Bytes) → Triple (Ready t) sync (λ _. Ready t) (λ _. Published path r)
  Ready-sync t =
      Triple-weaken {R = λ _. Ready t} (λ w h. h) (λ a w h. h) (λ e w h. inl h.0)
        (Triple-both (sync-Keeps path none) (sync-Keeps temp (some (file t))))

  Ready-create : Triple (At path none) (create_new temp) (λ _. Ready []) (λ _. Published path r)
  Ready-create =
      Triple-weaken {R = λ _ w. At path none w × Unit {0}} (λ w h. (h, tt)) (λ a w h. h)
        (λ e w h. inl h.0) (Triple-both (create_new-Keeps path none temp ne) (create_new_lem temp))

  Ready-write :
      (s : Bytes) → Triple (Ready []) (write_all temp s) (λ _. Ready s) (λ _. Published path r)
  Ready-write s =
      Triple-weaken {R = λ _ w. At path none w × Unit {0}} (λ w h. h) (λ a w h. h)
        (λ e w h. inl h.0)
        (Triple-both (write_all-Keeps path none temp s ne) (write_all_lem temp s []))

  pub write_temp-Published :
      Triple
        (At path none)
        (write_temp temp path r)
        (λ _ w. Whole r (w.files path) × At temp none w)
        (λ _. Published path r)
  unfolding write_temp
  write_temp-Published =
      Triple-bind (λ _. Ready []) Ready-create
        λ _.
          Triple-bind (λ s w. (serialize_epoch_record r ≡ ok s) × Ready [] w)
            (Triple-lift (serialize_epoch_record r) (λ s w e h. (e, h)) (λ e w x h. inl h.0))
            λ s. Triple-assume (serialize_epoch_record r ≡ ok s) λ e.
              Triple-bind (λ _. Ready s) (Ready-write s)
                λ _.
                  Triple-bind (λ _. Ready s) (Ready-sync s)
                    λ _.
                      Triple-bind (λ _. Ready s) (Ready-sync s)
                        λ _. Triple-map_err publish_error (λ e' w h. h) (move-Published s e)

  pub clean-frame :
      (w : World)
      → (write_and_clean temp path r w).1.files path ≡ (write_temp temp path r w).1.files path
  unfolding write_and_clean
  clean-frame w =
      Keeps_at (remove_file-Keeps path ((write_temp temp path r w).1.files path) temp ne)
        (write_temp temp path r w).1 refl

  pub clean-result : (w : World) → (write_and_clean temp path r w).0 ≡ (write_temp temp path r w).0
  unfolding write_and_clean
  clean-result w = refl
