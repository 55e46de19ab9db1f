-- ===== src/Supervisor/Storm/Laws.antt =====
-- The restart window of process/supervisor.rs.
use nyanpasu_utils.Prelude.{
  ℕ, ◌-◌, ◌≤◌, ◌≡◌, refl, ap, ◌∙◌, List, [], ◌∷◌, ◌++◌, leb, sym, Bool-cases, inl, inr, append-nil,
  append_assoc, if◌then◌else◌, All, All-append, All-map, arith,
}
use nyanpasu_utils.Supervisor.Storm.{RestartStormPolicy, pop_expired, note_exit, note_all}

-- The oldest first.
abbrev pub IsSorted : List ℕ → Type 0
IsSorted [] = Unit
IsSorted (t ∷ ts) = All (λ u. t ≤ u) ts × IsSorted ts

-- Those that lie in the window before `now`.
pub recent : ℕ → ℕ → List ℕ → List ℕ
recent window now [] = []
recent window now (at ∷ exits) =
    let rest = recent window now exits in if leb (now - at) window then at ∷ rest else rest

recent-All :
    (window now at : ℕ) (exits : List ℕ)
    → now - at ≤ window
    → All (λ u. at ≤ u) exits
    → recent window now exits ≡ exits
unfolding recent
recent-All window now at [] h later = refl
recent-All window now at (t ∷ exits) h later =
    ground (arith, recent-All window now at exits h later.1, later.0)

-- Of exits in the order of their times, popping the expired ones from the front leaves the recent ones.
pub pop_expired_lem :
    (window now : ℕ) (exits : List ℕ)
    → IsSorted exits
    → pop_expired window now exits ≡ recent window now exits
unfolding pop_expired recent
pop_expired_lem window now [] sorted = refl
pop_expired_lem window now (at ∷ exits) sorted =
    ground (arith, pop_expired_lem window now exits sorted.1, recent-All window now at exits)

recent-append :
    (window now : ℕ) (a b : List ℕ)
    → recent window now (a ++ b) ≡ recent window now a ++ recent window now b
unfolding recent
recent-append window now [] b = refl
recent-append window now (t ∷ a) b = ground (arith, recent-append window now a b)

-- What had left the window earlier is not in it later.
recent-recent :
    (window earlier now : ℕ) (exits : List ℕ)
    → earlier ≤ now
    → recent window now (recent window earlier exits) ≡ recent window now exits
unfolding recent
recent-recent window earlier now [] h = refl
recent-recent window earlier now (t ∷ exits) h =
    ground (arith, recent-recent window earlier now exits h)

All-recent :
    (P : ℕ → Type 0) (window now : ℕ) (exits : List ℕ)
    → All P exits
    → All P (recent window now exits)
unfolding recent
All-recent P window now [] h = tt
All-recent P window now (t ∷ exits) h = elim (Bool-cases (leb (now - t) window)) [
  | inl e ↦ rw e (h.0, All-recent P window now exits h.1)
  | inr e ↦ rw e (All-recent P window now exits h.1)
]

IsSorted-recent :
    (window now : ℕ) (exits : List ℕ) → IsSorted exits → IsSorted (recent window now exits)
unfolding recent
IsSorted-recent window now [] h = tt
IsSorted-recent window now (t ∷ exits) h = elim (Bool-cases (leb (now - t) window)) [
  | inl e ↦
      rw e (All-recent (λ u. t ≤ u) window now exits h.0, IsSorted-recent window now exits h.1)
  | inr e ↦ rw e (IsSorted-recent window now exits h.1)
]

pub IsSorted-snoc :
    (exits : List ℕ) (now : ℕ)
    → IsSorted exits
    → All (λ t. t ≤ now) exits
    → IsSorted (exits ++ now ∷ [])
IsSorted-snoc [] now h k = (tt, tt)
IsSorted-snoc (t ∷ exits) now h k =
    (All-append (λ u. t ≤ u) exits (now ∷ []) h.0 (k.0, tt), IsSorted-snoc exits now h.1 k.1)

-- One exit more: the window that had been cut to what was recent then is cut to what is recent now.
note_exit-recent :
    (p : RestartStormPolicy) (history : List ℕ) (earlier now : ℕ)
    → IsSorted history
    → All (λ t. t ≤ now) history
    → earlier ≤ now
    → note_exit p now (recent p.window earlier history) ≡ recent p.window now (history ++ now ∷ [])
unfolding note_exit
note_exit-recent p history earlier now sorted before h =
    pop_expired_lem p.window now (recent p.window earlier history ++ now ∷ []) (
      IsSorted-snoc (recent p.window earlier history) now
        (IsSorted-recent p.window earlier history sorted)
        (All-recent (λ t. t ≤ now) p.window earlier history before))
    ∙ recent-append p.window now (recent p.window earlier history) (now ∷ [])
    ∙ ap (λ xs. xs ++ recent p.window now (now ∷ [])) (recent-recent p.window earlier now history h)
    ∙ sym (recent-append p.window now history (now ∷ []))

-- The last of the times, which come in order.
abbrev pub latest : ℕ → List ℕ → ℕ
latest t [] = t
latest t (u ∷ times) = latest u times

note_all-recent :
    (p : RestartStormPolicy) (times history : List ℕ) (earlier : ℕ)
    → IsSorted history
    → All (λ t. t ≤ earlier) history
    → IsSorted (earlier ∷ times)
    → note_all p times (recent p.window earlier history)
      ≡ recent p.window (latest earlier times) (history ++ times)
unfolding note_all
note_all-recent p [] history earlier sorted before later =
    ap (recent p.window earlier) (sym (append-nil history))
note_all-recent p (now ∷ times) history earlier sorted before later =
    ap (note_all p times) (note_exit-recent p history earlier now sorted before' later.0.0)
    ∙ note_all-recent p times (history ++ now ∷ []) now (IsSorted-snoc history now sorted before')
        (All-append (λ t. t ≤ now) history (now ∷ []) before' (omega arith, tt)) later.1
    ∙ ap (recent p.window (latest now times)) (append_assoc history (now ∷ []) times)
  where
    before' : All (λ t. t ≤ now) history
    before' =
        All-map (λ t. t ≤ earlier) (λ t. t ≤ now) history (λ t h. omega (arith, later.0.0)) before

pub note_all-append :
    (p : RestartStormPolicy) (times exits : List ℕ) (t : ℕ)
    → note_all p (times ++ t ∷ []) exits ≡ note_exit p t (note_all p times exits)
unfolding note_all
note_all-append p [] exits t = refl
note_all-append p (u ∷ times) exits t = note_all-append p times (note_exit p u exits) t

-- After abnormal exits at times in order, the window holds exactly those of them that are not older
-- than its length at the last of them; what was dropped on the way is never missed.
pub window_exact :
    (p : RestartStormPolicy) (t : ℕ) (times : List ℕ)
    → IsSorted (t ∷ times)
    → note_all p (t ∷ times) [] ≡ recent p.window (latest t times) (t ∷ times)
unfolding recent
window_exact p t times sorted =
    note_all-recent p (t ∷ times) [] t tt tt ((omega arith, sorted.0), sorted)
