-- ===== src/System/Triple.antt =====
-- Triples for code that calls the operating system: what holds before, after a result, and after an
-- error; one rule for each way to build an action.
use nyanpasu_utils.Prelude.{◌≡◌, refl, Bool, true, false, if◌then◌else◌}
use mathlib.Core.Path.{subst}
use nyanpasu_utils.Io.{Result, ok, err, ok_inj, err_inj}
use nyanpasu_utils.System.World.{World}
use nyanpasu_utils.System.Act.{Act, and_then, ◌>>=◌, pure, lift, attempt, map_err, map_result}

-- What the outcome of an action satisfies.
abbrev pub Outcome :
    {E A : Type 0} → (A → World → Type 0) → (E → World → Type 0) → Result E A → World → Type 0
Outcome Q R (ok a) w = Q a w
Outcome Q R (err e) w = R e w

pub record Triple {E A : Type 0} (P : World → Type 0) (m : Act E A) (Q : A → World → Type 0)
    (R : E → World → Type 0) : Type 0 where
  pub at : (w : World) → P w → Outcome Q R (m w).0 (m w).1

lift-Outcome :
    {E A : Type 0} (Q : A → World → Type 0) (R : E → World → Type 0) (r : Result E A) (w : World)
    → ((a : A) → r ≡ ok a → Q a w)
    → ((e : E) → r ≡ err e → R e w)
    → Outcome Q R r w
lift-Outcome Q R (ok a) w h k = h a refl
lift-Outcome Q R (err e) w h k = k e refl

result_outcome :
    {E A : Type 0} (Q : A → World → Type 0) (R : E → World → Type 0) (r : Result E A) (w : World)
    (a : A)
    → r ≡ ok a
    → Outcome Q R r w
    → Q a w
result_outcome Q R (ok b) w a e h = subst (λ x. Q x w) (ok_inj e) h
result_outcome Q R (err x) w a e h = cc

error-Outcome :
    {E A : Type 0} (Q : A → World → Type 0) (R : E → World → Type 0) (r : Result E A) (w : World)
    (e : E)
    → r ≡ err e
    → Outcome Q R r w
    → R e w
error-Outcome Q R (ok b) w x e h = cc
error-Outcome Q R (err y) w x e h = subst (λ z. R z w) (err_inj e) h

map-Outcome :
    {E F A : Type 0} (Q : A → World → Type 0) (R : E → World → Type 0) (S : F → World → Type 0)
    (f : E → F) (r : Result E A) (w : World)
    → ((e : E) (w : World) → R e w → S (f e) w)
    → Outcome Q R r w
    → Outcome Q S (map_result f r) w
map-Outcome Q R S f (ok a) w k h = h
map-Outcome Q R S f (err e) w k h = k e w h

bind-Outcome :
    {E A B : Type 0} (Q : A → World → Type 0) (R : E → World → Type 0) (S : B → World → Type 0)
    (f : A → Act E B) (r : Result E A) (w : World)
    → ((a : A) → Triple (Q a) (f a) S R)
    → Outcome Q R r w
    → Outcome S R (and_then (r, w) f).0 (and_then (r, w) f).1
bind-Outcome Q R S f (ok a) w t h = (t a).at w h
bind-Outcome Q R S f (err e) w t h = h

module _ {E A : Type 0} {P : World → Type 0} {Q : A → World → Type 0} {R : E → World → Type 0} where
  pub Triple-pure : (a : A) → ((w : World) → P w → Q a w) → Triple {E = E} P (pure a) Q R
  Triple-pure a h = record { at = h }

  pub Triple-lift :
      (r : Result E A)
      → ((a : A) (w : World) → r ≡ ok a → P w → Q a w)
      → ((e : E) (w : World) → r ≡ err e → P w → R e w)
      → Triple P (lift r) Q R
  Triple-lift r h k = record {
    at = λ w p. lift-Outcome Q R r w (λ a e. h a w e p) (λ e q. k e w q p);
  }

  pub Triple-if :
      (b : Bool) (m n : Act E A)
      → (b ≡ true → Triple P m Q R)
      → (b ≡ false → Triple P n Q R)
      → Triple P (if b then m else n) Q R
  Triple-if true m n h k = h refl
  Triple-if false m n h k = k refl

  -- What a triple says when the action returned a result.
  pub Triple_result :
      (m : Act E A) → Triple P m Q R → (w : World) (a : A) → (m w).0 ≡ ok a → P w → Q a (m w).1
  Triple_result m t w a e p = result_outcome Q R (m w).0 (m w).1 a e (t.at w p)

  -- What a triple says when the action failed.
  pub Triple_error :
      (m : Act E A) → Triple P m Q R → (w : World) (e : E) → (m w).0 ≡ err e → P w → R e (m w).1
  Triple_error m t w e k p = error-Outcome Q R (m w).0 (m w).1 e k (t.at w p)

module _ {E A B : Type 0} {P : World → Type 0} {R : E → World → Type 0} where
  pub Triple-bind :
      (Q : A → World → Type 0) {S : B → World → Type 0} {m : Act E A} {f : A → Act E B}
      → Triple P m Q R
      → ((a : A) → Triple (Q a) (f a) S R)
      → Triple P (m >>= f) S R
  Triple-bind Q {S} {m} {f} h k = record {
    at = λ w p. bind-Outcome Q R S f (m w).0 (m w).1 k (h.at w p);
  }

module _ {E F A : Type 0} {P : World → Type 0} {Q : A → World → Type 0}
    {R : E → World → Type 0} where
  pub Triple-attempt :
      {m : Act E A} {S : F → World → Type 0}
      → Triple P m Q R
      → Triple {E = F} P (attempt m) (Outcome Q R) S
  Triple-attempt h = record { at = h.at }

  pub Triple-map_err :
      (f : E → F) {m : Act E A} {S : F → World → Type 0}
      → ((e : E) (w : World) → R e w → S (f e) w)
      → Triple P m Q R
      → Triple P (map_err f m) Q S
  Triple-map_err f {m} {S} k h = record {
    at = λ w p. map-Outcome Q R S f (m w).0 (m w).1 k (h.at w p);
  }

Outcome-cases :
    {E A : Type 0} (Q : A → World → Type 0) (R : E → World → Type 0) (r : Result E A) (w : World)
    → ((a : A) → r ≡ ok a → Q a w)
    → ((e : E) → r ≡ err e → R e w)
    → Outcome Q R r w
Outcome-cases Q R (ok a) w h k = h a refl
Outcome-cases Q R (err e) w h k = k e refl

-- A triple from what holds on success and what holds on failure.
pub Triple_of :
    {E A : Type 0} {P : World → Type 0} (m : Act E A) (Q : A → World → Type 0)
    (R : E → World → Type 0)
    → ((w : World) (a : A) → P w → (m w).0 ≡ ok a → Q a (m w).1)
    → ((w : World) (e : E) → P w → (m w).0 ≡ err e → R e (m w).1)
    → Triple P m Q R
Triple_of m Q R h k = record {
  at = λ w p. Outcome-cases Q R (m w).0 (m w).1 (λ a e. h w a p e) (λ a e. k w a p e);
}

-- The action leaves `P` as it was, whether it succeeds or fails.
abbrev pub Keeps : {E A : Type 0} → (World → Type 0) → Act E A → Type 0
Keeps P m = Triple P m (λ _. P) (λ _. P)

pub keep_outcome :
    {E A : Type 0} (P : World → Type 0) (r : Result E A) (w : World)
    → Outcome (λ _. P) (λ _. P) r w
    → P w
keep_outcome P (ok a) w h = h
keep_outcome P (err e) w h = h

module _ {E A : Type 0} {P : World → Type 0} where
  pub Keeps-of : (m : Act E A) → ((w : World) → P w → P (m w).1) → Keeps P m
  Keeps-of m h = Triple_of m (λ _. P) (λ _. P) (λ w a p e. h w p) (λ w x p e. h w p)

  pub Keeps_at : {m : Act E A} → Keeps P m → (w : World) → P w → P (m w).1
  Keeps_at {m} t w p = keep_outcome P (m w).0 (m w).1 (t.at w p)

  pub Keeps-lift : (r : Result E A) → Keeps P (lift r)
  Keeps-lift r = Keeps-of (lift r) (λ w p. p)

  pub Keeps-pure : (a : A) → Keeps P (pure {E = E} a)
  Keeps-pure a = Keeps-of (pure a) (λ w p. p)

module _ {E F A : Type 0} {P : World → Type 0} where
  pub Keeps-attempt : {m : Act E A} → Keeps P m → Keeps P (attempt {F = F} m)
  Keeps-attempt {m} t = Keeps-of (attempt m) (λ w p. Keeps_at t w p)

  pub Keeps-map_err : {m : Act E A} (f : E → F) → Keeps P m → Keeps P (map_err f m)
  Keeps-map_err {m} f t = Keeps-of (map_err f m) (λ w p. Keeps_at t w p)

module _ {E A B : Type 0} {P : World → Type 0} where
  pub Keeps-bind :
      {m : Act E A} {f : A → Act E B} → Keeps P m → ((a : A) → Keeps P (f a)) → Keeps P (m >>= f)
  Keeps-bind h k = Triple-bind (λ _. P) h k

pub ruleset keeps_rules =
    (Keeps-lift, Keeps-pure, Keeps-attempt, Keeps-map_err, Keeps-bind, Triple-if)

both-Outcome :
    {E A : Type 0} (Q Q' : A → World → Type 0) (R R' : E → World → Type 0) (r : Result E A)
    (w : World)
    → Outcome Q R r w
    → Outcome Q' R' r w
    → Outcome (λ a v. Q a v × Q' a v) (λ e v. R e v × R' e v) r w
both-Outcome Q Q' R R' (ok a) w h k = (h, k)
both-Outcome Q Q' R R' (err e) w h k = (h, k)

weaken-Outcome :
    {E A : Type 0} (Q Q' : A → World → Type 0) (R R' : E → World → Type 0) (r : Result E A)
    (w : World)
    → ((a : A) (v : World) → Q a v → Q' a v)
    → ((e : E) (v : World) → R e v → R' e v)
    → Outcome Q R r w
    → Outcome Q' R' r w
weaken-Outcome Q Q' R R' (ok a) w f g h = f a w h
weaken-Outcome Q Q' R R' (err e) w f g h = g e w h

module _ {E A : Type 0} {P P' : World → Type 0} {Q Q' : A → World → Type 0}
    {R R' : E → World → Type 0} {m : Act E A} where
  pub Triple-both :
      Triple P m Q R
      → Triple P' m Q' R'
      → Triple (λ w. P w × P' w) m (λ a w. Q a w × Q' a w) (λ e w. R e w × R' e w)
  Triple-both s t = record {
    at = λ w h. both-Outcome Q Q' R R' (m w).0 (m w).1 (s.at w h.0) (t.at w h.1);
  }

  pub Triple-weaken :
      ((w : World) → P' w → P w)
      → ((a : A) (w : World) → Q a w → Q' a w)
      → ((e : E) (w : World) → R e w → R' e w)
      → Triple P m Q R
      → Triple P' m Q' R'
  Triple-weaken p q r t = record {
    at = λ w h. weaken-Outcome Q Q' R R' (m w).0 (m w).1 q r (t.at w (p w h));
  }

-- A fact that no world changes may be assumed by what follows.
pub Triple-assume :
    {E A : Type 0} (X : Type 0) {P : World → Type 0} {m : Act E A} {Q : A → World → Type 0}
    {R : E → World → Type 0}
    → (X → Triple P m Q R)
    → Triple (λ w. X × P w) m Q R
Triple-assume X t = record { at = λ w h. (t h.0).at w h.1 }
