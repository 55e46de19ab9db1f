-- ===== src/Text/FilePath/Laws.antt =====
-- Paths: components, comparison and `join`.
use nyanpasu_utils.Prelude.{
  ◌≡◌, refl, ◌↔◌, true, false, List, [], ◌∷◌, Bytes, codes, bytes_eq, bytes_eq_iff, arith,
}
use nyanpasu_utils.Text.Lines.Laws.{Lacks}
use nyanpasu_utils.Text.FilePath.{
  slash, Component, normal, components, component_eq, components_eq, path_eq,
}

component_eq_iff : (a b : Component) → (component_eq a b ≡ true) ↔ (a ≡ b)
component_eq_iff (normal a) (normal b) = ground (arith, bytes_eq_iff a b)
component_eq_iff a b = ground arith

components_eq_iff : (as' bs : List Component) → (components_eq as' bs ≡ true) ↔ (as' ≡ bs)
components_eq_iff [] [] = (λ _. refl, λ _. refl)
components_eq_iff [] (b ∷ bs) = (λ h. cc, λ h. cc)
components_eq_iff (a ∷ as') [] = (λ h. cc, λ h. cc)
components_eq_iff (a ∷ as') (b ∷ bs) =
    ground (arith, component_eq_iff a b, components_eq_iff as' bs)

-- Paths are equal exactly when their components are.
pub path_eq_iff : (a b : Bytes) → (path_eq a b ≡ true) ↔ (components a ≡ components b)
unfolding path_eq
path_eq_iff a b = components_eq_iff (components a) (components b)

-- A name that is a component of its own.
pub record IsName (n : Bytes) : Type 0 where
  pub one_part : Lacks slash n
  pub not_empty : bytes_eq n [] ≡ false
  pub not_dot : bytes_eq n (codes ".") ≡ false
  pub not_dots : bytes_eq n (codes "..") ≡ false
