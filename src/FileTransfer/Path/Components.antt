-- ===== src/FileTransfer/Path/Components.antt =====
-- The components of a path, and what makes one safe.
use edgehog_zephyr_device.Prelude.{
  ℕ, ◌-◌, ◌==◌, ◌≡◌, ◌≢◌, ◌↔◌, ◌⊎◌, refl, Bool, true, false, ◌&&◌, ◌||◌, List, [], ◌∷◌, length,
  get_elem?, Option, none, some, if◌then◌else◌, codes, arith,
}
use edgehog_zephyr_device.FileTransfer.Path.{
  end_bound, has_traversal, is_separator, is_valid_safe_path,
}

-- The first component of a path, and the others: a path is cut at every separator.
pub components : List ℕ → List ℕ × List (List ℕ)
components [] = ([], [])
components (c ∷ path) =
    let (first, others) = components path in
    if c == b'/' then ([], first ∷ others) else (c ∷ first, others)

-- Whether a component is "..".
pub is_parent : List ℕ → Bool
is_parent (c ∷ d ∷ []) = (c == b'.') && (d == b'.')
is_parent _ = false

pub any_parent : List (List ℕ) → Bool
any_parent [] = false
any_parent (c ∷ cs) = is_parent c || any_parent cs

-- An empty first component is what stands before a separator or at the end.
end_bound-components : (path : List ℕ) → (end_bound path ≡ true) ↔ ((components path).0 ≡ [])
unfolding end_bound components
end_bound-components [] = (λ _. refl, λ _. refl)
end_bound-components (c ∷ path) = ground arith

traversal_components :
    (path : List ℕ)
    → (has_traversal true path ≡ (is_parent (components path).0 || any_parent (components path).1))
      × (has_traversal false path ≡ any_parent (components path).1)
unfolding has_traversal components is_parent any_parent
traversal_components [] = (refl, refl)
traversal_components (c ∷ []) = ground arith
traversal_components (c ∷ d ∷ rest) =
    ground
      (arith, end_bound-components rest, traversal_components rest, traversal_components (d ∷ rest))

-- No component is "..".
abbrev pub NoParent : List (List ℕ) → Type 0
NoParent [] = Unit
NoParent (c ∷ cs) = (c ≢ codes "..") × NoParent cs

-- What makes a path safe: it has a character, it is absolute exactly where that is asked for, no
-- component leads to a parent directory, and a file's path ends in a name.
pub record IsSafePath (path : List ℕ) (expect_root expect_dir : Bool) : Type 0 where
  pub given : path ≢ []
  pub rooted :
      ((expect_root ≡ true) × (get_elem? path 0 ≡ some b'/'))
      ⊎ ((expect_root ≡ false) × (get_elem? path 0 ≢ some b'/'))
  pub inside : NoParent ((components path).0 ∷ (components path).1)
  pub named : (expect_dir ≡ true) ⊎ (get_elem? path (length path - 1) ≢ some b'/')

is_parent_lem : (c : List ℕ) → (is_parent c ≡ true) ↔ (c ≡ codes "..")
unfolding is_parent
is_parent_lem [] = ground arith
is_parent_lem (a ∷ []) = ground arith
is_parent_lem (a ∷ b ∷ []) = ground arith
is_parent_lem (a ∷ b ∷ d ∷ c) = ground arith

any_parent-NoParent : (cs : List (List ℕ)) → (any_parent cs ≡ false) ↔ NoParent cs
unfolding any_parent
any_parent-NoParent [] = (λ _. tt, λ _. refl)
any_parent-NoParent (c ∷ cs) = ground (arith, is_parent_lem c, any_parent-NoParent cs)

has_traversal-NoParent :
    (path : List ℕ)
    → (has_traversal true path ≡ false) ↔ NoParent ((components path).0 ∷ (components path).1)
has_traversal-NoParent path =
    let parts : List (List ℕ) = (components path).0 ∷ (components path).1 in
    let e : has_traversal true path ≡ any_parent parts =
      unfold any_parent in (traversal_components path).0 in
    rw e (any_parent-NoParent parts)

is_separator_lem : (o : Option ℕ) → (is_separator o ≡ true) ↔ (o ≡ some b'/')
unfolding is_separator
is_separator_lem none = ground arith
is_separator_lem (some c) = ground arith

-- A path is accepted exactly if it is not empty, is absolute where that is asked for and relative
-- where not, has no component "..", and, where a file is asked for, does not end in a separator.
pub is_valid_safe_path-IsSafePath :
    (path : List ℕ) (expect_root expect_dir : Bool)
    → (is_valid_safe_path path expect_root expect_dir ≡ true)
      ↔ IsSafePath path expect_root expect_dir
unfolding is_valid_safe_path
is_valid_safe_path-IsSafePath [] expect_root expect_dir = (λ e. cc, λ s. absurd (s.given refl))
is_valid_safe_path-IsSafePath (c ∷ path) expect_root expect_dir = ground (
  arith,
  has_traversal-NoParent (c ∷ path),
  is_separator_lem (some c),
  is_separator_lem (get_elem? (c ∷ path) (length path)),
)
