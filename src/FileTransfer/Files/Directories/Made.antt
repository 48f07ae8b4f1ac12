-- ===== src/FileTransfer/Files/Directories/Made.antt =====
-- What `mkdir_recursive` of lib/edgehog_device/file_transfer/filesystem_utils.c leaves behind.
use edgehog_zephyr_device.Prelude.{
  ℕ, ◌==◌, ◌≡◌, ◌≢◌, ◌⊎◌, inl, inr, refl, sym, ◌∙◌, leb, length, Option, none, false, Bool, true,
  List, [], ◌∷◌, ◌++◌, append_assoc, append-nil, some, if◌then◌else◌, Bool-cases, arith,
}
use edgehog_zephyr_device.FileTransfer.Files.Interface.{
  max_path_size, directory, Dirent, HasType, found, ok, is_found, FileSystem, IsLawful,
}
use edgehog_zephyr_device.FileTransfer.Files.Directories.{
  parent, ensure, make_components, make_directories, status_of, mkdir_target, mkdir_recursive,
}

-- The path itself, and what stands before one of its separators.
abbrev pub IsAncestor : List ℕ → List ℕ → Type 0
IsAncestor p path = (p ≡ path) ⊎ ((rest : List ℕ) × (path ≡ p ++ b'/' ∷ rest))

IsAncestor-head : (c d : ℕ) (rest q : List ℕ) → IsAncestor (d ∷ q) (c ∷ rest) → c ≡ d
IsAncestor-head c d rest q (inl e) = cc
IsAncestor-head c d rest q (inr (r, e)) = cc

IsAncestor-tail : (c d : ℕ) (rest q : List ℕ) → IsAncestor (d ∷ q) (c ∷ rest) → IsAncestor q rest
IsAncestor-tail c d rest q (inl e) = inl (cc)
IsAncestor-tail c d rest q (inr (r, e)) = inr (r, cc)

module _ {S : Type 0} (fs : FileSystem S) (law : IsLawful fs) where
  pub ensure_lem :
      (p : List ℕ) (s : S)
      → (ensure fs p s).0 ≡ true
      → is_found (fs.stat p (ensure fs p s).1) ≡ true
  unfolding ensure
  ensure_lem p s h = ground (arith, law.mkdir_found p s)

  pub ensure_keeps :
      (p q : List ℕ) (s : S)
      → is_found (fs.stat q s) ≡ true
      → is_found (fs.stat q (ensure fs p s).1) ≡ true
  unfolding ensure
  ensure_keeps p q s h = ground (arith, law.mkdir_keeps p q s)

  make_components_keeps :
      (done rest q : List ℕ) (s : S)
      → is_found (fs.stat q s) ≡ true
      → is_found (fs.stat q (make_components fs done rest s).1) ≡ true
  unfolding make_components
  make_components_keeps done [] q s h = ensure_keeps done q s h
  make_components_keeps done (c ∷ rest) q s h =
      let kept = ensure_keeps done q s h in
      ground (
        arith,
        kept,
        make_components_keeps (done ++ c ∷ []) rest q (ensure fs done s).1,
        make_components_keeps (done ++ c ∷ []) rest q s,
      )

  -- Where the loop goes on, the rest of it has the result.
  make_components_step :
      (done rest : List ℕ) (c : ℕ) (s : S)
      → (make_components fs done (c ∷ rest) s).0 ≡ true
      → (s' : S) × (make_components fs done (c ∷ rest) s
          ≡ make_components fs (done ++ c ∷ []) rest s')
        × ((c == b'/') ≡ true → is_found (fs.stat done s') ≡ true)
  unfolding make_components
  make_components_step done rest c s h = elim (Bool-cases (c == b'/')) [
    | inl p ↦ elim (Bool-cases (ensure fs done s).0) [
      | inl q ↦ ((ensure fs done s).1, ground arith, λ _. ensure_lem done s q)
      | inr q ↦ absurd (ground arith)
    ]
    | inr p ↦ (s, ground arith, λ q. absurd (ground arith))
  ]

  -- Once the loop ends, every directory before a separator of the rest is there, and the last one.
  make_components_lem :
      (done rest q : List ℕ) (s : S)
      → (make_components fs done rest s).0 ≡ true
      → IsAncestor q rest
      → is_found (fs.stat (done ++ q) (make_components fs done rest s).1) ≡ true
  make_components_lem done [] [] s h a =
      unfold make_components in rw (append-nil done) (ensure_lem done s h)
  make_components_lem done [] (d ∷ q) s h (inl e) = cc
  make_components_lem done [] (d ∷ q) s h (inr (r, e)) = cc
  make_components_lem done (c ∷ rest) [] s h (inl e) = cc
  make_components_lem done (c ∷ rest) [] s h (inr (r, e)) =
      let (s', e', here) = make_components_step done rest c s h in
      let separator : (c == b'/') ≡ true = ground arith in
      rw (append-nil done, e')
        (make_components_keeps (done ++ c ∷ []) rest done s' (here separator))
  make_components_lem done (c ∷ rest) (d ∷ q) s h a =
      let (s', e', here) = make_components_step done rest c s h in
      let found =
        make_components_lem (done ++ c ∷ []) rest q s' (rw e' at h)
          (IsAncestor-tail c d rest q a) in
      let same : c ≡ d = IsAncestor-head c d rest q a in
      rw (← same, e') (rw (append_assoc done (c ∷ []) q) at found)

  -- After `mkdir_recursive` has succeeded on a directory's path, or on a file's with a separator, the directory is there, and every directory on
  -- the way to it.
  pub make_directories_lem :
      (target q : List ℕ) (s : S)
      → (make_directories fs target s).0 ≡ true
      → q ≢ []
      → IsAncestor q target
      → is_found (fs.stat q (make_directories fs target s).1) ≡ true
  unfolding make_directories
  make_directories_lem target [] s h n a = absurd (n refl)
  make_directories_lem [] (d ∷ q) s h n (inl e) = cc
  make_directories_lem [] (d ∷ q) s h n (inr (r, e)) = cc
  make_directories_lem (c ∷ rest) (d ∷ q) s h n a =
      let same : c ≡ d = IsAncestor-head c d rest q a in
      rw (← same) (make_components_lem (c ∷ []) rest q s h (IsAncestor-tail c d rest q a))

  -- On a file system whose `fs_mkdir` creates what it says and removes nothing: after
  -- `mkdir_recursive` has succeeded, the directory of the path, which for a file's path is what stands before its last separator, is
  -- there, and so is every directory on the way to it.
  pub mkdir_recursive-IsAncestor :
      (path : List ℕ) (is_file_path : Bool) (target q : List ℕ) (s : S)
      → (if is_file_path then parent path else some path) ≡ some target
      → (mkdir_recursive fs path is_file_path s).0 ≡ ok
      → q ≢ []
      → IsAncestor q target
      → is_found (fs.stat q (mkdir_recursive fs path is_file_path s).1) ≡ true
  unfolding mkdir_recursive mkdir_target status_of
  mkdir_recursive-IsAncestor path is_file_path target q s e h n a =
      ground (arith, make_directories_lem target q s)

  -- What is there in the second state is a directory, or was there in the first with its type.
  abbrev pub IsNew : S → S → Type 0
  IsNew s s' =
      (q : List ℕ) (e : Dirent)
      → fs.stat q s' ≡ found e
      → (e.type ≡ directory) ⊎ HasType e.type (fs.stat q s)

  IsNew-same : (s : S) → IsNew s s
  IsNew-same s q e h = inr (e, h, refl)

  IsNew-trans : (s t u : S) → IsNew s t → IsNew t u → IsNew s u
  IsNew-trans s t u f g q e h = elim (g q e h) [
    | inl d ↦ inl d
    | inr (e', h', same) ↦ elim (f q e' h') [
      | inl d ↦ inl (sym same ∙ d)
      | inr (e'', h'', same') ↦ inr (e'', h'', same' ∙ same)
    ]
  ]

  ensure-IsNew : (p : List ℕ) (s : S) → IsNew s (ensure fs p s).1
  unfolding ensure
  ensure-IsNew p s = elim (Bool-cases (is_found (fs.stat p s))) [
    | inl h ↦ rw h (IsNew-same s)
    | inr h ↦ rw h (λ q e. law.mkdir_new p q s e)
  ]

  make_components-IsNew : (done rest : List ℕ) (s : S) → IsNew s (make_components fs done rest s).1
  unfolding make_components
  make_components-IsNew done [] s = ensure-IsNew done s
  make_components-IsNew done (c ∷ rest) s =
      let s' = (ensure fs done s).1 in
      let next = done ++ c ∷ [] in
      elim (Bool-cases (c == b'/')) [
        | inr p ↦ rw p (make_components-IsNew next rest s)
        | inl p ↦ elim (Bool-cases (ensure fs done s).0) [
          | inr q ↦ rw (p, q) (ensure-IsNew done s)
          | inl q ↦
              rw (p, q)
                (IsNew-trans s s' (make_components fs next rest s').1 (ensure-IsNew done s)
                  (make_components-IsNew next rest s'))
        ]
      ]

  make_directories-IsNew : (target : List ℕ) (s : S) → IsNew s (make_directories fs target s).1
  unfolding make_directories
  make_directories-IsNew [] s = ensure-IsNew [] s
  make_directories-IsNew (c ∷ rest) s = make_components-IsNew (c ∷ []) rest s

  status_of-state : (r : Bool × S) → (status_of fs r).1 ≡ r.1
  unfolding status_of
  status_of-state (true, s) = refl
  status_of-state (false, s) = refl

  mkdir_target-IsNew : (o : Option (List ℕ)) (s : S) → IsNew s (mkdir_target fs o s).1
  unfolding mkdir_target
  mkdir_target-IsNew none s = IsNew-same s
  mkdir_target-IsNew (some target) s =
      rw (status_of-state (make_directories fs target s)) (make_directories-IsNew target s)

  -- `mkdir_recursive` adds directories only, and leaves what was there with its type.
  pub mkdir_recursive-IsNew :
      (path : List ℕ) (is_file_path : Bool) (s : S)
      → IsNew s (mkdir_recursive fs path is_file_path s).1
  unfolding mkdir_recursive
  mkdir_recursive-IsNew path is_file_path s = elim (Bool-cases (leb max_path_size (length path))) [
    | inl p ↦ rw p (IsNew-same s)
    | inr p ↦ rw p (mkdir_target-IsNew (if is_file_path then parent path else some path) s)
  ]
