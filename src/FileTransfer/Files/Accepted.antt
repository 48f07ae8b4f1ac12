-- ===== src/FileTransfer/Files/Accepted.antt =====
-- What an accepted destination of lib/edgehog_device/file_transfer/filesystem_utils.c promises.
use edgehog_zephyr_device.Prelude.{
  ℕ, ◌<◌, ◌≡◌, ◌≢◌, ◌⊎◌, inl, inr, refl, Bool, true, false, List, [], ◌∷◌, length, if◌then◌else◌,
  some, Bool-cases, Option-cases, ap, codes, ◌==◌, get_elem?, arith,
}
use edgehog_zephyr_device.FileTransfer.Path.{is_valid_safe_path}
use edgehog_zephyr_device.FileTransfer.Path.Components.{IsSafePath, is_valid_safe_path-IsSafePath}
use edgehog_zephyr_device.FileTransfer.Files.Interface.{
  max_path_size, EntryType, file, directory, Dirent, ok, Stat, found, no_entry, stat_error, HasType,
  Listing, closed, listed, is_link, is_found, FileSystem, IsLawful,
}
use edgehog_zephyr_device.FileTransfer.Files.Directories.{parent, mkdir_recursive}
use edgehog_zephyr_device.FileTransfer.Files.Directories.Made.{
  IsAncestor, mkdir_recursive-IsAncestor, IsNew, mkdir_recursive-IsNew,
}
use edgehog_zephyr_device.FileTransfer.Files.Validate.{
  is_no_path, is_type, made, is_valid_tar_destination, is_valid_file_destination, is_valid_stat,
  is_valid_destination, is_dir_empty, is_empty_listing, all_links,
}

-- The entries up to the end of a directory, which has an empty name, are the directory itself and the
-- one above it.
abbrev pub HasOnlyLinks : List Dirent → Type 0
HasOnlyLinks [] = Unit
HasOnlyLinks (e ∷ entries) =
    (e.name ≡ []) ⊎ (((e.name ≡ codes ".") ⊎ (e.name ≡ codes "..")) × HasOnlyLinks entries)

-- A directory that opens, and whose entries, as far as they can be read, are the two links.
abbrev pub IsEmpty : Listing → Type 0
IsEmpty closed = ⊥
IsEmpty (listed entries last) = HasOnlyLinks entries

is_link_lem : (name : List ℕ) → is_link name ≡ true → (name ≡ codes ".") ⊎ (name ≡ codes "..")
unfolding is_link
is_link_lem [] h = cc
is_link_lem (a ∷ []) h = let p : a ≡ b'.' = ground arith in inl (ap (λ x. x ∷ []) p)
is_link_lem (a ∷ b ∷ []) h =
    let p : a ≡ b'.' = ground arith in let q : b ≡ b'.' = ground arith in inr (rw (p, q) refl)
is_link_lem (a ∷ b ∷ c ∷ name) h = cc

length-nil : (xs : List ℕ) → (length xs == 0) ≡ true → xs ≡ []
length-nil [] h = refl
length-nil (x ∷ xs) h = absurd (ground arith)

all_links_lem : (entries : List Dirent) → all_links entries ≡ true → HasOnlyLinks entries
unfolding all_links
all_links_lem [] h = tt
all_links_lem (e ∷ entries) h = elim (Bool-cases (length e.name == 0)) [
  | inl p ↦ inl (length-nil e.name p)
  | inr p ↦ elim (Bool-cases (is_link e.name)) [
    | inl q ↦ inr (is_link_lem e.name q, all_links_lem entries (ground arith))
    | inr q ↦ absurd (ground arith)
  ]
]

is_empty_listing_lem : (l : Listing) → is_empty_listing l ≡ true → IsEmpty l
unfolding is_empty_listing
is_empty_listing_lem closed h = cc
is_empty_listing_lem (listed entries last) h = all_links_lem entries h

found_lem : (st : Stat) → is_found st ≡ true → (e : Dirent) × (st ≡ found e)
found_lem (found e) h = (e, refl)
found_lem no_entry h = cc
found_lem stat_error h = cc

no_entry_lem : {type : EntryType} (st : Stat) → st ≡ no_entry → ¬ HasType type st
no_entry_lem st p (e, q, r) = cc

module _ {S : Type 0} (fs : FileSystem S) (law : IsLawful fs) where
  made_lem :
      (path : List ℕ) (is_file_path : Bool) (target q : List ℕ) (s : S)
      → (if is_file_path then parent path else some path) ≡ some target
      → (made fs path is_file_path s).0 ≡ true
      → q ≢ []
      → IsAncestor q target
      → is_found (fs.stat q (made fs path is_file_path s).1) ≡ true
  unfolding made
  made_lem path is_file_path target q s e h n a =
      let worked : (mkdir_recursive fs path is_file_path s).0 ≡ ok = ground arith in
      mkdir_recursive-IsAncestor fs law path is_file_path target q s e worked n a

  made-IsNew :
      (path : List ℕ) (is_file_path : Bool) (s : S) → IsNew fs law s (made fs path is_file_path s).1
  unfolding made
  made-IsNew path is_file_path s = mkdir_recursive-IsNew fs law path is_file_path s

  -- The directory of an archive: it is there at the end, and where it was there before, it was a
  -- directory whose reading gave no entries.
  abbrev pub IsReadyDirectory : List ℕ → S → S → Type 0
  IsReadyDirectory destination s s' =
      HasType directory (fs.stat destination s')
      × ((fs.stat destination s ≡ no_entry)
          ⊎ (HasType directory (fs.stat destination s) × IsEmpty (fs.list destination s)))

  -- A directory, or an entry that was there before, whose type nobody looks at.
  abbrev pub IsPlace : List ℕ → S → S → Type 0
  IsPlace p s s' =
      (e : Dirent) × (fs.stat p s' ≡ found e)
      × ((e.type ≡ directory) ⊎ HasType e.type (fs.stat p s))

  -- The place of a file: nothing was there before, and the entry above it is there at the end. The
  -- root of the file system has no name to look for.
  abbrev pub IsReadyFile : List ℕ → S → S → Type 0
  IsReadyFile destination s s' =
      (fs.stat destination s ≡ no_entry)
      × ((p : List ℕ) × (parent destination ≡ some p) × ((p ≡ []) ⊎ IsPlace p s s'))

  abbrev pub IsReady : List ℕ → Bool → S → S → Type 0
  IsReady destination true s s' = IsReadyDirectory destination s s'
  IsReady destination false s s' = IsReadyFile destination s s'

  directory_type : (type : EntryType) → is_type type directory ≡ true → type ≡ directory
  unfolding is_type
  directory_type directory h = refl
  directory_type file h = cc

  tar_ready :
      (destination : List ℕ) (st : Stat) (s : S)
      → destination ≢ []
      → fs.stat destination s ≡ st
      → (is_valid_stat fs destination true st s).0 ≡ true
      → IsReadyDirectory destination s (is_valid_stat fs destination true st s).1
  unfolding is_valid_stat is_valid_tar_destination
  tar_ready destination (found e) s n p h =
      let typed : e.type ≡ directory = ground (arith, directory_type e.type) in
      let accepted : is_empty_listing (fs.list destination s) ≡ true =
        unfold is_dir_empty in ground arith in
      (
        (e, ground (arith, p), typed),
        inr ((e, p, typed), is_empty_listing_lem (fs.list destination s) accepted),
      )
  tar_ready destination no_entry s n p h =
      let s' = (made fs destination false s).1 in
      let (e, q) =
        found_lem (fs.stat destination s')
          (made_lem destination false destination destination s refl h n (inl refl)) in
      (
        (
          e,
          q,
          elim (made-IsNew destination false s destination e q) [
            | inl d ↦ d
            | inr k ↦ absurd (no_entry_lem (fs.stat destination s) p k)
          ],
        ),
        inl p,
      )
  tar_ready destination stat_error s n p h = cc

  -- An absolute path has a separator.
  parent_lem :
      (path : List ℕ) → get_elem? path 0 ≡ some b'/' → (p : List ℕ) × (parent path ≡ some p)
  unfolding parent
  parent_lem [] h = cc
  parent_lem (c ∷ path) h = elim (Option-cases (parent path)) [
    | inl e ↦ ([], ground arith)
    | inr (p, e) ↦ (c ∷ p, ground arith)
  ]

  parent_ready :
      (destination p : List ℕ) (s : S)
      → parent destination ≡ some p
      → (made fs destination true s).0 ≡ true
      → (p ≡ []) ⊎ IsPlace p s (made fs destination true s).1
  parent_ready destination [] s e h = inl refl
  parent_ready destination (c ∷ p) s e h =
      let s' = (made fs destination true s).1 in
      let (entry, q) =
        found_lem (fs.stat (c ∷ p) s')
          (made_lem destination true (c ∷ p) (c ∷ p) s e h (λ q. cc) (inl refl)) in
      inr (entry, q, made-IsNew destination true s (c ∷ p) entry q)

  file_ready :
      (destination : List ℕ) (st : Stat) (s : S)
      → get_elem? destination 0 ≡ some b'/'
      → fs.stat destination s ≡ st
      → (is_valid_stat fs destination false st s).0 ≡ true
      → IsReadyFile destination s (is_valid_stat fs destination false st s).1
  unfolding is_valid_stat is_valid_file_destination
  file_ready destination (found e) s a p h = cc
  file_ready destination no_entry s a p h =
      let (q, e) = parent_lem destination a in (p, (q, e, parent_ready destination q s e h))
  file_ready destination stat_error s a p h = cc

  stat-IsReady :
      (destination : List ℕ) (is_tar : Bool) (s : S)
      → IsSafePath destination true is_tar
      → (is_valid_stat fs destination is_tar (fs.stat destination s) s).0 ≡ true
      → IsReady destination is_tar s
          (is_valid_stat fs destination is_tar (fs.stat destination s) s).1
  stat-IsReady destination true s safe h =
      tar_ready destination (fs.stat destination s) s safe.given refl h
  stat-IsReady destination false s safe h =
      file_ready destination (fs.stat destination s) s (ground (arith, safe.rooted)) refl h

  -- On a file system whose `fs_mkdir` creates what it says and changes no type: a destination that is
  -- accepted is a safe absolute path of at most 255 bytes. For an archive a directory is there at the
  -- end, and where there was an entry before, it was a directory that opened and whose entries, as far
  -- as they could be read, were "." and "..". For a file nothing was there before, and the path above
  -- it is the root, or leads to a directory or to an entry that was there before.
  pub is_valid_destination-IsReady :
      (destination : List ℕ) (is_tar : Bool) (s : S)
      → (is_valid_destination fs destination is_tar s).0 ≡ true
      → IsSafePath destination true is_tar
        × (length destination < max_path_size)
        × IsReady destination is_tar s (is_valid_destination fs destination is_tar s).1
  unfolding is_valid_destination
  is_valid_destination-IsReady destination is_tar s h = elim (Bool-cases (is_no_path destination)) [
    | inl p ↦ absurd (ground arith)
    | inr p ↦ elim (Bool-cases (is_valid_safe_path destination true is_tar)) [
      | inl q ↦
          let safe = (is_valid_safe_path-IsSafePath destination true is_tar).0 q in
          let at_stat = rw (p, q) at h in
          (
            safe,
            unfold is_no_path in ground arith,
            rw (p, q) (stat-IsReady destination is_tar s safe at_stat),
          )
      | inr q ↦ absurd (ground arith)
    ]
  ]
