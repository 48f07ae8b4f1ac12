-- ===== src/FileTransfer/Files/WalkTotal.antt =====
-- A walk of lib/edgehog_device/file_transfer/filesystem_utils.c returns, and what its callback keeps
-- holds at its end.
use edgehog_zephyr_device.Prelude.{
  ℕ, zero, suc, ◌+◌, ◌≤◌, ◌<◌, ◌==◌, ◌≡◌, refl, leb, false, List, [], ◌∷◌, length, length-append,
  Option, some, arith, Bool-cases, inl, inr,
}
use edgehog_zephyr_device.FileTransfer.Files.Interface.{
  max_path_size, EntryType, file, directory, Dirent, Status, ok, name_too_long, failed, Listing,
  closed, listed, FileSystem, is_link,
}
use edgehog_zephyr_device.FileTransfer.Files.Walk.{
  join, ends_walk, descend, walk_entries, walk_listing, walk_recursive, fs_walk,
}

-- An entry's path is longer than the directory's.
join-lt : (path name : List ℕ) → (length name == 0) ≡ false → length path < length (join path name)
unfolding join
join-lt path name h = ground (arith, length-append path name, length-append path (b'/' ∷ name))

module _ {U : Type 0} (P : U → Type 0) (cbk : List ℕ → Dirent → U → U)
    (keep : (path : List ℕ) (e : Dirent) (u : U) → P u → P (cbk path e u)) where
  -- A result that keeps the property.
  abbrev Returns : Option (Status × U) → Type 0
  Returns o = (st : Status) × (u : U) × (o ≡ some (st, u)) × P u

  -- A walk that returns wherever a path has room left.
  abbrev Answers : (List ℕ → U → Option (Status × U)) → List ℕ → Type 0
  Answers walk path =
      (full : List ℕ) (u : U)
      → P u
      → length path < length full
      → length full < max_path_size
      → Returns (walk full u)

  descend_total :
      (walk : List ℕ → U → Option (Status × U)) (type : EntryType) (path full : List ℕ) (u : U)
      → P u
      → Answers walk path
      → length path < length full
      → length full < max_path_size
      → Returns (descend cbk walk type full u)
  unfolding descend
  descend_total walk file path full u pu h p q = (ok, u, refl, pu)
  descend_total walk directory path full u pu h p q = h full u pu p q

  -- The result of the loop, where the walk below an entry has one.
  walk_entries_total :
      (walk : List ℕ → U → Option (Status × U)) (path : List ℕ) (entries : List Dirent)
      (last : Status) (u : U)
      → P u
      → Answers walk path
      → Returns (walk_entries cbk walk path entries last u)
  unfolding walk_entries
  walk_entries_total walk path [] last u pu h = (last, u, refl, pu)
  walk_entries_total walk path (e ∷ entries) last u pu h =
      let full = join path e.name in
      elim (Bool-cases (length e.name == 0)) [
        | inl p ↦ (ok, u, rw p, pu)
        | inr p ↦ elim (Bool-cases (is_link e.name)) [
          | inl q ↦
              let (st, v, t, pv) = walk_entries_total walk path entries last u pu h in
              (st, v, rw (p, q) t, pv)
          | inr q ↦ elim (Bool-cases (leb max_path_size (length full))) [
            | inl l ↦ (name_too_long, u, rw (p, q, l), pu)
            | inr l ↦
                let room = join-lt path e.name p in
                let (st, v, t, pv) =
                  descend_total walk e.type path full u pu h room (ground arith) in
                elim (Bool-cases (ends_walk st)) [
                  | inl z ↦ (st, v, rw (p, q, l, t, z), pv)
                  | inr z ↦
                      let (st', w, t', pw) =
                        walk_entries_total walk path entries last (cbk full e v) (keep full e v pv)
                          h in
                      (st', w, rw (p, q, l, t, z) t', pw)
                ]
          ]
        ]
      ]

  walk_listing_total :
      (walk : List ℕ → U → Option (Status × U)) (path : List ℕ) (listing : Listing) (u : U)
      → P u
      → Answers walk path
      → Returns (walk_listing cbk walk path listing u)
  unfolding walk_listing
  walk_listing_total walk path closed u pu h = (failed, u, refl, pu)
  walk_listing_total walk path (listed entries last) u pu h =
      walk_entries_total walk path entries last u pu h

  module _ {S : Type 0} (fs : FileSystem S) (s : S) where
    walk_recursive_total :
        (n : ℕ) (path : List ℕ) (u : U)
        → P u
        → length path < max_path_size
        → max_path_size ≤ n + length path
        → Returns (walk_recursive cbk fs s n path u)
    unfolding walk_recursive
    walk_recursive_total zero path u pu l h = absurd (omega arith)
    walk_recursive_total (suc n) path u pu l h =
        walk_listing_total (walk_recursive cbk fs s n) path (fs.list path s) u pu
          λ full v pv p q. walk_recursive_total n full v pv q (omega arith)

    -- For every file system, `fs_walk` returns, and its result keeps what each call of the callback
    -- keeps.
    pub fs_walk_total : (path : List ℕ) (u : U) → P u → Returns (fs_walk cbk fs s path u)
    unfolding fs_walk
    fs_walk_total path u pu = elim (Bool-cases (leb max_path_size (length path))) [
      | inl l ↦ (name_too_long, u, rw l, pu)
      | inr l ↦
          let (st, v, t, pv) =
            walk_recursive_total max_path_size path u pu (ground arith) (omega arith) in
          (st, v, rw l t, pv)
    ]
