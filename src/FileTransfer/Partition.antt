-- ===== src/FileTransfer/Partition.antt =====
-- `is_valid_partition` of lib/edgehog_device/file_transfer/filesystem_utils.c: whether a path lies in
-- a partition that the application allows for a transfer.
use edgehog_zephyr_device.Prelude.{
  ℕ, zero, suc, ◌*◌, ◌%◌, ◌≤◌, ◌==◌, ◌≡◌, ◌⊎◌, inl, inr, refl, ap, ltb, Bool, true, false, not,
  List, [], ◌∷◌, ◌++◌, get_elem?, Option, none, some, if◌then◌else◌, Bool-cases, Option-cases,
  ==_iff, arith,
}
use Prim.Native.Nat.{bit_and}
use edgehog_zephyr_device.Ztar.Core.{size_mod}
use edgehog_zephyr_device.FileTransfer.Path.{end_bound}
use edgehog_zephyr_device.FileTransfer.Files.Interface.{Statvfs, FileSystem}

abbrev pub perm_read : ℕ
perm_read = 1

abbrev pub perm_write : ℕ
perm_write = 2

-- `edgehog_ft_filesystem_partition_t`
pub record Partition : Type 0 where
  pub mount_point : List ℕ
  pub permissions : ℕ

-- The path starts with the mount point, and a separator or the end of the path follows.
unfoldable pub is_mount_point : List ℕ → List ℕ → Bool
is_mount_point [] path = end_bound path
is_mount_point (m ∷ mount_point) [] = false
is_mount_point (m ∷ mount_point) (c ∷ path) =
    let rest = is_mount_point mount_point path in if m == c then rest else false

-- `(permissions & req_perm) == req_perm`
unfoldable pub is_granted : ℕ → ℕ → Bool
is_granted permissions req_perm = bit_and permissions req_perm == req_perm

-- The space test, which a missing or empty size passes. The product is a 32-bit one.
unfoldable pub fits : Option ℕ → Statvfs → Bool
fits none st = true
fits (some zero) st = true
fits (some (suc n)) st = not (ltb ((st.bfree * st.frsize) % size_mod) (suc n))

-- A size that is given is at most the free space, as the 32-bit product gives it.
abbrev pub Fits : Option ℕ → Statvfs → Type 0
Fits none st = Unit
Fits (some n) st = n ≤ (st.bfree * st.frsize) % size_mod

fits-Fits : (size : Option ℕ) (st : Statvfs) → fits size st ≡ true → Fits size st
unfolding fits
fits-Fits none st h = tt
fits-Fits (some zero) st h = omega arith
fits-Fits (some (suc n)) st h = ground arith

is_mount_point_lem :
    (m path : List ℕ)
    → is_mount_point m path ≡ true
    → (path ≡ m) ⊎ ((rest : List ℕ) × (path ≡ m ++ b'/' ∷ rest))
unfolding is_mount_point end_bound
is_mount_point_lem [] [] h = inl refl
is_mount_point_lem [] (c ∷ path) h = inr (path, ap (λ d. d ∷ path) (ground arith))
is_mount_point_lem (m ∷ ms) [] h = cc
is_mount_point_lem (m ∷ ms) (c ∷ path) h =
    let same : c ≡ m = ground arith in
    elim (is_mount_point_lem ms path (ground arith)) [
      | inl e ↦ inl (cc)
      | inr (rest, e) ↦ inr (rest, cc)
    ]

is_granted_lem : (p r : ℕ) → is_granted p r ≡ true → bit_and p r ≡ r
unfolding is_granted
is_granted_lem p r h = (==_iff (bit_and p r) r).0 h

module _ {S : Type 0} (fs : FileSystem S) (s : S) where
  -- The loop over the partitions. The first one that holds the path, with the permissions and
  -- mounted, decides.
  unfoldable pub is_valid_partition : List Partition → List ℕ → ℕ → Option ℕ → Bool
  is_valid_partition [] path req_perm expected_file_size = false
  is_valid_partition (p ∷ partitions) path req_perm expected_file_size =
      let next = is_valid_partition partitions path req_perm expected_file_size in
      let here : Bool = elim (fs.statvfs p.mount_point s) [
        | none ↦ next
        | some st ↦ fits expected_file_size st
      ] in
      if not (is_mount_point p.mount_point path)
      then next
      else if not (is_granted p.permissions req_perm)
      then next
      else here

  -- What makes a partition hold a transfer: the path is the mount point, or goes on behind a
  -- separator; every permission is granted, the file system is mounted, and a size that is given is
  -- at most the free space.
  pub record Holds (p : Partition) (path : List ℕ) (req_perm : ℕ) (size : Option ℕ) : Type 0 where
    pub below : (path ≡ p.mount_point) ⊎ ((rest : List ℕ) × (path ≡ p.mount_point ++ b'/' ∷ rest))
    pub granted : bit_and p.permissions req_perm ≡ req_perm
    pub mounted : (st : Statvfs) × (fs.statvfs p.mount_point s ≡ some st) × Fits size st

  -- The first partition decides, or the others do.
  partition_step :
      (p : Partition) (ps : List Partition) (path : List ℕ) (req_perm : ℕ) (size : Option ℕ)
      → is_valid_partition (p ∷ ps) path req_perm size ≡ true
      → Holds p path req_perm size ⊎ (is_valid_partition ps path req_perm size ≡ true)
  unfolding is_valid_partition
  partition_step p ps path req_perm size h = elim (Bool-cases (is_mount_point p.mount_point path)) [
    | inr a ↦ inr (ground arith)
    | inl a ↦ elim (Bool-cases (is_granted p.permissions req_perm)) [
      | inr b ↦ inr (ground arith)
      | inl b ↦ elim (Option-cases (fs.statvfs p.mount_point s)) [
        | inl c ↦ inr (ground arith)
        | inr (st, c) ↦ inl (record {
          below = is_mount_point_lem p.mount_point path a;
          granted = is_granted_lem p.permissions req_perm b;
          mounted = (st, c, fits-Fits size st (ground arith));
        })
      ]
    ]
  ]

  -- A path is accepted only if one of the partitions of the application holds the transfer: the path is its mount point or lies below it, every permission asked for is granted, the file
  -- system is mounted, and the size, if one is given, is at most the free space.
  pub is_valid_partition-Holds :
      (partitions : List Partition) (path : List ℕ) (req_perm : ℕ) (size : Option ℕ)
      → is_valid_partition partitions path req_perm size ≡ true
      → (i : ℕ) × (p : Partition) × (get_elem? partitions i ≡ some p) × Holds p path req_perm size
  unfolding is_valid_partition
  is_valid_partition-Holds [] path req_perm size h = cc
  is_valid_partition-Holds (p ∷ ps) path req_perm size h =
      elim (partition_step p ps path req_perm size h) [
        | inl held ↦ (0, p, refl, held)
        | inr rest ↦
            let (i, q, e, held) = is_valid_partition-Holds ps path req_perm size rest in
            (suc i, q, e, held)
      ]
