-- ===== src/FileTransfer/Path.antt =====
-- `is_valid_safe_path` of lib/edgehog_device/file_transfer/filesystem_utils.c. A path is the string's
-- bytes without the terminating NUL; a null pointer is refused as the empty path is.
use edgehog_zephyr_device.Prelude.{
  ℕ, ◌-◌, ◌==◌, Bool, true, false, not, ◌&&◌, ◌||◌, List, [], ◌∷◌, length, get_elem?, Option, none,
  some, if◌then◌else◌,
}
pub mod Components

-- Whether `*p` is the end of the string or a separator.
unfoldable pub end_bound : List ℕ → Bool
end_bound [] = true
end_bound (c ∷ rest) = c == b'/'

-- The loop over the occurrences that `strstr` finds of "..", from a pointer into the path on.
-- `start_bound` is the test of the code: whether the pointer is the start of the path or stands
-- behind a separator. Behind an occurrence it stands behind a dot.
unfoldable pub has_traversal : Bool → List ℕ → Bool
has_traversal start_bound [] = false
has_traversal start_bound (c ∷ []) = false
has_traversal start_bound (c ∷ d ∷ rest) =
    let behind = (start_bound && end_bound rest) || has_traversal false rest in
    let next = has_traversal (c == b'/') (d ∷ rest) in
    if (c == b'.') && (d == b'.') then behind else next

-- `path[i] == '/'`
unfoldable pub is_separator : Option ℕ → Bool
is_separator none = false
is_separator (some c) = c == b'/'

unfoldable pub is_valid_safe_path : List ℕ → Bool → Bool → Bool
is_valid_safe_path path expect_root expect_dir =
    let rooted = is_separator (get_elem? path 0) in
    if length path == 0
    then false
    else if expect_root && not rooted
    then false
    else if not expect_root && rooted
    then false
    else if has_traversal true path
    then false
    else if not expect_dir && is_separator (get_elem? path (length path - 1))
    then false
    else true
