-- ===== src/Http/Path.antt =====
-- `build_full_path` of lib/edgehog_device/http.c: the path of a request, from a URL and what the URL
-- parser of the operating system found in it.
use edgehog_zephyr_device.Prelude.{
  ℕ, ◌+◌, ◌≤◌, ◌==◌, ◌≡◌, Bool, List, [], ◌∷◌, ◌++◌, length, take, drop, length-append, length-take,
  length-drop, if◌then◌else◌, arith,
}

-- `struct http_parser_url`: offsets and lengths in the URL, and a port of 0 where there is none.
pub record ParsedUrl : Type 0 where
  pub host_off : ℕ
  pub host_len : ℕ
  pub path_off : ℕ
  pub path_len : ℕ
  pub query_off : ℕ
  pub query_len : ℕ
  pub has_query : Bool
  pub port : ℕ

-- The string that `snprintf` puts in a buffer of n + 1 bytes, from an offset of the URL on.
unfoldable pub print_field : List ℕ → ℕ → ℕ → List ℕ
print_field url off n = take n (drop off url)

-- The size of the buffer, with the terminating NUL.
unfoldable pub full_path_len : ParsedUrl → ℕ
full_path_len p =
    (if p.path_len == 0 then 1 else p.path_len) + (if p.has_query then 1 + p.query_len else 0) + 1

unfoldable pub base_path : List ℕ → ParsedUrl → List ℕ
base_path url p = if p.path_len == 0 then b'/' ∷ [] else print_field url p.path_off p.path_len

unfoldable pub build_full_path : List ℕ → ParsedUrl → List ℕ
build_full_path url p =
    let base = base_path url p in
    if p.has_query then base ++ b'?' ∷ print_field url p.query_off p.query_len else base

print_field-le : (url : List ℕ) (off n : ℕ) → length (print_field url off n) ≤ n
unfolding print_field
print_field-le url off n = omega (arith, length-take n (drop off url))

print_field-length :
    (url : List ℕ) (off n : ℕ) → off + n ≤ length url → length (print_field url off n) ≡ n
unfolding print_field
print_field-length url off n h = omega (arith, length-take n (drop off url), length-drop off url)

-- For every URL and every result of the parser, the path and its NUL fit in the buffer.
pub build_full_path-le :
    (url : List ℕ) (p : ParsedUrl) → length (build_full_path url p) + 1 ≤ full_path_len p
unfolding build_full_path base_path full_path_len
build_full_path-le url p =
    let path = print_field url p.path_off p.path_len in
    let query = print_field url p.query_off p.query_len in
    ground (
      arith,
      print_field-le url p.path_off p.path_len,
      print_field-le url p.query_off p.query_len,
      length-append path (b'?' ∷ query),
    )

-- Where the path and the query lie inside of the URL, the path fills its buffer, so that nothing of
-- them is cut off.
pub build_full_path-length :
    (url : List ℕ) (p : ParsedUrl)
    → p.path_off + p.path_len ≤ length url
    → p.query_off + p.query_len ≤ length url
    → length (build_full_path url p) + 1 ≡ full_path_len p
unfolding build_full_path base_path full_path_len
build_full_path-length url p inside inside' =
    let path = print_field url p.path_off p.path_len in
    let query = print_field url p.query_off p.query_len in
    ground (
      arith,
      print_field-length url p.path_off p.path_len inside,
      print_field-length url p.query_off p.query_len inside',
      length-append path (b'?' ∷ query),
    )
