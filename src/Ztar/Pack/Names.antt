-- ===== src/Ztar/Pack/Names.antt =====
-- The name fields of a header: the split that lib/edgehog_device/ztar/pack.c chooses, and the name
-- that lib/edgehog_device/ztar/unpack.c puts together from the fields again.
use edgehog_zephyr_device.Prelude.{
  ℕ, zero, suc, ◌+◌, ◌-◌, ◌≤◌, ◌<◌, ◌≡◌, ◌⊎◌, ◌&&◌, refl, ap, subst, true, false, List, [], ◌∷◌,
  ◌++◌, Option, none, some, arith, take, drop, length, length-append, length-drop, length-take,
  length-replicate, replicate, c_string, leb, ◌==◌, Bool-cases, inl, inr, take-all,
}
use mathlib.Core.Option.{some-injective}
use edgehog_zephyr_device.Ztar.Header.{Header, byte_at}
use edgehog_zephyr_device.Ztar.Header
use edgehog_zephyr_device.Ztar.Unpack.State.{get_file_name}
use edgehog_zephyr_device.Ztar.Pack.Format.{find_split, split_long, split_name, copy_field}

-- The bytes of a C string.
abbrev pub IsText : List ℕ → Type 0
IsText [] = Unit {0}
IsText (c ∷ cs) = (0 < c) × (c < 256) × IsText cs

take-IsText : (n : ℕ) (s : List ℕ) → IsText s → IsText (take n s)
take-IsText zero s h = tt
take-IsText (suc n) [] h = tt
take-IsText (suc n) (c ∷ cs) h = (h.0, h.1, take-IsText n cs h.2)

drop-IsText : (n : ℕ) (s : List ℕ) → IsText s → IsText (drop n s)
drop-IsText zero s h = h
drop-IsText (suc n) [] h = tt
drop-IsText (suc n) (c ∷ cs) h = drop-IsText n cs h.2

-- What a split of a name gives: fields that fit, which a '/' joins to the name again.
pub record Splits (file_name : List ℕ) (parts : List ℕ × List ℕ) : Type 0 where
  pub prefix_fits : length parts.0 ≤ 155
  pub name_fits : length parts.1 ≤ 100
  pub prefix_text : IsText parts.0
  pub name_text : IsText parts.1
  pub joined :
      ((parts.0 ≡ []) × (parts.1 ≡ file_name) × (length file_name ≤ 100))
      ⊎ ((parts.0 ++ b'/' ∷ parts.1 ≡ file_name) × (100 < length file_name))

abbrev pub Found : ℕ → ℕ → List ℕ → ℕ → Type 0
Found name_len i cs k =
    (i ≤ k)
    × (k ≤ 155)
    × (name_len - k - 1 ≤ 100)
    × (take (k - i) cs ++ b'/' ∷ drop (suc (k - i)) cs ≡ cs)

Found-here :
    (name_len i c : ℕ) (cs : List ℕ)
    → (c == b'/' && leb i 155 && leb (name_len - i - 1) 100) ≡ true
    → Found name_len i (c ∷ cs) i
Found-here name_len i c cs p =
    let none_before : i - i ≡ 0 = omega arith in
    let slash : b'/' ≡ c = ground arith in
    (omega arith, ground arith, ground arith, rw none_before (ap (λ x. x ∷ cs) slash))

Found-later :
    (name_len i c : ℕ) (cs : List ℕ) {k : ℕ}
    → Found name_len (i + 1) cs k
    → Found name_len i (c ∷ cs) k
Found-later name_len i c cs {k} f =
    let one_more : k - i ≡ suc (k - (i + 1)) = omega (arith, f.0) in
    (omega (arith, f.0), f.1, f.2, rw one_more (ap (◌∷◌ c) f.3))

-- The loop finds a '/' at index `k`, with what the tests say of it.
pub find_split-Found :
    (name_len i : ℕ) (cs : List ℕ) {k : ℕ}
    → find_split name_len i cs ≡ some k
    → Found name_len i cs k
unfolding find_split
find_split-Found name_len i [] e = cc
find_split-Found name_len i (c ∷ cs) {k} e =
    elim (Bool-cases (c == b'/' && leb i 155 && leb (name_len - i - 1) 100)) [
      | inl p ↦
          subst (Found name_len i (c ∷ cs)) (some-injective i k (rw p at e))
            (Found-here name_len i c cs p)
      | inr p ↦ Found-later name_len i c cs (find_split-Found name_len (i + 1) cs (rw p at e))
    ]

whole_name :
    (file_name : List ℕ)
    → IsText file_name
    → leb (length file_name) 100 ≡ true
    → Splits file_name ([], file_name)
whole_name file_name t p = record {
  prefix_fits = omega arith;
  name_fits = ground arith;
  prefix_text = tt;
  name_text = t;
  joined = inl (refl, refl, ground arith);
}

split_at :
    (file_name : List ℕ) (k : ℕ)
    → IsText file_name
    → 100 < length file_name
    → Found (length file_name) 0 file_name k
    → Splits file_name (take k file_name, drop (suc k) file_name)
split_at file_name k t long (_, k_fits, rest_fits, joined) = record {
  prefix_fits = omega (arith, length-take k file_name);
  name_fits = omega (arith, length-drop (suc k) file_name);
  prefix_text = take-IsText k file_name t;
  name_text = drop-IsText (suc k) file_name t;
  joined = inr (let whole : k - 0 ≡ k = omega arith in rw whole at joined, long);
}

split_long-Splits :
    (file_name : List ℕ) {parts : List ℕ × List ℕ}
    → IsText file_name
    → 100 < length file_name
    → (found : Option ℕ) → find_split (length file_name) 0 file_name ≡ found
    → split_long file_name found ≡ some parts
    → Splits file_name parts
unfolding split_long
split_long-Splits file_name t long none q e = cc
split_long-Splits file_name {parts} t long (some k) q e =
    subst (Splits file_name) (some-injective (take k file_name, drop (suc k) file_name) parts e)
      (split_at file_name k t long (find_split-Found (length file_name) 0 file_name q))

pub split_name-Splits :
    (file_name : List ℕ) {parts : List ℕ × List ℕ}
    → IsText file_name
    → split_name file_name ≡ some parts
    → Splits file_name parts
unfolding split_name
split_name-Splits file_name {parts} t e = elim (Bool-cases (leb (length file_name) 100)) [
  | inl p ↦
      subst (Splits file_name) (some-injective ([], file_name) parts (rw p at e))
        (whole_name file_name t p)
  | inr p ↦
      split_long-Splits file_name t (ground arith) (find_split (length file_name) 0 file_name) refl
        (rw p at e)
]

c_string-zeros : (k : ℕ) → c_string (replicate k 0) ≡ []
c_string-zeros zero = refl
c_string-zeros (suc k) = refl

c_string-append_zeros : (s : List ℕ) (k : ℕ) → IsText s → c_string (s ++ replicate k 0) ≡ s
c_string-append_zeros [] k t = c_string-zeros k
c_string-append_zeros (c ∷ cs) k t = ground (arith, c_string-append_zeros cs k t.2)

-- A field is zero behind the string, so reading it as a string gives the string back.
pub c_string-copy_field :
    (n : ℕ) (s : List ℕ) → IsText s → length s ≤ n → c_string (copy_field n s) ≡ s
c_string-copy_field n s t h = rw (take-all n s h) (c_string-append_zeros s (n - length s) t)

pub length-copy_field : (n : ℕ) (s : List ℕ) → length s ≤ n → length (copy_field n s) ≡ n
length-copy_field n s h = omega (
  arith,
  length-append (take n s) (replicate (n - length s) 0),
  length-take n s,
  length-replicate {A = ℕ} (n - length s) 0,
)

-- What the reader makes of a prefix and a name.
abbrev pub join_name : List ℕ → List ℕ → List ℕ
join_name [] name = name
join_name (c ∷ cs) name = (c ∷ cs) ++ b'/' ∷ name

is_nonzero : (c : ℕ) → 0 < c → (c == 0) ≡ false
is_nonzero c h = ground arith

pub get_file_name-fields :
    (h : Header) (prefix name : List ℕ)
    → IsText prefix
    → IsText name
    → length prefix ≤ 155
    → length name ≤ 100
    → Header.prefix h ≡ copy_field 155 prefix
    → Header.name h ≡ copy_field 100 name
    → get_file_name h ≡ join_name prefix name
unfolding get_file_name
get_file_name-fields h [] name tp tn lp ln ep en =
    rw (ep, en, c_string-copy_field 100 name tn ln) (take-all 256 name (omega arith))
get_file_name-fields h (c ∷ cs) name tp tn lp ln ep en =
    let text : c_string (Header.prefix h) ≡ c ∷ cs =
      rw ep (c_string-copy_field 155 (c ∷ cs) tp lp) in
    let not_nul : (byte_at 0 (Header.prefix h) == 0) ≡ false = rw ep (is_nonzero c tp.0) in
    rw (not_nul, text, en, c_string-copy_field 100 name tn ln)
      (take-all 256 ((c ∷ cs) ++ b'/' ∷ name) (omega (arith, length-append (c ∷ cs) (b'/' ∷ name))))
