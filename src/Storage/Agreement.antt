-- ===== src/Storage/Agreement.antt =====
-- What a matching inspection says of a folder (src/core/persistence.ts:
-- inspectMaterializedProjectTree).
use jupyter_pair_ext.Base.{
  ◌≡◌, refl, sym, ap, ◌∙◌, Bool, true, false, not, ◌&&◌, ◌||◌, Option, none, some, List, [], ◌∷◌,
  ◌++◌, map, arith, nat_eq, string_eq, is_some, all, any, filter, Map, get, has,
}
use jupyter_pair_ext.Base.Codes.{Text, text_eqb, text_eq, text_eqb_iff}
use mathlib.Core.List.{Memᴰ}
use mathlib.Core.List.Memᴰ.{head, tail}
use jupyter_pair_ext.Storage.{ProjectFile, Host}
use jupyter_pair_ext.Storage.Manifest.{Tree, filesystem_relative_key, directory_map, with_slash}
use jupyter_pair_ext.Storage.Inspect.{
  expected_files, compare_file, compare_files, missing_files, missing_directories,
  extra_directories, is_empty, inspection,
}

module _ {D : Type 0} (host : Host D) where
  abbrev pub key_of : ProjectFile → Text
  key_of file = filesystem_relative_key host file.relative_path

  abbrev pub is_hash : Option (Text × Text) → Text → Bool
  is_hash none hash = false
  is_hash (some (path, expected)) hash = text_eqb hash expected

  abbrev pub has_file : List ProjectFile → Text × (Text × Text) → Bool
  has_file files (key, entry) = any (λ file. text_eqb key (key_of file)) files

  abbrev pub has_directory : List Text → Text × Text → Bool
  has_directory directories (key, directory) =
      any (λ d. text_eqb key (filesystem_relative_key host d)) directories

  abbrev pub may_exist : Map Text Text → List Text → Text → Bool
  may_exist expected private_keys directory =
      let key = filesystem_relative_key host directory in
      has key expected || any (text_eqb key) private_keys

  -- Whether a folder agrees with what is expected: each file is expected with the hash it has, each
  -- expected file is there, each expected directory is there, and each directory is expected or
  -- holds only what stays on the host.
  unfoldable pub agrees : Tree → List ProjectFile → List Text → List Text → Bool
  agrees t files directories private_keys =
      let expected = expected_files host t in
      let expected_directories = directory_map host t.directories [] in
      all (λ (f : ProjectFile). is_hash (get (key_of f) expected) f.hash) files
      && all (has_file files) expected
      && all (has_directory directories) expected_directories
      && all (may_exist expected_directories private_keys) directories

empty-append {ℓ} :
    {A : Type ℓ} (xs ys : List A) → is_empty (xs ++ ys) ≡ (is_empty xs && is_empty ys)
unfolding is_empty
empty-append [] ys = refl
empty-append (x ∷ xs) ys = refl

-- nothing passes a filter exactly when everything fails its test
empty-filter {ℓ κ} :
    {A : Type ℓ} {B : Type κ} (p q : A → Bool) (f : A → B)
    → ((x : A) → q x ≡ not (p x))
    → (xs : List A) → is_empty (map f (filter p xs)) ≡ all q xs
unfolding is_empty
empty-filter p q f h [] = refl
empty-filter p q f h (x ∷ xs) = ground (arith, h x, empty-filter p q f h xs)

pub all-cong {ℓ} :
    {A : Type ℓ} (p q : A → Bool) (xs : List A)
    → ((x : A) → Memᴰ x xs → p x ≡ q x)
    → all p xs ≡ all q xs
all-cong p q [] h = refl
all-cong p q (x ∷ xs) h =
    let first = h x (head refl) in
    let rest = all-cong p q xs (λ y m. h y (tail m)) in ground (arith, first, rest)

any-map :
    (k : Text) (f : Text → Text) (xs : List Text)
    → any (text_eqb k) (map f xs) ≡ any (λ x. text_eqb k (f x)) xs
any-map k f [] = refl
any-map k f (x ∷ xs) = ground (arith, any-map k f xs)

Mem-has :
    (entry : Text × (Text × Text)) (m : Map Text (Text × Text))
    → Memᴰ entry m
    → has entry.0 m ≡ true
unfolding get
Mem-has entry [] h = elim h [ ]
Mem-has entry ((k, v) ∷ m) (head e) =
    let same : text_eqb k entry.0 ≡ true = (text_eqb_iff k entry.0).1 (sym (ap (λ x. x.0) e)) in
    ground (arith, same)
Mem-has entry ((k, v) ∷ m) (tail h) = ground (arith, Mem-has entry m h)

-- the order of the tests
rearrange :
    (m m' x d x' : Bool) {a b c e : Bool}
    → (x && d) ≡ a
    → m ≡ b
    → m' ≡ c
    → x' ≡ e
    → ((m && m') && d && (x && x')) ≡ (a && b && c && e)
rearrange m m' x d x' h i j k = ground (arith, h, i, j, k)

module _ {D : Type 0} (host : Host D) where
  -- nothing is extra and nothing differs when every file is expected as it is
  abbrev compared : Map Text (Text × Text) → List ProjectFile → List Text × List Text × List Text
  compared = compare_files host

  abbrev is_expected : Map Text (Text × Text) → ProjectFile → Bool
  is_expected expected f = is_hash host (get (key_of host f) expected) f.hash

  file-empty :
      (o : Option (Text × Text)) (f : ProjectFile) (r : List Text × List Text × List Text)
      → (is_empty (compare_file host o f r).0 && is_empty (compare_file host o f r).1)
        ≡ (is_hash host o f.hash && (is_empty r.0 && is_empty r.1))
  unfolding compare_file is_empty
  file-empty none f r = refl
  file-empty (some (path, hash)) f (extra, different, seen) = ground arith

  files-empty :
      (expected : Map Text (Text × Text)) (files : List ProjectFile)
      → (is_empty (compared expected files).0 && is_empty (compared expected files).1)
        ≡ all (is_expected expected) files
  unfolding compare_files is_empty
  files-empty expected [] = refl
  files-empty expected (f ∷ files) =
      file-empty (get (key_of host f) expected) f (compared expected files)
      ∙ ap (λ b. is_expected expected f && b) (files-empty expected files)

  seen-one :
      (k : Text) (f : ProjectFile) (o : Option (Text × Text))
      (r : List Text × List Text × List Text)
      → (text_eqb k (key_of host f) ≡ true → is_some o ≡ true)
      → any (text_eqb k) (compare_file host o f r).2
        ≡ (text_eqb k (key_of host f) || any (text_eqb k) r.2)
  unfolding compare_file
  seen-one k f none r e = ground (arith, e)
  seen-one k f (some (path, hash)) (extra, different, seen) e = refl

  -- a key that is expected has been seen when a file has it
  seen-file :
      (k : Text) (expected : Map Text (Text × Text)) (files : List ProjectFile)
      → has k expected ≡ true
      → any (text_eqb k) (compared expected files).2 ≡ any (λ f. text_eqb k (key_of host f)) files
  unfolding compare_files
  seen-file k expected [] h = refl
  seen-file k expected (f ∷ files) h =
      seen-one k f (get (key_of host f) expected) (compared expected files)
        (λ e. ap (λ x. has x expected) (sym ((text_eqb_iff k (key_of host f)).0 e)) ∙ h)
      ∙ ap (λ b. text_eqb k (key_of host f) || b) (seen-file k expected files h)

  missing_files-empty :
      (expected : Map Text (Text × Text)) (files : List ProjectFile)
      → is_empty (missing_files host expected (compared expected files).2)
        ≡ all (has_file host files) expected
  unfolding missing_files
  missing_files-empty expected files =
      let seen = (compared expected files).2 in
      let is_seen : Text × (Text × Text) → Bool = λ x. any (text_eqb x.0) seen in
      empty-filter (λ x. not (is_seen x)) is_seen (λ x. x.1.0) (λ x. ground arith) expected
      ∙ all-cong is_seen (has_file host files) expected
          (λ x m. seen-file x.0 expected files (Mem-has x expected m))

  missing_directories-empty :
      (expected : Map Text Text) (directories : List Text)
      → is_empty (missing_directories host expected directories)
        ≡ all (has_directory host directories) expected
  unfolding missing_directories
  missing_directories-empty expected directories =
      let seen = map (filesystem_relative_key host) directories in
      let is_seen : Text × Text → Bool = λ x. any (text_eqb x.0) seen in
      empty-filter (λ x. not (is_seen x)) is_seen (λ x. with_slash x.1) (λ x. ground arith) expected
      ∙ all-cong is_seen (has_directory host directories) expected
          (λ x m. any-map x.0 (filesystem_relative_key host) directories)

  extra_directories-empty :
      (expected : Map Text Text) (private_keys directories : List Text)
      → is_empty (extra_directories host expected private_keys directories)
        ≡ all (may_exist host expected private_keys) directories
  unfolding extra_directories
  extra_directories-empty expected private_keys directories =
      empty-filter
        (λ d.
          not (has (filesystem_relative_key host d) expected)
          && not (any (text_eqb (filesystem_relative_key host d)) private_keys))
        (may_exist host expected private_keys) with_slash (λ d. ground arith) directories

  -- An inspection matches exactly when the folder agrees with what is expected.
  pub inspection-agrees :
      (t : Tree) (files : List ProjectFile) (directories private_keys : List Text)
      → (inspection host t files directories private_keys).is_match
        ≡ agrees host t files directories private_keys
  unfolding inspection agrees
  inspection-agrees t files directories private_keys =
      let e = expected_files host t in
      let d = directory_map host t.directories [] in
      let (extra, different, seen) = compared e files in
      let missing = missing_files host e seen in
      let missing' = missing_directories host d directories in
      let extra' = extra_directories host d private_keys directories in
      ap (λ b. b && is_empty different && is_empty (extra ++ extra'))
        (empty-append missing missing')
      ∙ ap (λ b. (is_empty missing && is_empty missing') && is_empty different && b)
          (empty-append extra extra')
      ∙ rearrange (is_empty missing) (is_empty missing') (is_empty extra) (is_empty different)
          (is_empty extra') (files-empty e files) (missing_files-empty e files)
          (missing_directories-empty d directories)
          (extra_directories-empty d private_keys directories)
